-- ===== src/Buddy/Release.antt =====
-- A freed block whose pages are in no free block joins the free ones, and so do n pages.
use os_edf.Prelude.{
  ℕ, zero, suc, ◌+◌, ◌-◌, ◌*◌, ◌%◌, ◌^◌, ◌≤◌, ◌<◌, ◌≡◌, refl, sym, ap, subst, ◌∙◌, inl, inr, Bool,
  Bool-cases, true, false, ◌==◌, arith,
}
use native.Mathlib.Nat.{mul-mod_left}
use os_edf.Prelude.Run.{Ends, ends, Ends-map, Ends-bind, Ends-both}
use os_edf.Buddy.{
  Pages, set_at, put_free, take_buddy, page_is_buddy, page2idx, flip_bit, clear_bit, merge_loop,
  clear_pages, buddy_free_pages_sub,
}
use os_edf.Buddy.Cover.{in_block, in_block-cases, listed, free_count}
use os_edf.Buddy.State.{free_at, put-Fits, take_buddy-Fits, free_at-take_buddy}
use os_edf.Buddy.Homes.{
  Ready, Homes, Sound, Sound-unflagged, listed-apart, put-Homes, take-Homes, in_block_self,
}
use os_edf.Buddy.Merge.{
  in_block-buddies, page_is_buddy-listed, InUse, set_at-false, free_pages_sub-Freed,
}

-- What freeing leaves of the zones and the reservations
pub record Frame (st st' : Pages) : Type 0 where
  pub zone : st'.zone_num ≡ st.zone_num
  pub base : st'.mem_base ≡ st.mem_base
  pub keeps : (q : ℕ) → st.reserved q ≡ false → st'.reserved q ≡ false

pub Frame-refl : (st : Pages) → Frame st st
Frame-refl st = record { zone = refl; base = refl; keeps = λ q h. h }

pub Frame-trans : {a b c : Pages} → Frame a b → Frame b c → Frame a c
Frame-trans f g = record {
  zone = g.zone ∙ f.zone;
  base = g.base ∙ f.base;
  keeps = λ q h. g.keeps q (f.keeps q h);
}

-- The buddy of a block is ready as soon as it has left its list.
buddy-Ready :
    (zone buddy order : ℕ) (st : Pages)
    → Homes st
    → order ≤ 10
    → listed buddy (st.free_list order) ≡ true
    → st.zone_num buddy ≡ zone
    → (st.mem_base zone ≤ buddy) × Ready zone order buddy (take_buddy buddy order st)
unfolding take_buddy
buddy-Ready zone buddy order st h small l e =
    let home = h.home order buddy small l in
    (
      subst (λ z. st.mem_base z ≤ buddy) e home.0,
      λ q inside.
          let u = home.1 q inside in
          let less = free_at-take_buddy q buddy order st small l in
          let o = h.once q in ((u.0, u.1 ∙ e), omega (arith, less, o, inside)),
    )

merged-Ready :
    (zone order idx : ℕ) (st : Pages)
    → Homes st
    → order ≤ 10
    → listed (st.mem_base zone + flip_bit order idx) (st.free_list order) ≡ true
    → st.zone_num (st.mem_base zone + flip_bit order idx) ≡ zone
    → Ready zone order (st.mem_base zone + idx) st
    → Ready zone
        (order + 1)
        (st.mem_base zone + clear_bit order idx)
        (take_buddy (st.mem_base zone + flip_bit order idx) order st)
unfolding take_buddy
merged-Ready zone order idx st h small l e ready q inside =
    let buddy = st.mem_base zone + flip_bit order idx in
    let both = in_block-buddies q order (st.mem_base zone) idx in
    elim (in_block-cases q order (st.mem_base zone + idx)) [
      | inl mine ↦
          let r = ready q mine in
          let less = free_at-take_buddy q buddy order st small l in (r.0, omega (arith, less, r.1))
      | inr other ↦
          (buddy-Ready zone buddy order st h small l e).1 q (omega (arith, both, other, inside))
    ]

page_is_buddy-zone :
    (page order zone : ℕ) (st : Pages)
    → page_is_buddy page order zone st ≡ true
    → st.zone_num page ≡ zone
unfolding page_is_buddy
page_is_buddy-zone page order zone st h = ground (arith, h)

merge_loop-Sound :
    (left zone idx order : ℕ) (st : Pages)
    → Sound st
    → order + left ≡ 10
    → Ready zone order (st.mem_base zone + idx) st
    → Sound (merge_loop left zone idx order st) × Frame st (merge_loop left zone idx order st)
unfolding merge_loop take_buddy put_free
merge_loop-Sound zero zone idx order st s h ready = (
  record {
    fits = put-Fits (st.mem_base zone + idx) order st s.fits;
    homes =
        put-Homes zone order (st.mem_base zone + idx) st s.homes (omega (arith, h)) (omega arith)
          ready;
  },
  record { zone = refl; base = refl; keeps = λ q r. r },
)
merge_loop-Sound (suc left) zone idx order st s h ready =
    let buddy = st.mem_base zone + flip_bit order idx in
    elim (Bool-cases (page_is_buddy buddy order zone st)) [
      | inr busy ↦ rw busy (
        record {
          fits = put-Fits (st.mem_base zone + idx) order st s.fits;
          homes =
              put-Homes zone order (st.mem_base zone + idx) st s.homes (omega (arith, h))
                (omega arith) ready;
        },
        record { zone = refl; base = refl; keeps = λ q r. r },
      )
      | inl free ↦
          let l = page_is_buddy-listed buddy order zone st s.fits free in
          let e = page_is_buddy-zone buddy order zone st free in
          let small : order ≤ 10 = omega (arith, h) in
          let s' : Sound (take_buddy buddy order st) = record {
            fits = take_buddy-Fits buddy order st l s.fits;
            homes = take-Homes buddy order st s.homes small l;
          } in
          let (sound, frame) =
            merge_loop-Sound left zone (clear_bit order idx) (order + 1) (take_buddy buddy order st)
              s' (omega (arith, h)) (merged-Ready zone order idx st s.homes small l e ready) in
          rw free (sound, record { zone = frame.zone; base = frame.base; keeps = frame.keeps })
    ]

clear_one-Sound :
    (p : ℕ) (st : Pages)
    → Sound st
    → free_at p st ≡ 0
    → Sound (record st {
      reserved = set_at p false st.reserved;
      has_property = set_at p false st.has_property;
      ref = set_at p 0 st.ref;
    })
clear_one-Sound p st s none_free = record {
  fits = record {
    flagged = λ q g. s.fits.flagged q (clears q st.has_property g);
    counted = s.fits.counted;
  };
  homes = record {
    orders = λ q g. s.homes.orders q (clears q st.has_property g);
    headed = λ o x le l.
        let there = listed-apart p x o st le none_free l in rw there (s.homes.headed o x le l);
    home = λ o x le l.
        let h = s.homes.home o x le l in
        (h.0, λ q inside. let u = h.1 q inside in (set_at-false p q st.reserved u.0, u.1));
    once = s.homes.once;
  };
}
  where
    clears : (q : ℕ) (f : ℕ → Bool) → set_at p false f q ≡ true → f q ≡ true
    clears q f g = elim (Bool-cases (p == q)) [
      | inl here ↦ absurd (let g' = rw here at g in cc)
      | inr there ↦ rw there at g
    ]

clear_pages-Sound :
    (n p : ℕ) (st : Pages)
    → Sound st
    → InUse p n st
    → ((q : ℕ) → p ≤ q → q < p + n → free_at q st ≡ 0)
    → Ends (λ st'. Sound st' × Frame st st' × (st'.free_list ≡ st.free_list)) (clear_pages n p st)
unfolding clear_pages
clear_pages-Sound zero p st s used apart = ends (s, Frame-refl st, refl)
clear_pages-Sound (suc n) p st s used apart =
    let (r, h) = used p (omega arith) (omega arith) in
    let now : Pages = record st {
      reserved = set_at p false st.reserved;
      has_property = set_at p false st.has_property;
      ref = set_at p 0 st.ref;
    } in
    let rest : InUse (p + 1) n now = λ q low high.
      let old = used q (omega (arith, low)) (omega (arith, high)) in
      (set_at-false p q st.reserved old.0, set_at-false p q st.has_property old.1) in
    rw (r, h)
      (Ends-map
        (clear_pages-Sound n (p + 1) now
          (clear_one-Sound p st s (apart p (omega arith) (omega arith))) rest
          λ q low high. apart q (omega (arith, low)) (omega (arith, high)))
        λ st' (s', f, l). (
          s',
          record {
            zone = f.zone;
            base = f.base;
            keeps = λ q g. f.keeps q (set_at-false p q st.reserved g);
          },
          l,
        ))

-- In the order o, k blocks behind the start of its zone
abbrev pub Aligned : ℕ → ℕ → ℕ → Pages → Type 0
Aligned zone o p st = (k : ℕ) × (p ≡ st.mem_base zone + k * 2 ^ o)

free_pages_sub-keeps :
    (zone base order : ℕ) (st : Pages)
    → Sound st
    → order ≤ 10
    → st.zone_num base ≡ zone
    → st.mem_base zone ≤ base
    → page2idx base st % 2 ^ order ≡ 0
    → InUse base (2 ^ order) st
    → Ready zone order base st
    → Ends (λ st'. Sound st' × Frame st st') (buddy_free_pages_sub base order st)
unfolding buddy_free_pages_sub page2idx
free_pages_sub-keeps zone base order st s small own low even used ready =
    let e : ((base - st.mem_base (st.zone_num base)) % 2 ^ order == 0) ≡ true =
      ground (arith, even) in
    rw e (
      Ends-bind
        (clear_pages-Sound (2 ^ order) base st s used
          λ q low high. (ready q (ground (arith, low, high))).1)
        λ st' (s', f, l).
          let bases : st'.mem_base zone ≡ st.mem_base zone = ap (λ b. b zone) f.base in
          let start : st.mem_base (st.zone_num base) ≡ st.mem_base zone =
            ap (λ z. st.mem_base z) own in
          let there : st'.mem_base zone + (base - st.mem_base (st.zone_num base)) ≡ base =
            omega (arith, bases, start, low) in
          let ready' : Ready zone order base st' = λ q inside.
            let r = ready q inside in
            (
              (f.keeps q r.0.0, ap (λ z. z q) f.zone ∙ r.0.1),
              ap (λ x. free_count q 11 x) l ∙ r.1,
            ) in
          let m =
            merge_loop-Sound (10 - order) zone (base - st.mem_base (st.zone_num base)) order st' s'
              (omega (arith, small)) (subst (λ p. Ready zone order p st') (sym there) ready') in
          let m' =
            subst
              (λ z.
                Sound (merge_loop (10 - order) z (base - st.mem_base (st.zone_num base)) order st')
                × Frame st'
                    (merge_loop (10 - order) z (base - st.mem_base (st.zone_num base)) order st'))
              (sym own) m in
          ends (m'.0, Frame-trans f m'.1))

pub free_pages_sub-Sound :
    (zone base order : ℕ) (st : Pages)
    → Sound st
    → order ≤ 10
    → Aligned zone order base st
    → Ready zone order base st
    → Ends
        (λ st'.
          (Sound st' × Frame st st')
          × ((q : ℕ) → free_at q st' ≡ free_at q st + in_block q order base))
        (buddy_free_pages_sub base order st)
unfolding buddy_free_pages_sub page2idx
free_pages_sub-Sound zone base order st s small (k, e) ready =
    let own : st.zone_num base ≡ zone = (ready base (in_block_self order base)).0.1 in
    let own' : st.mem_base (st.zone_num base) ≡ st.mem_base zone = ap (λ z. st.mem_base z) own in
    let idx : base - st.mem_base (st.zone_num base) ≡ k * 2 ^ order = omega (arith, e, own') in
    let even : (base - st.mem_base (st.zone_num base)) % 2 ^ order ≡ 0 =
      ap (λ x. x % 2 ^ order) idx ∙ mul-mod_left k (2 ^ order) in
    let used : InUse base (2 ^ order) st =
      λ q low high. let r = ready q (inside q low high) in (r.0.0, Sound-unflagged q st s r.1) in
    let counts =
      free_pages_sub-Freed base order st s.fits small (omega (arith, e, own')) even used in
    Ends-both
      (free_pages_sub-keeps zone base order st s small own (omega (arith, e)) even used ready)
      (Ends-map counts λ st' c. c.1)
  where
    inside : (q : ℕ) → base ≤ q → q < base + 2 ^ order → in_block q order base ≡ 1
    inside q low high = ground arith
