-- ===== src/Buddy/Rising.antt =====
-- The first loop of buddy_free_pages, and the whole of it.
use os_edf.Prelude.{
  ℕ, zero, suc, ◌+◌, ◌-◌, ◌*◌, ◌/◌, ◌%◌, ◌^◌, ◌≤◌, ◌<◌, ◌≡◌, refl, sym, ap, subst, ◌∙◌, true, not,
  ltb, leb, ◌==◌, arith,
}
use native.Mathlib.Nat.{mul-div_cancel, add-mul}
use os_edf.Prelude.Run.{Ends, ends, Ends-map, Ends-bind, Ends-if}
use os_edf.Buddy.{Pages, page2idx, rising_loop, buddy_free_pages}
use os_edf.Buddy.Cover.{two_power_pos}
use os_edf.Buddy.State.{free_at}
use os_edf.Buddy.Homes.{Ready, Sound}
use os_edf.Buddy.Release.{Frame, Frame-refl, Frame-trans, Aligned, free_pages_sub-Sound}
use os_edf.Buddy.Ranges.{
  in_range, in_range-split, ReadyRange, Freed, Ready-part, Freed-rest, small_order, Aligned-up,
  falling_loop-Freed,
}

-- A state of the loop, on the way to the freed range
record Risen (zone base n : ℕ) (st : Pages) (r : ℕ × ℕ × ℕ × Pages) : Type 0 where
  sound : Sound r.3
  frame : Frame st r.3
  aligned : Aligned zone r.0 r.1 r.3
  ready : ReadyRange zone r.1 r.2 r.3
  less : r.2 ≤ n
  counts : (q : ℕ) → free_at q r.3 + in_range q r.1 r.2 ≡ free_at q st + in_range q base n

-- The bit of the order in the index of an aligned page
order_bit :
    (zone order base k : ℕ) (st : Pages)
    → base ≡ st.mem_base zone + k * 2 ^ order
    → st.zone_num base ≡ zone
    → page2idx base st / 2 ^ order ≡ k
unfolding page2idx
order_bit zone order base k st e own =
    let start : st.mem_base (st.zone_num base) ≡ st.mem_base zone = ap (λ z. st.mem_base z) own in
    let idx : base - st.mem_base (st.zone_num base) ≡ k * 2 ^ order = omega (arith, e, start) in
    ap (λ x. x / 2 ^ order) idx ∙ mul-div_cancel k (two_power_pos order)

rising_loop-Risen :
    (left zone order base n : ℕ) (st : Pages)
    → Sound st
    → order + left ≡ 12
    → order ≤ 11
    → n < 2048
    → Aligned zone order base st
    → ReadyRange zone base n st
    → Ends (Risen zone base n st) (rising_loop left order base n st)
unfolding rising_loop
rising_loop-Risen zero zone order base n st s sum high small al ready =
    absurd (omega (arith, sum, high))
rising_loop-Risen (suc left) zone order base n st s sum high small (k, e) ready =
    Ends-if (leb (2 ^ order) n)
      (λ more.
        let fits : 2 ^ order ≤ n = ground arith in
        let o10 = small_order order n fits small in
        let leb10 : leb order 10 ≡ true = ground arith in
        let some_pages = two_power_pos order in
        let own : st.zone_num base ≡ zone = (ready base (ground (arith, fits, some_pages))).0.1 in
        let bit = order_bit zone order base k st e own in
        rw leb10 (
          Ends-if (not ((page2idx base st / 2 ^ order) % 2 == 0))
            (λ odd.
              let j = k / 2 in
              let half : k + 1 ≡ (j + 1) + (j + 1) = ground (arith, bit, odd) in
              Ends-bind
                (free_pages_sub-Sound zone base order st s o10 (k, e)
                  (Ready-part zone order base n st fits ready))
                λ st' ((s', f), counts).
                  let start : st'.mem_base zone ≡ st.mem_base zone = ap (λ b. b zone) f.base in
                  let next : (k + 1) * 2 ^ order ≡ k * 2 ^ order + 2 ^ order =
                    add-mul k 1 (2 ^ order) ∙ omega arith in
                  let twice = ap (λ x. x * 2 ^ order) half in
                  let al' =
                    Aligned-up zone order (base + 2 ^ order) st' (j + 1)
                      (omega (arith, e, start, next, twice)) in
                  Ends-map
                    (rising_loop-Risen left zone (order + 1) (base + 2 ^ order) (n - 2 ^ order) st'
                      s' (omega (arith, sum)) (omega (arith, o10)) (omega (arith, small)) al'
                      (Freed-rest zone order base n st st' fits f counts ready))
                    λ r g. record {
                      sound = g.sound;
                      frame = Frame-trans f g.frame;
                      aligned = g.aligned;
                      ready = g.ready;
                      less = omega (arith, g.less);
                      counts = λ q.
                          let c = counts q in
                          let d = g.counts q in
                          let t = in_range-split q base (2 ^ order) n fits in
                          omega (arith, c, d, t);
                    })
            λ even.
              let j = k / 2 in
              let half : k ≡ j + j = ground (arith, bit, even) in
              let twice = ap (λ x. x * 2 ^ order) half in
              rising_loop-Risen left zone (order + 1) base n st s (omega (arith, sum))
                (omega (arith, o10)) small
                (Aligned-up zone order base st j (omega (arith, e, twice))) ready))
      λ stop. ends (record {
        sound = s;
        frame = Frame-refl st;
        aligned = (k, e);
        ready = ready;
        less = omega arith;
        counts = λ q. refl;
      })

-- When a page has the property flag exactly if it heads a block in the list of its order, which
-- is at most 10, each list's counter is its length modulo 2^32, every free block lies in one
-- zone at or behind its base and clear of reserved pages, and no page lies in two free blocks,
-- for 1 to 2047 pages of one zone at or behind its base, none reserved or free, wherever the
-- range starts and however it splits into blocks: buddy_free_pages ends with a state of that
-- kind, in which the pages of the range are free besides those that were.
pub free_pages-Freed :
    (zone base n : ℕ) (st : Pages)
    → Sound st
    → 0 < n
    → n < 2048
    → st.mem_base zone ≤ base
    → ReadyRange zone base n st
    → Ends (Freed base n st) (buddy_free_pages base n st)
unfolding buddy_free_pages
free_pages-Freed zone base n st s some_pages small low ready =
    let al : Aligned zone 0 base st = (base - st.mem_base zone, omega (arith, low)) in
    let e : ltb 0 n ≡ true = ground (arith, some_pages) in
    rw e (
      Ends-if (n == 1)
        (λ one.
          let is_one : n ≡ 1 = ground arith in
          let ready1 : Ready zone 0 base st = subst (λ m. ReadyRange zone base m st) is_one ready in
          Ends-map (free_pages_sub-Sound zone base 0 st s (omega arith) al ready1)
            λ st' ((s', f), counts). record {
              sound = s';
              frame = f;
              counts = λ q. counts q ∙ ap (λ m. free_at q st + in_range q base m) (sym is_one);
            })
        λ many.
          Ends-bind (rising_loop-Risen 12 zone 0 base n st s refl (omega arith) small al ready)
            λ r g.
              Ends-map
                (falling_loop-Freed r.2 zone r.0 r.1 r.2 r.3 g.sound (omega arith)
                  (omega (arith, g.less, small)) g.aligned g.ready)
                λ st' f. record {
                  sound = f.sound;
                  frame = Frame-trans g.frame f.frame;
                  counts = λ q. let c = g.counts q in let d = f.counts q in omega (arith, c, d);
                })
