-- ===== src/Buddy/OnePage.antt =====
-- One page from the buddy allocator and back: what the rest of struct Page keeps.
use os_edf.Prelude.{
  ℕ, zero, suc, ◌+◌, ◌-◌, ◌%◌, ◌^◌, ◌≤◌, ◌≡◌, refl, ap, subst, Bool-cases, true, false, not, ◌&&◌,
  inl, inr, ◌==◌, if◌then◌else◌, arith, Option, none, some, leb,
}
use os_edf.Prelude.Run.{Run, ok, ◌>>=◌, Ends, ends, Ends-map, Ends-bind, Ends-both}
use os_edf.Buddy.{
  Pages, set_at, put_free, pop_free, clear_property, split_loop, alloc_loop, buddy_alloc_pages_sub,
  buddy_alloc_pages, page_is_buddy, flip_bit, clear_bit, idx2page, page2idx, take_buddy, merge_loop,
  clear_pages, buddy_free_pages_sub, buddy_free_pages,
}
use os_edf.Buddy.State.{free_at}
use os_edf.Buddy.Homes.{Usable, Sound, Sound-unflagged}
use os_edf.Buddy.Split.{List-cases}
use os_edf.Buddy.Release.{Frame}
use os_edf.Buddy.Ranges.{ReadyRange, Freed}
use os_edf.Buddy.Rising.{free_pages-Freed}
use os_edf.Buddy.Alloc.{getorder-LeastOrder, alloc_pages_sub-Given}
use os_edf.Buddy.Trim.{Served, alloc_pages-Served}

-- The number of pages, and the reference counters
abbrev pub SamePages : Pages → Pages → Type 0
SamePages st st' = (st'.npage ≡ st.npage) × (st'.ref ≡ st.ref)

split_loop-SamePages : (d order page : ℕ) (st : Pages) → SamePages st (split_loop d order page st)
unfolding split_loop put_free
split_loop-SamePages zero order page st = (refl, refl)
split_loop-SamePages (suc d) order page st =
    split_loop-SamePages d order page (put_free (page + 2 ^ (order + d)) (order + d) st)

alloc_loop-SamePages :
    (left order cur : ℕ) (st : Pages) → SamePages st (alloc_loop left order cur st).1
unfolding alloc_loop pop_free clear_property
alloc_loop-SamePages zero order cur st = (refl, refl)
alloc_loop-SamePages (suc left) order cur st = elim (List-cases (st.free_list cur)) [
  | inl none_here ↦ rw (alloc_loop, none_here) (alloc_loop-SamePages left order (cur + 1) st)
  | inr (page, pages, some_here) ↦
      rw (alloc_loop, some_here)
        (split_loop-SamePages (cur - order) order page (pop_free cur pages st))
]

alloc_pages_sub-Kept :
    (order : ℕ) (st : Pages)
    → Sound st
    → order ≤ 10
    → Ends (λ r. SamePages st r.1 × Frame st r.1) (buddy_alloc_pages_sub order st)
unfolding buddy_alloc_pages_sub
alloc_pages_sub-Kept order st s h =
    let same : Ends (λ r. SamePages st r.1) (buddy_alloc_pages_sub order st) =
      let small : leb order 10 ≡ true = ground (arith, h) in
      rw small (ends (alloc_loop-SamePages (11 - order) order order st)) in
    Ends-map (Ends-both same (alloc_pages_sub-Given order st s h)) λ r (k, (a, b, f, c)). (k, f)

-- One page
alloc_page-Kept :
    (st : Pages) → Sound st → Ends (λ r. SamePages st r.1 × Frame st r.1) (buddy_alloc_pages 1 st)
unfolding buddy_alloc_pages
alloc_page-Kept st s = Ends-bind (getorder-LeastOrder 1 (omega arith)) λ order l.
    let lowest : order ≡ 0 = elim (Bool-cases (order == 0)) [
      | inl e ↦ ground arith
      | inr e ↦ let more = l.least 0 (ground (arith, e)) in absurd (omega (arith, more))
    ] in
    Ends-bind (alloc_pages_sub-Kept order st s l.small) λ r k. whole order lowest st r k
  where
    whole :
        (order : ℕ)
        → order ≡ 0
        → (st : Pages) (r : Option ℕ × Pages) → SamePages st r.1 × Frame st r.1
        → Ends
            (λ (r' : Option ℕ × Pages). SamePages st r'.1 × Frame st r'.1)
            (elim r.0 [
              | none ↦ ok (none, r.1)
              | some p ↦
                  let trimmed : Run (Option ℕ × Pages) = do
                    st'' ← buddy_free_pages (p + 1) (2 ^ order - 1) r.1
                    ok (some p, st'')
                  in if 1 == 2 ^ order then ok (some p, r.1) else trimmed
            ])
    whole order e st (none, st1) k = ends k
    whole order e st (some p, st1) k =
        let one : (1 == 2 ^ order) ≡ true = ap (λ o. 1 == 2 ^ o) e in rw one (ends k)

pub alloc_page-Got :
    (st : Pages)
    → Sound st
    → Ends
        (λ r. Sound r.1 × Served 1 st r × SamePages st r.1 × Frame st r.1)
        (buddy_alloc_pages 1 st)
alloc_page-Got st s =
    Ends-map
      (Ends-both (alloc_pages-Served 1 st s (omega arith) (omega arith)) (alloc_page-Kept st s))
      λ r ((a, b), (c, d)). (a, b, c, d)

merge_loop-SamePages :
    (left zone idx order : ℕ) (st : Pages) → SamePages st (merge_loop left zone idx order st)
unfolding merge_loop put_free take_buddy
merge_loop-SamePages zero zone idx order st = (refl, refl)
merge_loop-SamePages (suc left) zone idx order st =
    let buddy = idx2page zone (flip_bit order idx) st in
    let rest =
      merge_loop-SamePages left zone (clear_bit order idx) (order + 1)
        (take_buddy buddy order st) in
    elim (Bool-cases (page_is_buddy buddy order zone st)) [
      | inl e ↦ rw (merge_loop, e) rest
      | inr e ↦ rw (merge_loop, e) (refl, refl)
    ]

-- The counter of a freed page is 0.
abbrev pub FreedPage : ℕ → Pages → Pages → Type 0
FreedPage p st st' = (st'.npage ≡ st.npage) × (st'.ref ≡ set_at p 0 st.ref)

free_page-FreedPage :
    (p : ℕ) (st : Pages)
    → st.reserved p ≡ false
    → st.has_property p ≡ false
    → Ends (FreedPage p st) (buddy_free_pages p 1 st)
unfolding buddy_free_pages buddy_free_pages_sub clear_pages
free_page-FreedPage p st r h =
    let aligned : (page2idx p st % 1 == 0) ≡ true = ground arith in
    let clear : (not (st.reserved p) && not (st.has_property p)) ≡ true = ground (arith, r, h) in
    let cleared : Pages = record st {
      reserved = set_at p false st.reserved;
      has_property = set_at p false st.has_property;
      ref = set_at p 0 st.ref;
    } in
    let merged = merge_loop 10 (st.zone_num p) (page2idx p st) 0 cleared in
    rw (aligned, clear)
      (ends {a = merged} (merge_loop-SamePages 10 (st.zone_num p) (page2idx p st) 0 cleared))

pub free_page-Gone :
    (zone p : ℕ) (st : Pages)
    → Sound st
    → st.mem_base zone ≤ p
    → Usable zone p st
    → free_at p st ≡ 0
    → Ends (λ st'. Freed p 1 st st' × FreedPage p st st') (buddy_free_pages p 1 st)
free_page-Gone zone p st s low usable apart =
    let ready : ReadyRange zone p 1 st = λ q inside.
      let e : p ≡ q = ground (arith, inside) in
      subst (λ x. Usable zone x st × (free_at x st ≡ 0)) e (usable, apart) in
    Ends-both (free_pages-Freed zone p 1 st s (omega arith) (omega arith) low ready)
      (free_page-FreedPage p st usable.0 (Sound-unflagged p st s apart))
