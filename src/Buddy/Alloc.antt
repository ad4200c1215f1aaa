-- ===== src/Buddy/Alloc.antt =====
-- buddy_alloc_pages gives n pages out that were free, and no others.
use os_edf.Prelude.{
  ℕ, zero, suc, ◌+◌, ◌-◌, ◌^◌, ◌≤◌, ◌<◌, ◌≡◌, refl, sym, ap, subst, inl, inr, Bool-cases, true,
  Option, none, some, leb, ◌==◌, arith,
}
use os_edf.Prelude.Run.{Ends, ends, Ends-if}
use os_edf.Buddy.{
  Pages, put_free, pop_free, clear_property, split_loop, alloc_loop, buddy_alloc_pages_sub,
  order_loop, getorder,
}
use os_edf.Buddy.Cover.{in_block-halves, in_block_le}
use os_edf.Buddy.State.{free_at-put}
use os_edf.Buddy.Homes.{Ready, Homes, Sound, put-Homes, pop-Homes, clear-Homes, in_block_self}
use os_edf.Buddy.Split.{List-cases, Allocated, alloc_loop-Allocated}
use os_edf.Buddy.Release.{Frame, Frame-refl}

-- The first half of a block that is split stays ready, the other becomes free.
split_loop-Homes :
    (d zone order page : ℕ) (st : Pages)
    → Homes st
    → order + d ≤ 10
    → st.mem_base zone ≤ page
    → Ready zone (order + d) page st
    → Homes (split_loop d order page st)
      × Ready zone order page (split_loop d order page st)
      × Frame st (split_loop d order page st)
unfolding split_loop put_free
split_loop-Homes zero zone order page st h small low ready =
    let same : order + 0 ≡ order = omega arith in
    (h, subst (λ o. Ready zone o page st) same ready, Frame-refl st)
split_loop-Homes (suc d) zone order page st h small low ready =
    let o = order + d in
    let up : order + suc d ≡ o + 1 = omega arith in
    let ready' : Ready zone (o + 1) page st = subst (λ x. Ready zone x page st) up ready in
    let st' = put_free (page + 2 ^ o) o st in
    let right : Ready zone o (page + 2 ^ o) st = λ q inside.
      let halves = in_block-halves q o page in
      let bound = in_block_le q (o + 1) page in ready' q (omega (arith, halves, bound, inside)) in
    let h' =
      put-Homes zone o (page + 2 ^ o) st h (omega (arith, small)) (omega (arith, low)) right in
    let left : Ready zone o page st' = λ q inside.
      let halves = in_block-halves q o page in
      let bound = in_block_le q (o + 1) page in
      let r = ready' q (omega (arith, halves, bound, inside)) in
      let more = free_at-put q (page + 2 ^ o) o st (omega (arith, small)) in
      (r.0, omega (arith, more, r.1, halves, bound, inside)) in
    let (a, b, f) = split_loop-Homes d zone order page st' h' (omega (arith, small)) low left in
    (a, b, record { zone = f.zone; base = f.base; keeps = f.keeps })

-- A block that was taken out of the lists lies in one zone, and no list has a page of it.
abbrev pub Given : ℕ → Option ℕ × Pages → Type 0
Given order (some page, st) = (zone : ℕ) × (st.mem_base zone ≤ page) × Ready zone order page st
Given order (none, st) = Unit

alloc_loop-Given :
    (left order cur : ℕ) (st : Pages)
    → Homes st
    → order ≤ cur
    → cur + left ≡ 11
    → Homes (alloc_loop left order cur st).1
      × Given order (alloc_loop left order cur st)
      × Frame st (alloc_loop left order cur st).1
unfolding alloc_loop clear_property pop_free
alloc_loop-Given zero order cur st h low sum = (h, tt, Frame-refl st)
alloc_loop-Given (suc left) order cur st h low sum = elim (List-cases (st.free_list cur)) [
  | inl none_here ↦
      rw (alloc_loop, none_here)
        (alloc_loop-Given left order (cur + 1) st h (omega (arith, low)) (omega (arith, sum)))
  | inr (page, pages, some_here) ↦
      let small : cur ≤ 10 = omega (arith, sum) in
      let (popped, inside, ready) = pop-Homes page cur pages st h small some_here in
      let back : order + (cur - order) ≡ cur = omega (arith, low) in
      let zone = st.zone_num page in
      let (a, b, f) =
        split_loop-Homes (cur - order) zone order page (pop_free cur pages st) popped
          (omega (arith, back, small)) inside
          (subst (λ o. Ready zone o page (pop_free cur pages st)) (sym back) ready) in
      let start = ap (λ g. g zone) f.base in
      rw (alloc_loop, some_here)
        (
          clear-Homes page (split_loop (cur - order) order page (pop_free cur pages st)) a
              (b page (in_block_self order page)).1,
          (zone, omega (arith, start, inside), b),
          record { zone = f.zone; base = f.base; keeps = f.keeps },
        )
]

pub alloc_pages_sub-Given :
    (order : ℕ) (st : Pages)
    → Sound st
    → order ≤ 10
    → Ends
        (λ r. Sound r.1 × Given order r × Frame st r.1 × Allocated order st r)
        (buddy_alloc_pages_sub order st)
unfolding buddy_alloc_pages_sub
alloc_pages_sub-Given order st s h =
    let small : leb order 10 ≡ true = ground arith in
    let r =
      alloc_loop-Allocated (11 - order) order order st s.fits (omega arith) (omega (arith, h))
        (λ o low high. absurd (omega (arith, low, high))) in
    let g = alloc_loop-Given (11 - order) order order st s.homes (omega arith) (omega (arith, h)) in
    rw small (ends (record { fits = r.0; homes = g.0 }, g.1, g.2, r.1))

-- The least order whose blocks have n pages
pub record LeastOrder (n order : ℕ) : Type 0 where
  pub small : order ≤ 10
  pub fits : n ≤ 2 ^ order
  pub least : (o : ℕ) → o < order → 2 ^ o < n

order_loop-LeastOrder :
    (left order n : ℕ)
    → order + left ≡ 11
    → order ≤ 10
    → n ≤ 1024
    → ((o : ℕ) → o < order → 2 ^ o < n)
    → Ends (LeastOrder n) (order_loop left order n)
unfolding order_loop
order_loop-LeastOrder zero order n sum high small below = absurd (omega (arith, sum, high))
order_loop-LeastOrder (suc left) order n sum high small below =
    Ends-if (leb n (2 ^ order))
      (λ fits. ends (record { small = high; fits = ground arith; least = below }))
      λ larger. elim (Bool-cases (order == 10)) [
        | inl last ↦
            let e : order ≡ 10 = ground arith in
            let full = ap (λ (x : ℕ). 2 ^ x) e in absurd (ground (arith, full))
        | inr more ↦
            order_loop-LeastOrder left (order + 1) n (omega (arith, sum)) (ground (arith, high))
              small
              λ o h. elim (Bool-cases (o == order)) [
                | inl same ↦
                    let e : o ≡ order = ground arith in
                    let f = ap (λ (x : ℕ). 2 ^ x) e in ground (arith, f)
                | inr less ↦ below o (ground (arith, h))
              ]
      ]

pub getorder-LeastOrder : (n : ℕ) → n ≤ 1024 → Ends (LeastOrder n) (getorder n)
unfolding getorder
getorder-LeastOrder n h =
    order_loop-LeastOrder 11 0 n refl (omega arith) h (λ o g. absurd (omega (arith, g)))
