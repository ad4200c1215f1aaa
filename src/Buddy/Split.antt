-- ===== src/Buddy/Split.antt =====
-- buddy_alloc_pages_sub takes exactly the pages of one block out of the free lists.
use os_edf.Prelude.{
  ℕ, zero, suc, ◌+◌, ◌-◌, ◌^◌, ◌≤◌, ◌<◌, ◌≡◌, refl, ap, ◌∙◌, ◌⊎◌, inl, inr, Bool-cases, true, List,
  [], ◌∷◌, Option, none, some, leb, ◌==◌, arith,
}
use os_edf.Prelude.Run.{Ends, ends}
use os_edf.Buddy.{
  Pages, put_free, pop_free, clear_property, split_loop, alloc_loop, buddy_alloc_pages_sub,
}
use os_edf.Buddy.Cover.{in_block, in_block-halves}
use os_edf.Buddy.State.{
  Fits, FitsBut, free_at, put-FitsBut, free_at-put, clear-Fits, pop_free-FitsBut, free_at-pop,
}

split_loop-FitsBut :
    (d order page : ℕ) (st : Pages) → FitsBut page st → FitsBut page (split_loop d order page st)
unfolding split_loop
split_loop-FitsBut zero order page st f = f
split_loop-FitsBut (suc d) order page st f =
    split_loop-FitsBut d order page _ (put-FitsBut page (page + 2 ^ (order + d)) (order + d) st f)

-- What splitting puts back is the block without its first part.
split_loop-free :
    (q d order page : ℕ) (st : Pages)
    → order + d ≤ 10
    → free_at q (split_loop d order page st) + in_block q order page
      ≡ free_at q st + in_block q (order + d) page
unfolding split_loop
split_loop-free q zero order page st h = ap (λ o. free_at q st + in_block q o page) (omega arith)
split_loop-free q (suc d) order page st h =
    let buddy = page + 2 ^ (order + d) in
    let rest = split_loop-free q d order page (put_free buddy (order + d) st) (omega (arith, h)) in
    let put = free_at-put q buddy (order + d) st (omega (arith, h)) in
    let halves = in_block-halves q (order + d) page in
    let up : order + d + 1 ≡ order + suc d = omega arith in
    let e = ap (λ o. in_block q o page) up in omega (arith, rest, put, halves, e)

-- How an allocation ends: with a block, or with nothing, if there is no free one that is large enough
pub data Allocated (order : ℕ) (st : Pages) : Option ℕ × Pages → Type 0 where
  allocated :
      {page : ℕ} {st' : Pages}
      → ((q : ℕ) → free_at q st' + in_block q order page ≡ free_at q st)
      → Allocated order st (some page, st')
  exhausted : ((o : ℕ) → order ≤ o → o ≤ 10 → st.free_list o ≡ []) → Allocated order st (none, st)

pub List-cases : (l : List ℕ) → (l ≡ []) ⊎ ((x : ℕ) × (xs : List ℕ) × (l ≡ x ∷ xs))
List-cases [] = inl refl
List-cases (x ∷ xs) = inr (x, xs, refl)

taken-free :
    (q order cur page : ℕ) (pages : List ℕ) (st : Pages)
    → order ≤ cur
    → cur ≤ 10
    → st.free_list cur ≡ page ∷ pages
    → free_at q (clear_property page (split_loop (cur - order) order page (pop_free cur pages st)))
        + in_block q order page
      ≡ free_at q st
unfolding clear_property
taken-free q order cur page pages st h g e =
    let back : order + (cur - order) ≡ cur = omega (arith, h) in
    let split =
      split_loop-free q (cur - order) order page (pop_free cur pages st) (omega (arith, h, g)) in
    let same = ap (λ o. in_block q o page) back in
    let popped = free_at-pop q page cur pages st g e in omega (arith, split, same, popped)

pub alloc_loop-Allocated :
    (left order cur : ℕ) (st : Pages)
    → Fits st
    → order ≤ cur
    → cur + left ≡ 11
    → ((o : ℕ) → order ≤ o → o < cur → st.free_list o ≡ [])
    → Fits (alloc_loop left order cur st).1 × Allocated order st (alloc_loop left order cur st)
unfolding alloc_loop
alloc_loop-Allocated zero order cur st f h e empty =
    (f, exhausted λ o low high. empty o low (omega (arith, high, e)))
alloc_loop-Allocated (suc left) order cur st f h e empty = elim (List-cases (st.free_list cur)) [
  | inl none_here ↦
      rw (alloc_loop, none_here)
        (alloc_loop-Allocated left order (cur + 1) st f (omega (arith, h)) (omega (arith, e))
          λ o low high. elim (Bool-cases (o == cur)) [
            | inl here ↦
                let same : o ≡ cur = ground arith in ap (λ x. st.free_list x) same ∙ none_here
            | inr below ↦ empty o low (ground (arith, high))
          ])
  | inr (page, pages, some_here) ↦
      rw (alloc_loop, some_here)
        (
          clear-Fits page _ (
              split_loop-FitsBut (cur - order) order page _
                (pop_free-FitsBut page cur pages st some_here f)),
          allocated λ q. taken-free q order cur page pages st h (omega (arith, e)) some_here,
        )
]

-- When every flagged page heads a block in the list of its order and the counters are the
-- lengths, for an order up to MAX_ORDER: buddy_alloc_pages_sub ends, lists, flags and counters
-- fit again, and either it returns a page, and each page of the block of that order from there
-- on lies in one free block less, and every other in as many as before, or it returns NULL with
-- nothing changed, and all lists from that order on are empty.
pub alloc_pages_sub-Allocated :
    (order : ℕ) (st : Pages)
    → Fits st
    → order ≤ 10
    → Ends (λ r. Fits r.1 × Allocated order st r) (buddy_alloc_pages_sub order st)
unfolding buddy_alloc_pages_sub
alloc_pages_sub-Allocated order st f h =
    let small : leb order 10 ≡ true = ground arith in
    let r =
      alloc_loop-Allocated (11 - order) order order st f (omega arith) (omega (arith, h))
        (λ o low high. absurd (omega (arith, low, high))) in
    rw small (ends r)
