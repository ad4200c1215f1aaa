-- ===== src/Buddy/Merge.antt =====
-- buddy_free_pages_sub gives exactly the pages of the block back to the free lists.
use os_edf.Prelude.{
  ℕ, zero, suc, ◌+◌, ◌-◌, ◌*◌, ◌/◌, ◌%◌, ◌^◌, ◌≤◌, ◌<◌, ◌≡◌, refl, ap, subst, inl, inr, Bool,
  Bool-cases, true, false, ◌==◌, arith,
}
use native.Mathlib.Nat.{le-div_iff_mul-le}
use os_edf.Prelude.Run.{Ends, ends, Ends-bind}
use os_edf.Buddy.{
  Pages, set_at, take_buddy, page_is_buddy, page2idx, flip_bit, clear_bit, merge_loop, clear_pages,
  buddy_free_pages_sub,
}
use os_edf.Buddy.Cover.{two_power_pos, in_block, in_block-halves, free_count, listed}
use os_edf.Buddy.State.{Fits, free_at, put-Fits, free_at-put, take_buddy-Fits, free_at-take_buddy}

-- A block and its buddy are the block of the next order.
pub in_block-buddies :
    (q order base idx : ℕ)
    → in_block q (order + 1) (base + clear_bit order idx)
      ≡ in_block q order (base + idx) + in_block q order (base + flip_bit order idx)
in_block-buddies q order base idx = elim (Bool-cases ((idx / 2 ^ order) % 2 == 0)) [
  | inl left ↦
      let halves = in_block-halves q order (base + idx) in
      let there : base + idx + 2 ^ order ≡ base + (idx + 2 ^ order) = omega arith in
      let e = ap (λ p. in_block q order p) there in rw left (omega (arith, halves, e))
  | inr right ↦
      let some_part : 1 ≤ idx / 2 ^ order = ground arith in
      let large : 1 * 2 ^ order ≤ idx = (le-div_iff_mul-le (two_power_pos order)).0 some_part in
      let halves = in_block-halves q order (base + (idx - 2 ^ order)) in
      let there : base + (idx - 2 ^ order) + 2 ^ order ≡ base + idx = omega (arith, large) in
      let e = ap (λ p. in_block q order p) there in rw right (omega (arith, halves, e))
]

-- A free buddy stands in the list of its order.
pub page_is_buddy-listed :
    (page order zone : ℕ) (st : Pages)
    → Fits st
    → page_is_buddy page order zone st ≡ true
    → listed page (st.free_list order) ≡ true
unfolding page_is_buddy
page_is_buddy-listed page order zone st f h =
    let flag : st.has_property page ≡ true = ground (arith, h) in
    let same : st.property page ≡ order = ground (arith, h) in
    subst (λ o. listed page (st.free_list o) ≡ true) same (f.flagged page flag)

merge_loop-free :
    (left zone idx order : ℕ) (st : Pages)
    → Fits st
    → order + left ≡ 10
    → Fits (merge_loop left zone idx order st)
      × ((q : ℕ)
          → free_at q (merge_loop left zone idx order st)
            ≡ free_at q st + in_block q order (st.mem_base zone + idx))
unfolding merge_loop take_buddy
merge_loop-free zero zone idx order st f h = (
  put-Fits (st.mem_base zone + idx) order st f,
  λ q. free_at-put q (st.mem_base zone + idx) order st (omega (arith, h)),
)
merge_loop-free (suc left) zone idx order st f h =
    let buddy = st.mem_base zone + flip_bit order idx in
    elim (Bool-cases (page_is_buddy buddy order zone st)) [
      | inl free ↦
          let m = page_is_buddy-listed buddy order zone st f free in
          let f' = take_buddy-Fits buddy order st m f in
          let (fits, counts) =
            merge_loop-free left zone (clear_bit order idx) (order + 1) (take_buddy buddy order st)
              f' (omega (arith, h)) in
          rw free (
            fits,
            λ q.
                let taken = free_at-take_buddy q buddy order st (omega (arith, h)) m in
                let blocks = in_block-buddies q order (st.mem_base zone) idx in
                let rest = counts q in omega (arith, rest, taken, blocks),
          )
      | inr busy ↦ rw busy (
        put-Fits (st.mem_base zone + idx) order st f,
        λ q. free_at-put q (st.mem_base zone + idx) order st (omega (arith, h)),
      )
    ]

-- The n pages from p on are in use.
abbrev pub InUse : ℕ → ℕ → Pages → Type 0
InUse p n st = (q : ℕ) → p ≤ q → q < p + n → (st.reserved q ≡ false) × (st.has_property q ≡ false)

pub set_at-false : (p q : ℕ) (f : ℕ → Bool) → f q ≡ false → set_at p false f q ≡ false
set_at-false p q f h = elim (Bool-cases (p == q)) [
  | inl here ↦ rw here refl
  | inr there ↦ rw there h
]

clear_pages-Fits :
    (n p : ℕ) (st : Pages)
    → Fits st
    → InUse p n st
    → Ends
        (λ st'. Fits st' × (st'.mem_base ≡ st.mem_base) × (st'.free_list ≡ st.free_list))
        (clear_pages n p st)
unfolding clear_pages
clear_pages-Fits zero p st f used = ends (f, refl, refl)
clear_pages-Fits (suc n) p st f used =
    let (r, h) = used p (omega arith) (omega arith) in
    let now : Pages = record st {
      reserved = set_at p false st.reserved;
      has_property = set_at p false st.has_property;
      ref = set_at p 0 st.ref;
    } in
    let f' : Fits now = record {
      flagged = λ q g. elim (Bool-cases (p == q)) [
        | inl here ↦ absurd (let g' = rw here at g in cc)
        | inr there ↦ f.flagged q (rw there at g)
      ];
      counted = f.counted;
    } in
    rw (r, h)
      (clear_pages-Fits n (p + 1) now f' λ q low high.
        let old = used q (omega (arith, low)) (omega (arith, high)) in
        (set_at-false p q st.reserved old.0, set_at-false p q st.has_property old.1))

-- When every flagged page heads a block in the list of its order and the counters are the
-- lengths, for an order up to MAX_ORDER, and a block aligned in its zone whose pages are neither
-- reserved nor flagged: buddy_free_pages_sub ends, lists, flags and counters fit again, and each
-- page lies in one free block more if it is of the freed block, and else in as many as before,
-- however far buddies merge.
pub free_pages_sub-Freed :
    (base order : ℕ) (st : Pages)
    → Fits st
    → order ≤ 10
    → st.mem_base (st.zone_num base) ≤ base
    → page2idx base st % 2 ^ order ≡ 0
    → InUse base (2 ^ order) st
    → Ends
        (λ st'. Fits st' × ((q : ℕ) → free_at q st' ≡ free_at q st + in_block q order base))
        (buddy_free_pages_sub base order st)
unfolding buddy_free_pages_sub page2idx
free_pages_sub-Freed base order st f h inside aligned used =
    let start = st.mem_base (st.zone_num base) in
    let e : ((base - start) % 2 ^ order == 0) ≡ true = ground (arith, aligned) in
    rw e (
      Ends-bind (clear_pages-Fits (2 ^ order) base st f used) λ st' (f', bases, lists).
        let m =
          merge_loop-free (10 - order) (st.zone_num base) (base - start) order st' f'
            (omega (arith, h)) in
        ends (
          m.0,
          λ q.
              let same_base : st'.mem_base (st.zone_num base) ≡ start =
                ap (λ b. b (st.zone_num base)) bases in
              let there : st'.mem_base (st.zone_num base) + (base - start) ≡ base =
                omega (arith, same_base, inside) in
              let counts = m.1 q in
              let e₁ = ap (λ p. in_block q order p) there in
              let e₂ = ap (λ l. free_count q 11 l) lists in omega (arith, counts, e₁, e₂),
        ))
