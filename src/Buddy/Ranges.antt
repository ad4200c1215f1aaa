-- ===== src/Buddy/Ranges.antt =====
-- buddy_free_pages frees any range of pages as blocks of its parts.
use os_edf.Prelude.{
  ℕ, zero, suc, ◌+◌, ◌-◌, ◌*◌, ◌^◌, ◌≤◌, ◌<◌, ◌≡◌, sym, ap, subst, ◌∙◌, inl, inr, Bool-cases, true,
  ◌&&◌, ltb, leb, ◌==◌, if◌then◌else◌, arith,
}
use native.Mathlib.Nat.{two-pow-succ, pow-le-pow_right, mul-add, add-mul}
use os_edf.Prelude.Run.{Ends, ends, Ends-map, Ends-bind, Ends-if}
use os_edf.Buddy.{Pages, lower_order, falling_loop}
use os_edf.Buddy.Cover.{in_block, two_power_pos}
use os_edf.Buddy.State.{free_at}
use os_edf.Buddy.Homes.{Usable, Ready, Sound}
use os_edf.Buddy.Release.{Frame, Frame-refl, Frame-trans, Aligned, free_pages_sub-Sound}

-- 1 for the n pages from p on
abbrev pub in_range : ℕ → ℕ → ℕ → ℕ
in_range q p n = if leb p q && ltb q (p + n) then 1 else 0

-- None of them is free, and they are of the zone.
abbrev pub ReadyRange : ℕ → ℕ → ℕ → Pages → Type 0
ReadyRange zone p n st = (q : ℕ) → in_range q p n ≡ 1 → Usable zone q st × (free_at q st ≡ 0)

pub record Freed (base n : ℕ) (st st' : Pages) : Type 0 where
  pub sound : Sound st'
  pub frame : Frame st st'
  pub counts : (q : ℕ) → free_at q st' ≡ free_at q st + in_range q base n

pub in_range-split :
    (q p m n : ℕ) → m ≤ n → in_range q p n ≡ in_range q p m + in_range q (p + m) (n - m)
in_range-split q p m n h = ground (arith, h)

in_range-empty : (q p : ℕ) → in_range q p 0 ≡ 0
in_range-empty q p = ground arith

pub Ready-part :
    (zone o p n : ℕ) (st : Pages) → 2 ^ o ≤ n → ReadyRange zone p n st → Ready zone o p st
Ready-part zone o p n st h ready q inside = ready q (ground (arith, inside, h))

-- The rest of the range is ready after its first block is freed.
pub Freed-rest :
    (zone o p n : ℕ) (st st' : Pages)
    → 2 ^ o ≤ n
    → Frame st st'
    → ((q : ℕ) → free_at q st' ≡ free_at q st + in_block q o p)
    → ReadyRange zone p n st
    → ReadyRange zone (p + 2 ^ o) (n - 2 ^ o) st'
Freed-rest zone o p n st st' h f counts ready q inside =
    let r = ready q (ground (arith, inside, h)) in
    let c = counts q in
    let apart : in_block q o p ≡ 0 = ground (arith, inside) in
    ((f.keeps q r.0.0, ap (λ z. z q) f.zone ∙ r.0.1), omega (arith, c, apart, r.1))

Freed-then :
    (o p n : ℕ) (st st' st'' : Pages)
    → 2 ^ o ≤ n
    → Frame st st'
    → ((q : ℕ) → free_at q st' ≡ free_at q st + in_block q o p)
    → Freed (p + 2 ^ o) (n - 2 ^ o) st' st''
    → Freed p n st st''
Freed-then o p n st st' st'' h f counts g = record {
  sound = g.sound;
  frame = Frame-trans f g.frame;
  counts = λ q.
      let c = counts q in
      let d = g.counts q in let s = in_range-split q p (2 ^ o) n h in omega (arith, c, d, s);
}

lower_order_le : (order n : ℕ) → lower_order order n ≤ order
unfolding lower_order
lower_order_le zero n = omega arith
lower_order_le (suc order) n = let rest = lower_order_le order n in ground (arith, rest)

lower_order-fits : (order n : ℕ) → 1 ≤ n → 2 ^ lower_order order n ≤ n
unfolding lower_order
lower_order-fits zero n h = omega (arith, h)
lower_order-fits (suc order) n h =
    let rest = lower_order-fits order n h in
    elim (Bool-cases (ltb n (2 ^ suc order))) [
      | inl smaller ↦ rw smaller rest
      | inr fits ↦ rw fits (ground arith)
    ]

pub small_order : (o n : ℕ) → 2 ^ o ≤ n → n < 2048 → o ≤ 10
small_order o n h g = elim (Bool-cases (leb o 10)) [
  | inl small ↦ ground arith
  | inr large ↦
      let bound = pow-le-pow_right {n = 2} (omega arith) {i = 11} {j = o} (ground arith) in
      absurd (omega (arith, bound, h, g))
]

-- A block of an order is aligned in the lower ones, and a block behind it is, too.
double_step : (j m : ℕ) → j * (m + m) ≡ (j + j) * m
double_step j m = omega (arith, mul-add j m m, add-mul j j m)

Aligned-below : (zone o d p : ℕ) (st : Pages) → Aligned zone (o + d) p st → Aligned zone o p st
Aligned-below zone o zero p st (k, e) =
    let same : o + 0 ≡ o = omega arith in (k, e ∙ ap (λ x. st.mem_base zone + k * 2 ^ x) same)
Aligned-below zone o (suc d) p st (k, e) =
    let up : o + suc d ≡ suc (o + d) = omega arith in
    let twice = ap (λ (x : ℕ). 2 ^ x) up ∙ two-pow-succ (o + d) in
    Aligned-below zone o d p st (
      k + k,
      e
          ∙ ap (λ x. st.mem_base zone + k * x) twice
          ∙ ap (λ x. st.mem_base zone + x) (double_step k (2 ^ (o + d))),
    )

pub Aligned-next :
    (zone o p : ℕ) (st st' : Pages)
    → st'.mem_base ≡ st.mem_base
    → Aligned zone o p st
    → Aligned zone o (p + 2 ^ o) st'
Aligned-next zone o p st st' b (k, e) =
    let base : st'.mem_base zone ≡ st.mem_base zone = ap (λ f. f zone) b in
    let more : (k + 1) * 2 ^ o ≡ k * 2 ^ o + 2 ^ o = add-mul k 1 (2 ^ o) ∙ omega arith in
    (k + 1, omega (arith, e, base, more))

-- Behind an odd block the next order is aligned.
pub Aligned-up :
    (zone o p : ℕ) (st : Pages) (j : ℕ)
    → p ≡ st.mem_base zone + (j + j) * 2 ^ o
    → Aligned zone (o + 1) p st
Aligned-up zone o p st j e =
    let up : o + 1 ≡ suc o = omega arith in
    let twice = ap (λ (x : ℕ). 2 ^ x) up ∙ two-pow-succ o in
    (
      j,
      e
          ∙ ap (λ x. st.mem_base zone + x)
              (sym (double_step j (2 ^ o)) ∙ ap (λ x. j * x) (sym twice)),
    )

done : (base n : ℕ) (st : Pages) → Sound st → n ≡ 0 → Freed base n st st
done base n st s e = record {
  sound = s;
  frame = Frame-refl st;
  counts = λ q. let none_in : in_range q base n ≡ 0 = ground arith in omega (arith, none_in);
}

pub falling_loop-Freed :
    (left zone order base n : ℕ) (st : Pages)
    → Sound st
    → n ≤ left
    → n < 2048
    → Aligned zone order base st
    → ReadyRange zone base n st
    → Ends (Freed base n st) (falling_loop left order base n st)
unfolding falling_loop
falling_loop-Freed zero zone order base n st s fuel small al ready =
    let none_left : n ≡ 0 = omega (arith, fuel) in
    let e : (n == 0) ≡ true = ground (arith, none_left) in rw e (ends (done base n st s none_left))
falling_loop-Freed (suc left) zone order base n st s fuel small al ready =
    Ends-if (n == 0) (λ e. ends (done base n st s (ground arith)))
      λ e.
        let some_left : 1 ≤ n = ground arith in
        let o = lower_order order n in
        let fits = lower_order-fits order n some_left in
        let below = lower_order_le order n in
        let some_pages = two_power_pos o in
        let sum : o + (order - o) ≡ order = omega (arith, below) in
        let al' =
          Aligned-below zone o (order - o) base st
            (subst (λ x. Aligned zone x base st) (sym sum) al) in
        Ends-bind
          (free_pages_sub-Sound zone base o st s (small_order o n fits small) al'
            (Ready-part zone o base n st fits ready))
          λ st' ((s', f), counts).
            Ends-map
              (falling_loop-Freed left zone o (base + 2 ^ o) (n - 2 ^ o) st' s'
                (omega (arith, fuel, fits, some_pages)) (omega (arith, small))
                (Aligned-next zone o base st st' f.base al')
                (Freed-rest zone o base n st st' fits f counts ready))
              λ st'' g. Freed-then o base n st st' st'' fits f counts g
