-- ===== src/Rand.antt =====
-- libs/rand.c: the random numbers, with the static variable `next` passed along.
use os_edf.Prelude.{ℕ, ◌+◌, ◌*◌, ◌/◌, ◌%◌, ◌^◌, ◌≤◌, arith}
use native.Mathlib.Nat.{mod-lt}

abbrev pub rand_max : ℕ
rand_max = 2147483647

-- The result and the new `next`; do_div gives the remainder.
pub rand : ℕ → ℕ × ℕ
rand next =
    let next' = (next * 0x5DEECE66D + 0xB) % 2 ^ 48 in
    let result = next' / 2 ^ 12 in (result % (rand_max + 1), next')

-- srand
pub srand : ℕ → ℕ
srand seed = seed

-- The range that the comment promises
pub rand-range : (next : ℕ) → (rand next).0 ≤ rand_max
unfolding rand
rand-range next =
    let less =
      mod-lt ((next * 0x5DEECE66D + 0xB) % 2 ^ 48 / 2 ^ 12) {m = rand_max + 1} (omega arith) in
    omega (arith, less)
