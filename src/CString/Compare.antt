-- ===== src/CString/Compare.antt =====
-- Lengths and comparisons of the strings that the memory holds.
use os_edf.Prelude.{
  ℕ, zero, suc, ◌+◌, ◌<◌, ◌≡◌, ◌≢◌, refl, ◌↔◌, List, [], ◌∷◌, arith, ◌==◌, ltb, if◌then◌else◌, ◌∙◌,
  length,
}
use Prim.Native.Nat.{min}
use os_edf.Prelude.Int.{ℤ, pos, negsuc}
use os_edf.Prelude.Run.{ok}
use os_edf.CString.{Memory, strlen_loop, strlen, strnlen_loop, strnlen, strcmp, memcmp}

-- At `s` stand the characters `xs` and a NUL.
abbrev pub Holds : Memory → ℕ → List ℕ → Type 0
Holds m s [] = m s ≡ 0
Holds m s (x ∷ xs) = (m s ≡ x) × (x ≢ 0) × Holds m (s + 1) xs

strlen_loop-length :
    (fuel : ℕ) (m : Memory) (s cnt : ℕ) (xs : List ℕ)
    → Holds m s xs
    → length xs < fuel
    → strlen_loop fuel m s cnt ≡ ok (cnt + length xs)
unfolding strlen_loop
strlen_loop-length zero m s cnt xs h f = absurd (omega arith)
strlen_loop-length (suc fuel) m s cnt [] h f = ground arith
strlen_loop-length (suc fuel) m s cnt (x ∷ xs) h f =
    ground (arith, strlen_loop-length fuel m (s + 1) (cnt + 1) xs h.2)

-- On a string, with fuel above its length, strlen returns the length.
pub strlen-length :
    (fuel : ℕ) (m : Memory) (s : ℕ) (xs : List ℕ)
    → Holds m s xs
    → length xs < fuel
    → strlen fuel m s ≡ ok (length xs)
unfolding strlen
strlen-length fuel m s xs h f = strlen_loop-length fuel m s 0 xs h f ∙ ground arith

strnlen_loop-min :
    (left : ℕ) (m : Memory) (s cnt : ℕ) (xs : List ℕ)
    → Holds m s xs
    → strnlen_loop left m s cnt ≡ cnt + min left (length xs)
unfolding strnlen_loop
strnlen_loop-min zero m s cnt xs h = omega arith
strnlen_loop-min (suc left) m s cnt [] h = ground arith
strnlen_loop-min (suc left) m s cnt (x ∷ xs) h =
    ground (arith, strnlen_loop-min left m (s + 1) (cnt + 1) xs h.2)

pub strnlen-min :
    (m : Memory) (s len : ℕ) (xs : List ℕ) → Holds m s xs → strnlen m s len ≡ min len (length xs)
unfolding strnlen
strnlen-min m s len xs h = strnlen_loop-min len m s 0 xs h ∙ ground arith

abbrev order_of : ℕ → ℕ → ℤ
order_of x y = if ltb x y then negsuc 0 else pos 1

-- The order of the first characters in which two strings differ, the end counting as 0.
difference : List ℕ → List ℕ → ℤ
difference [] [] = pos 0
difference [] (y ∷ ys) = order_of 0 y
difference (x ∷ xs) [] = order_of x 0
difference (x ∷ xs) (y ∷ ys) = if x == y then difference xs ys else order_of x y

strcmp-difference :
    (fuel : ℕ) (m : Memory) (s t : ℕ) (xs ys : List ℕ)
    → Holds m s xs
    → Holds m t ys
    → length xs < fuel
    → strcmp fuel m s t ≡ ok (difference xs ys)
unfolding strcmp difference
strcmp-difference zero m s t xs ys h g f = absurd (omega arith)
strcmp-difference (suc fuel) m s t [] [] h g f = ground arith
strcmp-difference (suc fuel) m s t [] (y ∷ ys) h g f = ground arith
strcmp-difference (suc fuel) m s t (x ∷ xs) [] h g f = ground arith
strcmp-difference (suc fuel) m s t (x ∷ xs) (y ∷ ys) h g f =
    ground (arith, strcmp-difference fuel m (s + 1) (t + 1) xs ys h.2 g.2)

abbrev Chars : List ℕ → Type 0
Chars [] = Unit
Chars (x ∷ xs) = (x ≢ 0) × Chars xs

Holds-Chars : (m : Memory) (s : ℕ) (xs : List ℕ) → Holds m s xs → Chars xs
Holds-Chars m s [] h = tt
Holds-Chars m s (x ∷ xs) h = (h.1, Holds-Chars m (s + 1) xs h.2)

difference-zero : (xs ys : List ℕ) → Chars xs → Chars ys → difference xs ys ≡ pos 0 → xs ≡ ys
unfolding difference
difference-zero [] [] c d e = refl
difference-zero [] (y ∷ ys) c d e = absurd (ground arith)
difference-zero (x ∷ xs) [] c d e = absurd (ground arith)
difference-zero (x ∷ xs) (y ∷ ys) c d e = ground (arith, difference-zero xs ys c.1 d.1)

difference_self : (xs : List ℕ) → difference xs xs ≡ pos 0
unfolding difference
difference_self [] = refl
difference_self (x ∷ xs) = ground (arith, difference_self xs)

-- On two strings, with fuel above the length of the first, strcmp returns, and its result is 0
-- exactly if the strings are equal.
pub strcmp-eq :
    (fuel : ℕ) (m : Memory) (s t : ℕ) (xs ys : List ℕ)
    → Holds m s xs
    → Holds m t ys
    → length xs < fuel
    → (r : ℤ) × (strcmp fuel m s t ≡ ok r) × ((r ≡ pos 0) ↔ (xs ≡ ys))
strcmp-eq fuel m s t xs ys h g f = (
  difference xs ys,
  strcmp-difference fuel m s t xs ys h g f,
  (
    difference-zero xs ys (Holds-Chars m s xs h) (Holds-Chars m t ys g),
    λ e. rw e (difference_self ys),
  ),
)

-- The bytes of two objects agree.
abbrev pub Agree : Memory → ℕ → ℕ → ℕ → Type 0
Agree m s t n = (i : ℕ) → i < n → m (s + i) ≡ m (t + i)

memcmp-Agree : (n : ℕ) (m : Memory) (s t : ℕ) → memcmp m s t n ≡ pos 0 → Agree m s t n
unfolding memcmp
memcmp-Agree zero m s t e i h = absurd (omega arith)
memcmp-Agree (suc n) m s t e zero h = ground arith
memcmp-Agree (suc n) m s t e (suc i) h =
    ground (arith, memcmp-Agree n m (s + 1) (t + 1) (ground arith) i (omega arith))

memcmp-zero : (n : ℕ) (m : Memory) (s t : ℕ) → Agree m s t n → memcmp m s t n ≡ pos 0
unfolding memcmp
memcmp-zero zero m s t a = refl
memcmp-zero (suc n) m s t a =
    let first : m s ≡ m t = let here = a 0 (omega arith) in ground arith in
    ground (
      arith,
      memcmp-zero n m (s + 1) (t + 1) λ i h. let there = a (suc i) (omega arith) in ground arith,
    )

pub memcmp-eq : (n : ℕ) (m : Memory) (s t : ℕ) → (memcmp m s t n ≡ pos 0) ↔ Agree m s t n
memcmp-eq n m s t = (memcmp-Agree n m s t, memcmp-zero n m s t)
