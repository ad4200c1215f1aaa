-- ===== src/CString/Search.antt =====
-- Searching a string, and copying one.
use os_edf.Prelude.{
  ℕ, zero, suc, ◌+◌, ◌-◌, ◌≤◌, ◌<◌, ◌≡◌, refl, sym, ap, ◌∙◌, ◌⊎◌, List, [], ◌∷◌, Bool, true, false,
  arith, ltb, leb, ◌==◌, ◌&&◌, if◌then◌else◌, length, get_or,
}
use os_edf.Prelude.Run.{ok}
use os_edf.CString.{Memory, write, strchr, strfind, strcpy, strncpy, memcpy, rep_movsb}
use os_edf.CString.Copy.{memcpy-movsb}
use os_edf.CString.Compare.{Holds}

-- The characters in front of the first c.
pub before : ℕ → List ℕ → List ℕ
before c [] = []
before c (x ∷ xs) = if x == c then [] else x ∷ before c xs

pub has : ℕ → List ℕ → Bool
has c [] = false
has c (x ∷ xs) = if x == c then true else has c xs

pub strfind-before :
    (fuel : ℕ) (m : Memory) (s c : ℕ) (xs : List ℕ)
    → Holds m s xs
    → length xs < fuel
    → strfind fuel m s c ≡ ok (s + length (before c xs))
unfolding strfind before
strfind-before zero m s c xs h f = absurd (omega arith)
strfind-before (suc fuel) m s c [] h f = ground arith
strfind-before (suc fuel) m s c (x ∷ xs) h f =
    ground (arith, strfind-before fuel m (s + 1) c xs h.2)

-- On a string, with fuel above its length, strchr returns the address of the first character
-- equal to c, and NULL if the string has none, also for c = 0.
pub strchr-before :
    (fuel : ℕ) (m : Memory) (s c : ℕ) (xs : List ℕ)
    → Holds m s xs
    → length xs < fuel
    → strchr fuel m s c ≡ ok (if has c xs then s + length (before c xs) else 0)
unfolding strchr before has
strchr-before zero m s c xs h f = absurd (omega arith)
strchr-before (suc fuel) m s c [] h f = ground arith
strchr-before (suc fuel) m s c (x ∷ xs) h f = ground (arith, strchr-before fuel m (s + 1) c xs h.2)

Holds-write :
    (m : Memory) (s p v : ℕ) (xs : List ℕ)
    → Holds m s xs
    → (p < s) ⊎ (s + length xs < p)
    → Holds (write m p v) s xs
Holds-write m s p v [] h o = ground arith
Holds-write m s p v (x ∷ xs) h o =
    (ground arith, h.1, Holds-write m (s + 1) p v xs h.2 (omega arith))

strcpy-movsb :
    (fuel : ℕ) (m : Memory) (d s : ℕ) (xs : List ℕ)
    → Holds m s xs
    → length xs < fuel
    → (d < s) ⊎ (s + length xs < d)
    → strcpy fuel m d s ≡ ok (rep_movsb m d s (length xs + 1))
unfolding strcpy rep_movsb
strcpy-movsb zero m d s xs h f o = absurd (omega arith)
strcpy-movsb (suc fuel) m d s [] h f o = ground arith
strcpy-movsb (suc fuel) m d s (x ∷ xs) h f o =
    let kept = Holds-write m (s + 1) d (m s) xs h.2 (omega arith) in
    let more : suc (length xs) + 1 ≡ suc (length xs + 1) = omega arith in
    rw more (
      ground (
        arith,
        strcpy-movsb fuel (write m d (m s)) (d + 1) (s + 1) xs kept (omega arith) (omega arith),
      ))

-- If a string stands at the source, the destination starts before it or after its NUL, and the
-- fuel is above its length, strcpy returns, and what it leaves is what memcpy of the length and
-- one more byte leaves, both as the assembly of x86.h that they are.
pub strcpy-memcpy :
    (fuel : ℕ) (m : Memory) (d s : ℕ) (xs : List ℕ)
    → Holds m s xs
    → length xs < fuel
    → (d < s) ⊎ (s + length xs < d)
    → strcpy fuel m d s ≡ ok (memcpy m d s (length xs + 1))
strcpy-memcpy fuel m d s xs h f o =
    strcpy-movsb fuel m d s xs h f o
    ∙ ap (λ (x : Memory). ok x) (sym (memcpy-movsb m d s (length xs + 1) (omega (arith, o))))

get_or_cons :
    (x : ℕ) (xs : List ℕ) (d q : ℕ) → d < q → get_or (x ∷ xs) (q - d) 0 ≡ get_or xs (q - (d + 1)) 0
unfolding get_or
get_or_cons x xs d q h = let one : q - d ≡ suc (q - (d + 1)) = omega arith in rw one refl

get_or_nil : (i : ℕ) → get_or {A = ℕ} [] i 0 ≡ 0
unfolding get_or
get_or_nil i = refl

get_or_head : (x : ℕ) (xs : List ℕ) (d q : ℕ) → d ≡ q → get_or (x ∷ xs) (q - d) 0 ≡ x
unfolding get_or
get_or_head x xs d q h = let none : q - d ≡ 0 = omega arith in rw none refl

-- If a string stands at the source and the destination's len bytes do not overlap it, strncpy
-- leaves at the destination the first len characters of the string, padded with zeros to len,
-- and every other byte as it was.
pub strncpy-pads :
    (len : ℕ) (m : Memory) (d s : ℕ) (xs : List ℕ)
    → Holds m s xs
    → (d + len ≤ s) ⊎ (s + length xs < d)
    → (q : ℕ)
    → strncpy len m d s q ≡ (if leb d q && ltb q (d + len) then get_or xs (q - d) 0 else m q)
unfolding strncpy
strncpy-pads zero m d s xs h o q = ground arith
strncpy-pads (suc len) m d s [] h o q =
    let kept = Holds-write m s d (m s) [] h (omega arith) in
    ground (
      arith,
      strncpy-pads len (write m d (m s)) (d + 1) s [] kept (omega arith) q,
      get_or_nil (q - d),
      get_or_nil (q - (d + 1)),
    )
strncpy-pads (suc len) m d s (x ∷ xs) h o q =
    let kept = Holds-write m (s + 1) d (m s) xs h.2 (omega arith) in
    let rest = strncpy-pads len (write m d (m s)) (d + 1) (s + 1) xs kept (omega arith) q in
    ground (arith, rest, get_or_cons x xs d q, get_or_head x xs d q)
