-- ===== src/Buddy/Cover.antt =====
-- How often a page lies in the blocks of the free lists.
use os_edf.Prelude.{
  ℕ, zero, suc, ◌+◌, ◌^◌, ◌≤◌, ◌<◌, ◌≡◌, ◌≢◌, refl, sym, ap, ◌∙◌, ◌⊎◌, inl, inr, Bool, Bool-cases,
  true, false, ◌&&◌, ◌||◌, List, [], ◌∷◌, ltb, leb, ◌==◌, if◌then◌else◌, length, arith,
}
use native.Mathlib.Nat.{two-pow-succ}
use os_edf.Buddy.{set_at, remove_page}

-- 1 for a page q of the block of the order o at p, and else 0
abbrev pub in_block : ℕ → ℕ → ℕ → ℕ
in_block q o p = if leb p q && ltb q (p + 2 ^ o) then 1 else 0

unfoldable pub in_list : ℕ → ℕ → List ℕ → ℕ
in_list q o [] = 0
in_list q o (p ∷ ps) = in_block q o p + in_list q o ps

-- In all lists of the orders below n
unfoldable pub free_count : ℕ → ℕ → (ℕ → List ℕ) → ℕ
free_count q zero free = 0
free_count q (suc o) free = free_count q o free + in_list q o (free o)

pub in_list-cons :
    (q o p : ℕ) (ps : List ℕ) → in_list q o (p ∷ ps) ≡ in_block q o p + in_list q o ps
unfolding in_list
in_list-cons q o p ps = refl

-- Only the list of the order counts that is written.
free_count-above :
    (q n o : ℕ) (l : List ℕ) (free : ℕ → List ℕ)
    → n ≤ o
    → free_count q n (set_at o l free) ≡ free_count q n free
unfolding free_count
free_count-above q zero o l free h = refl
free_count-above q (suc n) o l free h =
    let other : (o == n) ≡ false = ground arith in
    rw other (omega (arith, free_count-above q n o l free (omega arith)))

pub free_count-set :
    (q n o : ℕ) (l : List ℕ) (free : ℕ → List ℕ)
    → o < n
    → free_count q n (set_at o l free) + in_list q o (free o) ≡ free_count q n free + in_list q o l
unfolding free_count
free_count-set q zero o l free h = absurd (omega arith)
free_count-set q (suc n) o l free h = elim (Bool-cases (o == n)) [
  | inl same ↦
      let e : o ≡ n = ground arith in
      let rest = free_count-above q n o l free (omega (arith, e)) in
      let e' = ap (λ x. in_list q x (free o)) e in
      let e'' = ap (λ x. in_list q x l) e in
      let f = ap (λ x. in_list q n (free x)) e in rw same (omega (arith, rest, e', e'', f))
  | inr other ↦
      let rest = free_count-set q n o l free (ground arith) in rw other (omega (arith, rest))
]

-- Two halves are a block.
pub in_block-halves : (q o p : ℕ) → in_block q (o + 1) p ≡ in_block q o p + in_block q o (p + 2 ^ o)
in_block-halves q o p =
    let double : 2 ^ (o + 1) ≡ 2 ^ o + 2 ^ o =
      ap (λ (x : ℕ). 2 ^ x) (omega arith) ∙ two-pow-succ o in
    ground (arith, double)

unfoldable pub listed : ℕ → List ℕ → Bool
listed p [] = false
listed p (x ∷ xs) = (p == x) || listed p xs

pub in_list-remove :
    (q o p : ℕ) (ps : List ℕ)
    → listed p ps ≡ true
    → in_list q o (remove_page p ps) + in_block q o p ≡ in_list q o ps
unfolding in_list remove_page listed
in_list-remove q o p [] m = absurd (cc)
in_list-remove q o p (x ∷ xs) m = elim (Bool-cases (p == x)) [
  | inl here ↦
      let e : p ≡ x = ground arith in
      rw here (ap (λ y. in_list q o xs + in_block q o y) e ∙ omega arith)
  | inr there ↦ let rest = in_list-remove q o p xs (rw there at m) in rw there (omega (arith, rest))
]

pub listed-remove :
    (r p : ℕ) (ps : List ℕ) → r ≢ p → listed r ps ≡ true → listed r (remove_page p ps) ≡ true
unfolding remove_page listed
listed-remove r p [] n m = m
listed-remove r p (x ∷ xs) n m = elim (Bool-cases (p == x)) [
  | inl here ↦ rw here (ground arith)
  | inr there ↦ rw there (ground (arith, listed-remove r p xs n))
]

pub length-remove :
    (p : ℕ) (ps : List ℕ) → listed p ps ≡ true → length ps ≡ suc (length (remove_page p ps))
unfolding remove_page listed
length-remove p [] m = absurd (cc)
length-remove p (x ∷ xs) m = elim (Bool-cases (p == x)) [
  | inl here ↦ rw here refl
  | inr there ↦ rw there (ap suc (length-remove p xs (rw there at m)))
]

pub two_power_pos : (n : ℕ) → 0 < 2 ^ n
two_power_pos zero = omega arith
two_power_pos (suc n) = omega (arith, two_power_pos n, two-pow-succ n)

pub in_block_le : (q o p : ℕ) → in_block q o p ≤ 1
in_block_le q o p = ground arith

in_list-listed : (q o : ℕ) (ps : List ℕ) → listed q ps ≡ true → 1 ≤ in_list q o ps
unfolding listed in_list
in_list-listed q o [] h = absurd (cc)
in_list-listed q o (p ∷ ps) h = elim (Bool-cases (q == p)) [
  | inl here ↦ let some_page = two_power_pos o in ground (arith, some_page)
  | inr there ↦ let rest = in_list-listed q o ps (rw there at h) in omega (arith, rest)
]

-- The head of a block lies in it.
pub free_count-listed :
    (q n o : ℕ) (free : ℕ → List ℕ) → o < n → listed q (free o) ≡ true → 1 ≤ free_count q n free
unfolding free_count
free_count-listed q zero o free h l = absurd (omega (arith, h))
free_count-listed q (suc n) o free h l = elim (Bool-cases (o == n)) [
  | inl here ↦
      let e : o ≡ n = ground arith in
      let head = in_list-listed q n (free n) (ap (λ x. listed q (free x)) (sym e) ∙ l) in
      omega (arith, head)
  | inr there ↦ let rest = free_count-listed q n o free (ground (arith, h)) l in omega (arith, rest)
]

pub listed_of_remove :
    (r p : ℕ) (ps : List ℕ) → listed r (remove_page p ps) ≡ true → listed r ps ≡ true
unfolding remove_page listed
listed_of_remove r p [] m = m
listed_of_remove r p (x ∷ xs) m = elim (Bool-cases (p == x)) [
  | inl here ↦ let m' = rw here at m in ground (arith, m')
  | inr there ↦ let m' = rw there at m in ground (arith, m', listed_of_remove r p xs)
]

pub in_block-cases : (q o p : ℕ) → (in_block q o p ≡ 1) ⊎ (in_block q o p ≡ 0)
in_block-cases q o p = elim (Bool-cases (leb p q && ltb q (p + 2 ^ o))) [
  | inl inside ↦ inl (rw inside refl)
  | inr outside ↦ inr (rw outside refl)
]
