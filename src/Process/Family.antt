-- ===== src/Process/Family.antt =====
-- The children of a process as a sequence, youngest first, in cptr, optr and yptr.
pub mod Leave
mod Tests
use os_edf.Prelude.{
  ℕ, ◌≡◌, ◌≢◌, refl, sym, subst, ◌∙◌, List, [], ◌∷◌, ◌++◌, Bool, true, false, not, arith, ◌==◌,
  if◌then◌else◌,
}
use os_edf.Kernel.{Kernel, Proc, Procs, modify}
use os_edf.Links.Chain.{NotIn, Distinct}
use os_edf.Process.{set_family}

-- From the pointer c on by optr; y is what stands in front.
abbrev pub Siblings : Procs → ℕ → ℕ → List ℕ → Type 0
Siblings ps y c [] = c ≡ 0
Siblings ps y c (x ∷ xs) = (c ≡ x) × (x ≢ 0) × ((ps x).yptr ≡ y) × Siblings ps x (ps x).optr xs

abbrev pub Children : Procs → ℕ → List ℕ → Type 0
Children ps parent l = Siblings ps 0 (ps parent).cptr l × Distinct l

-- Only the pointers yptr and optr of the siblings themselves count.
pub Siblings-agree :
    (ps qs : Procs) (a b y c : ℕ) (l : List ℕ)
    → ((q : ℕ) → a ≢ q → b ≢ q → ((qs q).yptr ≡ (ps q).yptr) × ((qs q).optr ≡ (ps q).optr))
    → NotIn a l
    → NotIn b l
    → Siblings ps y c l
    → Siblings qs y c l
Siblings-agree ps qs a b y c [] same n m s = s
Siblings-agree ps qs a b y c (x ∷ xs) same n m s =
    let here = same x n.0 m.0 in
    let rest = Siblings-agree ps qs a b x (ps x).optr xs same n.1 m.1 s.3 in
    (s.0, s.1, here.0 ∙ s.2, subst (λ o. Siblings qs x o xs) (sym here.1) rest)

-- If a process with a parent other than itself is not NULL and not among the children of that
-- parent, the pointers that set_links writes put it in front of them, as the youngest.
pub set_family-Children :
    (ps : Procs) (p : ℕ) (l : List ℕ)
    → p ≢ 0
    → p ≢ (ps p).parent
    → NotIn p l
    → Children ps (ps p).parent l
    → Children (set_family p ps) (ps p).parent (p ∷ l)
unfolding set_family
set_family-Children ps p [] real apart new c =
    let none : (ps (ps p).parent).cptr ≡ 0 = c.0 in
    ((ground arith, real, ground arith, ground arith), (new, c.1))
set_family-Children ps p (x ∷ xs) real apart new c =
    let first : (ps (ps p).parent).cptr ≡ x = c.0.0 in
    let x_real : x ≢ 0 = c.0.1 in
    let p_new : p ≢ x = new.0 in
    let qs = set_family p ps in
    let same : (q : ℕ) → p ≢ q → x ≢ q → ((qs q).yptr ≡ (ps q).yptr) × ((qs q).optr ≡ (ps q).optr) =
      λ q h g. (ground arith, ground arith) in
    let next : (qs x).optr ≡ (ps x).optr = ground arith in
    let older : (qs p).optr ≡ x = ground arith in
    let rest = Siblings-agree ps qs p x x (ps x).optr xs same new.1 c.1.0 c.0.3 in
    (
      (
        ground arith,
        real,
        ground arith,
        (older, x_real, ground arith, subst (λ o. Siblings qs x o xs) (sym next) rest),
      ),
      (new, c.1),
    )
