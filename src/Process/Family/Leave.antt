-- ===== src/Process/Family/Leave.antt =====
-- remove_links: a child leaves the chain of its siblings, wherever it stands.
use os_edf.Prelude.{
  ℕ, ◌≡◌, ◌≢◌, refl, sym, subst, ◌∙◌, List, [], ◌∷◌, ◌++◌, not, ◌&&◌, arith, ◌==◌, if◌then◌else◌,
}
use os_edf.Kernel.{Procs}
use os_edf.Links.Chain.{NotIn, Distinct}
use os_edf.Links.Ring.{head_or, last_or, NotIn-last_or, NotIn-head_or, NotIn-parts, Distinct-drop}
use os_edf.Process.{remove_family}
use os_edf.Process.Family.{Siblings, Children, Siblings-agree}

-- p is cut out between its older and its younger sibling.
record Cut (p : ℕ) (ps qs : Procs) : Type 0 where
  optrs :
      (q : ℕ)
      → (qs q).optr
        ≡ (if not ((ps p).yptr == 0) && ((ps p).yptr == q) then (ps p).optr else (ps q).optr)
  yptrs :
      (q : ℕ)
      → (qs q).yptr
        ≡ (if not ((ps p).optr == 0) && ((ps p).optr == q) then (ps p).yptr else (ps q).yptr)

-- The part of the chain from p on
Siblings-split :
    (ps : Procs) (y c : ℕ) (xs : List ℕ) (p : ℕ) (ys : List ℕ)
    → Siblings ps y c (xs ++ p ∷ ys)
    → (p ≢ 0) × ((ps p).yptr ≡ last_or y xs) × Siblings ps p (ps p).optr ys
Siblings-split ps y c [] p ys s = (s.1, s.2, s.3)
Siblings-split ps y c (x ∷ xs) p ys s = Siblings-split ps x (ps x).optr xs p ys s.3

Siblings-head_or : (ps : Procs) (y c : ℕ) (ys : List ℕ) → Siblings ps y c ys → c ≡ head_or ys 0
Siblings-head_or ps y c [] s = s
Siblings-head_or ps y c (x ∷ ys) s = s.0

-- The siblings older than p, behind the one that stood in front of p
Siblings-behind :
    (ps qs : Procs) (p : ℕ) (ys : List ℕ)
    → Cut p ps qs
    → NotIn (ps p).yptr ys
    → Distinct ys
    → Siblings ps p (ps p).optr ys
    → Siblings qs (ps p).yptr (ps p).optr ys
Siblings-behind ps qs p [] cut n d s = s
Siblings-behind ps qs p (z ∷ zs) cut n d s =
    let o : (ps p).optr ≡ z = s.0 in
    let z_real : z ≢ 0 = s.1 in
    let front : (ps p).yptr ≢ z = n.0 in
    let same : (q : ℕ)
        → (ps p).yptr ≢ q
        → z ≢ q
        → ((qs q).yptr ≡ (ps q).yptr) × ((qs q).optr ≡ (ps q).optr) =
      λ q h g. (ground (arith, cut.yptrs q), ground (arith, cut.optrs q)) in
    let next : (qs z).optr ≡ (ps z).optr = ground (arith, cut.optrs z) in
    let rest = Siblings-agree ps qs (ps p).yptr z z (ps z).optr zs same n.1 d.0 s.3 in
    (o, z_real, ground (arith, cut.yptrs z), subst (λ o. Siblings qs z o zs) (sym next) rest)

Siblings-real : (ps : Procs) (y c : ℕ) (l : List ℕ) → Siblings ps y c l → NotIn 0 l
Siblings-real ps y c [] s = tt
Siblings-real ps y c (x ∷ xs) s = (omega (arith, s.1), Siblings-real ps x (ps x).optr xs s.3)

-- The whole chain, with an entry w in front of p
Siblings-Cut :
    (ps qs : Procs) (p y c w : ℕ) (xs ys : List ℕ)
    → Cut p ps qs
    → Distinct (w ∷ xs ++ ys)
    → Siblings ps y c (w ∷ xs ++ p ∷ ys)
    → Siblings qs y c (w ∷ xs ++ ys)
Siblings-Cut ps qs p y c w [] ys cut d s =
    let (p_real, younger, behind) = Siblings-split ps w (ps w).optr [] p ys s.3 in
    let away : w ≢ head_or ys 0 = NotIn-head_or w ys 0 s.1 d.0 in
    let o : (ps p).optr ≡ head_or ys 0 = Siblings-head_or ps p (ps p).optr ys behind in
    let w_real : w ≢ 0 = s.1 in
    let kept : (qs w).yptr ≡ (ps w).yptr = ground (arith, cut.yptrs w) in
    let next : (qs w).optr ≡ (ps p).optr = ground (arith, cut.optrs w) in
    let alone : NotIn (ps p).yptr ys = subst (λ z. NotIn z ys) (sym younger) d.0 in
    let rest = Siblings-behind ps qs p ys cut alone d.1 behind in
    (s.0, w_real, kept ∙ s.2, subst (λ z. Siblings qs z (qs w).optr ys) younger (rw next rest))
Siblings-Cut ps qs p y c w (v ∷ xs) ys cut d s =
    let (p_real, younger, behind) = Siblings-split ps w (ps w).optr (v ∷ xs) p ys s.3 in
    let parts = NotIn-parts w xs ys d.0.1 in
    let o : (ps p).optr ≡ head_or ys 0 = Siblings-head_or ps p (ps p).optr ys behind in
    let away : w ≢ head_or ys 0 = NotIn-head_or w ys 0 s.1 parts.1 in
    let before : w ≢ last_or v xs = NotIn-last_or w v xs d.0.0 parts.0 in
    let kept : (qs w).yptr ≡ (ps w).yptr = ground (arith, cut.yptrs w) in
    let next : (qs w).optr ≡ (ps w).optr = ground (arith, cut.optrs w) in
    let rest = Siblings-Cut ps qs p w (ps w).optr v xs ys cut d.1 s.3 in
    (s.0, s.1, kept ∙ s.2, subst (λ o. Siblings qs w o (v ∷ xs ++ ys)) (sym next) rest)

remove_family-Cut : (ps : Procs) (p : ℕ) → (ps p).optr ≢ p → Cut p ps (remove_family p ps)
unfolding remove_family
remove_family-Cut ps p h = record { optrs = λ q. ground arith; yptrs = λ q. ground arith }

-- The parent's pointer to its youngest child moves on if p is the youngest.
remove_family-cptr :
    (ps : Procs) (p parent : ℕ)
    → (ps p).parent ≡ parent
    → (ps p).optr ≢ p
    → (remove_family p ps parent).cptr
      ≡ (if (ps p).yptr == 0 then (ps p).optr else (ps parent).cptr)
unfolding remove_family
remove_family-cptr ps p parent e h = ground arith

-- If a process stands among the children of its parent, wherever in the order of their age, the
-- pointers that remove_links writes leave the children of that parent without it, in the same
-- order.
pub remove_family-Children :
    (ps : Procs) (p : ℕ) (xs ys : List ℕ)
    → Children ps (ps p).parent (xs ++ p ∷ ys)
    → Children (remove_family p ps) (ps p).parent (xs ++ ys)
remove_family-Children ps p [] ys c =
    let qs = remove_family p ps in
    let o : (ps p).optr ≡ head_or ys 0 = Siblings-head_or ps p (ps p).optr ys c.0.3 in
    let apart : (ps p).optr ≢ p = let away = NotIn-head_or p ys 0 c.0.1 c.1.0 in omega arith in
    let first : (ps p).yptr ≡ 0 = c.0.2 in
    let cptr : (qs (ps p).parent).cptr ≡ (ps p).optr =
      remove_family-cptr ps p (ps p).parent refl apart ∙ ground arith in
    let real = Siblings-real ps p (ps p).optr ys c.0.3 in
    let rest =
      Siblings-behind ps qs p ys (remove_family-Cut ps p apart)
        (subst (λ z. NotIn z ys) (sym first) real) c.1.1 c.0.3 in
    (rw cptr (subst (λ z. Siblings qs z (ps p).optr ys) first rest), c.1.1)
remove_family-Children ps p (w ∷ xs) ys c =
    let qs = remove_family p ps in
    let youngest = (ps (ps p).parent).cptr in
    let (p_real, younger, behind) = Siblings-split ps 0 youngest (w ∷ xs) p ys c.0 in
    let d = Distinct-drop p (w ∷ xs) ys c.1 in
    let parts = NotIn-parts p (w ∷ xs) ys d.0 in
    let o : (ps p).optr ≡ head_or ys 0 = Siblings-head_or ps p (ps p).optr ys behind in
    let apart : (ps p).optr ≢ p = let away = NotIn-head_or p ys 0 p_real parts.1 in omega arith in
    let real =
      NotIn-parts 0 (w ∷ xs) (p ∷ ys) (Siblings-real ps 0 youngest (w ∷ xs ++ p ∷ ys) c.0) in
    let not_first : 0 ≢ last_or w xs = NotIn-last_or 0 w xs real.0.0 real.0.1 in
    let cptr : (qs (ps p).parent).cptr ≡ youngest =
      remove_family-cptr ps p (ps p).parent refl apart ∙ ground arith in
    let rest = Siblings-Cut ps qs p 0 youngest w xs ys (remove_family-Cut ps p apart) d.1 c.0 in
    (subst (λ z. Siblings qs 0 z (w ∷ xs ++ ys)) (sym cptr) rest, d.1)
