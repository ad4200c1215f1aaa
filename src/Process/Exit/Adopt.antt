-- ===== src/Process/Exit/Adopt.antt =====
-- One round of the loop in which an exiting process hands its children over.
use os_edf.Prelude.{
  ℕ, ◌≡◌, ◌≢◌, refl, sym, subst, ◌∙◌, List, [], ◌∷◌, true, arith, ◌==◌, if◌then◌else◌,
}
use os_edf.Kernel.{Procs, modify}
use os_edf.Links.Chain.{NotIn}
use os_edf.Process.{set_family}
use os_edf.Process.Family.{Siblings, Children, Siblings-agree, set_family-Children}
use os_edf.Process.Exit.{adopt}

-- From the pointer c on by optr
abbrev pub Kids : Procs → ℕ → List ℕ → Type 0
Kids ps c [] = c ≡ 0
Kids ps c (x ∷ xs) = (c ≡ x) × (x ≢ 0) × Kids ps (ps x).optr xs

Kids-agree :
    (ps qs : Procs) (p c : ℕ) (l : List ℕ)
    → ((q : ℕ) → p ≢ q → (qs q).optr ≡ (ps q).optr)
    → NotIn p l
    → Kids ps c l
    → Kids qs c l
Kids-agree ps qs p c [] same n k = k
Kids-agree ps qs p c (x ∷ xs) same n k = (
  k.0,
  k.1,
  subst (λ o. Kids qs o xs) (sym (same x n.0)) (Kids-agree ps qs p (ps x).optr xs same n.1 k.2),
)

-- What the first writes of the round leave
abbrev unlinked : ℕ → ℕ → ℕ → Procs → Procs
unlinked current parent p ps =
    modify (modify ps current (λ q. record q { cptr = (ps p).optr })) p
      (λ q. record q { parent = parent })

unlinked-same :
    (current parent p : ℕ) (ps : Procs) (q : ℕ)
    → ((unlinked current parent p ps q).yptr ≡ (ps q).yptr)
      × ((unlinked current parent p ps q).optr ≡ (ps q).optr)
unlinked-same current parent p ps q = (ground arith, ground arith)

unlinked-cptr :
    (current parent p : ℕ) (ps : Procs) (q : ℕ)
    → (unlinked current parent p ps q).cptr ≡ (if current == q then (ps p).optr else (ps q).cptr)
unlinked-cptr current parent p ps q = ground arith

unlinked-parent :
    (current parent p : ℕ) (ps : Procs) → (unlinked current parent p ps p).parent ≡ parent
unlinked-parent current parent p ps = let e : (p == p) ≡ true = ground arith in rw e refl

-- set_links changes no optr but that of the process, and no cptr but that of its parent.
set_family-optr : (ps : Procs) (p q : ℕ) → p ≢ q → (set_family p ps q).optr ≡ (ps q).optr
unfolding set_family
set_family-optr ps p q n = ground arith

set_family-cptr :
    (ps : Procs) (p q : ℕ) → (ps p).parent ≢ q → (set_family p ps q).cptr ≡ (ps q).cptr
unfolding set_family
set_family-cptr ps p q n = ground arith

set_family-parent : (ps : Procs) (p q : ℕ) → (set_family p ps q).parent ≡ (ps q).parent
unfolding set_family
set_family-parent ps p q = ground arith

-- If an exiting process has the child p and then the children xs, and the process that takes
-- them over, which is neither of the two, has the children ds, with p not among xs and ds: a
-- round of the loop in __do_exit leaves the exiting process with xs, the other with p in front
-- of ds as its youngest, and p with the other for its parent.
pub adopt-Children :
    (current parent p : ℕ) (ps : Procs) (xs ds : List ℕ)
    → current ≢ parent
    → p ≢ parent
    → NotIn p xs
    → NotIn p ds
    → Kids ps (ps current).cptr (p ∷ xs)
    → Children ps parent ds
    → Kids (adopt current parent p ps) (adopt current parent p ps current).cptr xs
      × Children (adopt current parent p ps) parent (p ∷ ds)
      × ((adopt current parent p ps p).parent ≡ parent)
unfolding adopt
adopt-Children current parent p ps xs ds apart other n m kids c =
    let rs = unlinked current parent p ps in
    let e = unlinked-parent current parent p ps in
    let head : (rs parent).cptr ≡ (ps parent).cptr =
      ground (arith, unlinked-cptr current parent p ps parent, apart) in
    let siblings =
      Siblings-agree ps rs p p 0 (ps parent).cptr ds (λ q _ _. unlinked-same current parent p ps q)
        m m c.0 in
    let before : Children rs parent ds =
      (subst (λ o. Siblings rs 0 o ds) (sym head) siblings, c.1) in
    let after =
      set_family-Children rs p ds kids.1 (λ h. other (h ∙ e)) m
        (subst (λ x. Children rs x ds) (sym e) before) in
    let next : (set_family p rs current).cptr ≡ (ps p).optr =
      set_family-cptr rs p current (λ h. apart (sym h ∙ e))
      ∙ ground (arith, unlinked-cptr current parent p ps current) in
    (
      subst (λ o. Kids (set_family p rs) o xs) (sym next)
          (Kids-agree ps (set_family p rs) p (ps p).optr xs
            (λ q h. set_family-optr rs p q h ∙ (unlinked-same current parent p ps q).1) n kids.2),
      subst (λ x. Children (set_family p rs) x (p ∷ ds)) e after,
      set_family-parent rs p p ∙ e,
    )
