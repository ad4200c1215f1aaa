-- ===== src/Vm/Split.antt =====
-- The list of the areas round one of them.
use os_edf.Prelude.{
  ℕ, suc, ◌≤◌, ◌<◌, ◌≡◌, ◌≢◌, refl, sym, subst, ap, inl, inr, Bool-cases, false, ◌||◌, List, [],
  ◌∷◌, ◌++◌, some, arith, ltb, ◌==◌, length,
}
use os_edf.Vm.{Vma, area_at, first_after, remove_at, from_area}
use os_edf.Vm.Areas.{IsArea, NotAt, Areas, Areas-lower, within, covered, Apart, ApartFrom}

-- All end by the address.
abbrev pub Below : ℕ → List Vma → Type 0
Below start [] = Unit
Below start (x ∷ xs) = (x.vm_end ≤ start) × Below start xs

module _ (v : Vma) (vs : List Vma) where
  pub NotAt-drop :
      (p : ℕ) (pre : List Vma) → NotAt p (pre ++ v ∷ vs) → (p ≢ v.ptr) × NotAt p (pre ++ vs)
  NotAt-drop p [] n = n
  NotAt-drop p (x ∷ pre) n = let rest = NotAt-drop p pre n.1 in (rest.0, (n.0, rest.1))

  pub Areas-low :
      (lo : ℕ) (pre : List Vma)
      → Areas lo (pre ++ v ∷ vs)
      → (lo ≤ v.vm_start) × IsArea v × Areas v.vm_end vs
  Areas-low lo [] a = (a.0, a.1, a.3)
  Areas-low lo (x ∷ pre) a =
      let rest = Areas-low x.vm_end pre a.3 in (omega (arith, a.0, a.1.0, rest.0), rest.1, rest.2)

  pub Areas-drop : (lo : ℕ) (pre : List Vma) → Areas lo (pre ++ v ∷ vs) → Areas lo (pre ++ vs)
  Areas-drop lo [] a = Areas-lower v.vm_end lo vs (omega (arith, a.0, a.1.0)) a.3
  Areas-drop lo (x ∷ pre) a = (a.0, a.1, (NotAt-drop x.ptr pre a.2).1, Areas-drop x.vm_end pre a.3)

  pub Areas-ApartFrom :
      (lo : ℕ) (xs : List Vma) → Areas lo xs → v.vm_end ≤ lo → NotAt v.ptr xs → Apart v xs
  Areas-ApartFrom lo [] a h n = tt
  Areas-ApartFrom lo (x ∷ xs) a h n = (
    (n.0, inl (omega (arith, a.0))),
    Areas-ApartFrom x.vm_end xs a.3 (omega (arith, a.0, a.1.0)) n.1,
  )

  pub Areas-Apart : (lo : ℕ) (pre : List Vma) → Areas lo (pre ++ v ∷ vs) → Apart v (pre ++ vs)
  Areas-Apart lo [] a = Areas-ApartFrom v.vm_end vs a.3 (omega arith) a.2
  Areas-Apart lo (x ∷ pre) a =
      let rest = Areas-low x.vm_end pre a.3 in
      let differs = (NotAt-drop x.ptr pre a.2).0 in
      ((λ e. differs (sym e), inr rest.0), Areas-Apart x.vm_end pre a.3)

  pub covered-drop :
      (a : ℕ) (pre : List Vma)
      → covered a (pre ++ v ∷ vs) ≡ (within v.vm_start v.vm_end a || covered a (pre ++ vs))
  unfolding covered
  covered-drop a [] = refl
  covered-drop a (x ∷ pre) = ground (arith, covered-drop a pre)

  pub area_at-drop :
      (p : ℕ) (pre : List Vma) → p ≢ v.ptr → area_at p (pre ++ vs) ≡ area_at p (pre ++ v ∷ vs)
  unfolding area_at
  area_at-drop p [] h = ground arith
  area_at-drop p (x ∷ pre) h = ground (arith, area_at-drop p pre h)

  pub Apart-drop :
      (x : Vma) (pre : List Vma) → Apart x (pre ++ v ∷ vs) → ApartFrom x v × Apart x (pre ++ vs)
  Apart-drop x [] h = (h.0, h.1)
  Apart-drop x (w ∷ pre) h = let rest = Apart-drop x pre h.1 in (rest.0, (h.0, rest.1))

  pub remove_at-drop :
      (lo : ℕ) (pre : List Vma)
      → Areas lo (pre ++ v ∷ vs)
      → remove_at v.ptr (pre ++ v ∷ vs) ≡ pre ++ vs
  unfolding remove_at
  remove_at-drop lo [] a = ground arith
  remove_at-drop lo (x ∷ pre) a =
      let differs = (NotAt-drop x.ptr pre a.2).0 in
      let rest = remove_at-drop x.vm_end pre a.3 in
      let other : (x.ptr == v.ptr) ≡ false = ground arith in rw other (ap (λ l. x ∷ l) rest)

  pub from_area-drop :
      (lo : ℕ) (pre : List Vma)
      → Areas lo (pre ++ v ∷ vs)
      → from_area v.ptr (pre ++ v ∷ vs) ≡ v ∷ vs
  unfolding from_area
  from_area-drop lo [] a = ground arith
  from_area-drop lo (x ∷ pre) a =
      let differs = (NotAt-drop x.ptr pre a.2).0 in
      let other : (x.ptr == v.ptr) ≡ false = ground arith in
      rw other (from_area-drop x.vm_end pre a.3)

  pub length-drop : (pre : List Vma) → length (pre ++ v ∷ vs) ≡ suc (length (pre ++ vs))
  length-drop [] = refl
  length-drop (x ∷ pre) = ap suc (length-drop pre)

-- Where the walk of find_vma stops
pub first_after-split :
    (lo start : ℕ) (vs : List Vma) (v : Vma)
    → Areas lo vs
    → first_after start vs ≡ some v
    → (pre : List Vma) × (post : List Vma) × (vs ≡ pre ++ v ∷ post)
      × Below start pre
      × (start < v.vm_end)
unfolding first_after
first_after-split lo start [] v a e = absurd (cc)
first_after-split lo start (x ∷ vs) v a e = elim (Bool-cases (ltb start x.vm_end)) [
  | inl here ↦
      let e' = rw here at e in
      let same : x ≡ v = cc in
      ([], vs, ap (λ w. w ∷ vs) same, tt, ap_end x v start same (ground arith))
  | inr there ↦
      let (pre, post, split, below, end) =
        first_after-split x.vm_end start vs v a.3 (rw there at e) in
      (x ∷ pre, post, ap (λ l. x ∷ l) split, (ground arith, below), end)
]
  where
    ap_end : (x v : Vma) (start : ℕ) → x ≡ v → start < x.vm_end → start < v.vm_end
    ap_end x v start e h = subst (λ (w : Vma). start < w.vm_end) e h
