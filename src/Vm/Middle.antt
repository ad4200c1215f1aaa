-- ===== src/Vm/Middle.antt =====
-- mm_unmap of a range inside one area, which is cut in two.
use os_edf.Prelude.{
  ℕ, ◌%◌, ◌≤◌, ◌<◌, ◌≡◌, ◌≢◌, refl, sym, subst, ap, inl, inr, ◌∙◌, Bool, Bool-cases, true, false,
  not, ◌&&◌, ◌||◌, List, [], ◌∷◌, ◌++◌, some, arith, ◌==◌, length,
}
use os_edf.Prelude.Int.{pos}
use os_edf.Prelude.Run.{Ends, ends, Ends-bind}
use os_edf.Vm.{Vma, Mm, area_at, set_area, unmap_middle, vma_create}
use os_edf.Vm.Areas.{IsArea, NotAt, Areas, within, covered, Apart, ApartFrom, IsValid}
use os_edf.Vm.Insert.{insert_vma_struct-Added}
use os_edf.Vm.Map.{Apart-covered}
use os_edf.Vm.Split.{NotAt-drop, Areas-low, Areas-Apart, covered-drop, length-drop}
use os_edf.Vm.Unmap.{resized, vma_resize-ok, IsValid-logs}

-- w is the upper part of v, in its place.
module _ (v w : Vma) (post : List Vma) (same : w.ptr ≡ v.ptr) where
  set_area-split :
      (lo : ℕ) (pre : List Vma)
      → Areas lo (pre ++ v ∷ post)
      → set_area w (pre ++ v ∷ post) ≡ pre ++ w ∷ post
  unfolding set_area
  set_area-split lo [] a = ground arith
  set_area-split lo (x ∷ pre) a =
      let differs = (NotAt-drop v post x.ptr pre a.2).0 in
      let other : (x.ptr == w.ptr) ≡ false = ground arith in
      rw other (ap (λ l. x ∷ l) (set_area-split x.vm_end pre a.3))

  NotAt-replace : (p : ℕ) (pre : List Vma) → NotAt p (pre ++ v ∷ post) → NotAt p (pre ++ w ∷ post)
  NotAt-replace p [] n = (rw same n.0, n.1)
  NotAt-replace p (x ∷ pre) n = (n.0, NotAt-replace p pre n.1)

  Areas-replace :
      (lo : ℕ) (pre : List Vma)
      → v.vm_start ≤ w.vm_start
      → w.vm_end ≡ v.vm_end
      → IsArea w
      → Areas lo (pre ++ v ∷ post)
      → Areas lo (pre ++ w ∷ post)
  Areas-replace lo [] h e area a =
      (omega (arith, a.0), area, rw same a.2, subst (λ n. Areas n post) (sym e) a.3)
  Areas-replace lo (x ∷ pre) h e area a =
      (a.0, a.1, NotAt-replace x.ptr pre a.2, Areas-replace x.vm_end pre h e area a.3)

  area_at-replace :
      (p : ℕ) (pre : List Vma) {y : Vma}
      → area_at p (pre ++ v ∷ post) ≡ some y
      → (z : Vma) × (area_at p (pre ++ w ∷ post) ≡ some z)
  unfolding area_at
  area_at-replace p [] {y} e = elim (Bool-cases (v.ptr == p)) [
    | inl here ↦ let here' : (w.ptr == p) ≡ true = ground arith in (w, rw here' refl)
    | inr there ↦ let there' : (w.ptr == p) ≡ false = ground arith in (y, rw there' (rw there at e))
  ]
  area_at-replace p (x ∷ pre) {y} e = elim (Bool-cases (x.ptr == p)) [
    | inl here ↦ (x, rw here refl)
    | inr there ↦ let (z, f) = area_at-replace p pre (rw there at e) in (z, rw there f)
  ]

Apart-insert :
    (x w : Vma) (pre post : List Vma)
    → Apart x (pre ++ post)
    → ApartFrom x w
    → Apart x (pre ++ w ∷ post)
Apart-insert x w [] post a h = (h, a)
Apart-insert x w (y ∷ pre) post a h = (a.0, Apart-insert x w pre post a.1 h)

-- A part of v at another pointer
Apart-part :
    (v n : Vma) (vs : List Vma)
    → v.vm_start ≤ n.vm_start
    → n.vm_end ≤ v.vm_end
    → NotAt n.ptr vs
    → Apart v vs
    → Apart n vs
Apart-part v n [] h g p a = tt
Apart-part v n (x ∷ vs) h g p a = ((p.0, omega (arith, a.0.1)), Apart-part v n vs h g p.1 a.1)

cut_in_two :
    (p q s e a : ℕ) (rest : Bool)
    → p < s
    → s < e
    → e < q
    → (within p q a ≡ true → rest ≡ false)
    → (within p s a || (within e q a || rest)) ≡ ((within p q a || rest) && not (within s e a))
cut_in_two p q s e a false h g i n = ground arith
cut_in_two p q s e a true h g i n = elim (Bool-cases (within p q a)) [
  | inl inside ↦ let absent = n inside in absurd (cc)
  | inr outside ↦ ground arith
]

module _ (start end : ℕ) (v : Vma) (pre post : List Vma) (mm : Mm)
    (split : mm.mmap_list ≡ pre ++ v ∷ post) (valid : IsValid mm) (low : start % 4096 ≡ 0)
    (high : end % 4096 ≡ 0) (before : v.vm_start < start) (sane : start < end)
    (after : end < v.vm_end) where
  areas : Areas 0 (pre ++ v ∷ post)
  areas = subst (λ l. Areas 0 l) split valid.areas

  -- The list once the found area is its own upper part
  upper-IsValid : IsValid (record mm { mmap_list = pre ++ resized end v.vm_end v ∷ post })
  upper-IsValid =
      let area = (Areas-low v post 0 pre areas).1 in
      let w = resized end v.vm_end v in
      let count : length mm.mmap_list ≡ length (pre ++ w ∷ post) =
        ap (λ (l : List Vma). length l) split
        ∙ length-drop v post pre
        ∙ sym (length-drop w post pre) in
      record {
        areas =
            Areas-replace v w post refl 0 pre (omega arith) refl (after, high, area.2, area.3)
              areas;
        counted = valid.counted ∙ ap pos count;
        cache = elim valid.cache [
          | inl empty ↦ inl empty
          | inr (y, e) ↦ inr (
              area_at-replace v w post refl mm.mmap_cache pre
                (ap (λ l. area_at mm.mmap_cache l) (sym split) ∙ e))
        ];
      }

  pub unmap_middle-Ends :
      (ptr : ℕ)
      → NotAt ptr mm.mmap_list
      → ptr ≢ 0
      → Ends
          (λ r.
            (r.1 ≡ pos 0)
            × IsValid r.0
            × ((a : ℕ)
                → covered a r.0.mmap_list ≡ (covered a mm.mmap_list && not (within start end a))))
          (unmap_middle ptr start end v mm)
  unfolding unmap_middle vma_create
  unmap_middle-Ends ptr fresh real =
      let low' = Areas-low v post 0 pre areas in
      let area = low'.1 in
      let w = resized end v.vm_end v in
      let fresh' = subst (λ l. NotAt ptr l) split fresh in
      let drop = NotAt-drop v post ptr pre fresh' in
      let n : Vma = record {
        ptr = ptr;
        vm_start = v.vm_start;
        vm_end = start;
        vm_flags = v.vm_flags;
        shmem = 0;
        shmem_off = 0;
      } in
      let others = Areas-Apart v post 0 pre areas in
      let apart =
        Apart-insert n w pre post
          (Apart-part v n (pre ++ post) (omega arith) (omega arith) drop.1 others)
          (drop.0, inl (omega arith)) in
      let made : vma_create ptr v.vm_start start v.vm_flags ≡ some n = ground arith in
      let put : set_area w mm.mmap_list ≡ pre ++ w ∷ post =
        ap (λ l. set_area w l) split ∙ set_area-split v w post refl 0 pre areas in
      rw (made, unmap_middle) rw
        (vma_resize-ok end v.vm_end v high area.2 (omega arith) after (omega arith)) rw put
        (Ends-bind
          (insert_vma_struct-Added n (record mm { mmap_list = pre ++ w ∷ post }) upper-IsValid
            (before, area.1, low, real) apart)
          λ mm' added. ends (
            refl,
            IsValid-logs mm' _ _ added.valid,
            λ a.
                let whole = ap (λ l. covered a l) split ∙ covered-drop v post a pre in
                added.inserted.covers a
                ∙ ap (λ b. within v.vm_start start a || b) (covered-drop w post a pre)
                ∙ cut_in_two v.vm_start v.vm_end start end a (covered a (pre ++ post)) before sane
                    after (Apart-covered v (pre ++ post) a others)
                ∙ ap (λ b. b && not (within start end a)) (sym whole),
          ))
