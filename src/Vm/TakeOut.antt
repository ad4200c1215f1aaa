-- ===== src/Vm/TakeOut.antt =====
-- The first loop of mm_unmap: the areas that meet the range leave the list.
use os_edf.Prelude.{
  ℕ, suc, ◌≤◌, ◌<◌, ◌≡◌, ◌≢◌, refl, sym, subst, ap, ◌⊎◌, inl, inr, ◌∙◌, Bool-cases, true, false,
  ◌||◌, List, [], ◌∷◌, ◌++◌, arith, ltb, ◌==◌, length,
}
use os_edf.Prelude.Int.{◌-ℤ◌}
use os_edf.Vm.{Vma, Mm, area_at, remove_at, remove_vma_struct, take_out}
use os_edf.Vm.Areas.{IsArea, Areas, within, covered, covered-below, Apart, ApartFrom, IsValid}
use os_edf.Vm.Split.{
  Below, Areas-low, Areas-drop, Areas-Apart, covered-drop, area_at-drop, Apart-drop, remove_at-drop,
  length-drop,
}

module _ (start end : ℕ) where
  -- An area that meets the range, and does not reach out of it on both sides
  abbrev pub Hit : Vma → Type 0
  Hit v = (start < v.vm_end) × ((start ≤ v.vm_start) ⊎ (v.vm_end ≤ end))

  -- The areas on free_list, beside those of vs
  abbrev pub Loose : List Vma → List Vma → Type 0
  Loose vs [] = Unit
  Loose vs (v ∷ fs) = IsArea v × (v.vm_start < end) × Hit v × Apart v vs × Apart v fs × Loose vs fs

  abbrev pub Hits : List Vma → Type 0
  Hits [] = Unit
  Hits (v ∷ vs) = Hit v × Hits vs

-- One area leaves the list.
pub remove-IsValid :
    (v : Vma) (pre vs : List Vma) (mm : Mm)
    → mm.mmap_list ≡ pre ++ v ∷ vs
    → IsValid mm
    → IsValid (remove_vma_struct v mm) × ((remove_vma_struct v mm).mmap_list ≡ pre ++ vs)
unfolding remove_vma_struct ◌-ℤ◌
remove-IsValid v pre vs mm e valid =
    let a : Areas 0 (pre ++ v ∷ vs) = subst (λ l. Areas 0 l) e valid.areas in
    let left : remove_at v.ptr mm.mmap_list ≡ pre ++ vs =
      ap (λ l. remove_at v.ptr l) e ∙ remove_at-drop v vs 0 pre a in
    let count : length mm.mmap_list ≡ suc (length (pre ++ vs)) =
      ap (λ (l : List Vma). length l) e ∙ length-drop v vs pre in
    let less : length (remove_at v.ptr mm.mmap_list) ≡ length (pre ++ vs) =
      ap (λ (l : List Vma). length l) left in
    (
      record {
        areas = subst (λ l. Areas 0 l) (sym left) (Areas-drop v vs 0 pre a);
        counted = ground (arith, valid.counted);
        cache = elim (Bool-cases (v.ptr == mm.mmap_cache)) [
          | inl same ↦ rw same (inl refl)
          | inr other ↦ rw other (elim valid.cache [
            | inl empty ↦ inl empty
            | inr (w, f) ↦
                let apart : mm.mmap_cache ≢ v.ptr = ground arith in
                inr (
                  w,
                  ap (λ l. area_at mm.mmap_cache l) left
                      ∙ area_at-drop v vs mm.mmap_cache pre apart
                      ∙ sym (ap (λ l. area_at mm.mmap_cache l) e)
                      ∙ f,
                )
          ])
        ];
      },
      left,
    )

pub ApartFrom-sym : (v x : Vma) → ApartFrom v x → ApartFrom x v
ApartFrom-sym v x h = (λ e. h.0 (sym e), elim h.1 [ inl p ↦ inr p | inr p ↦ inl p ])

covered-Below :
    (start a : ℕ) (pre vs : List Vma)
    → Below start pre
    → start ≤ a
    → covered a (pre ++ vs) ≡ covered a vs
unfolding covered
covered-Below start a [] vs b h = refl
covered-Below start a (x ∷ pre) vs b h = ground (arith, covered-Below start a pre vs b.1 h, b.0)

module _ (start end : ℕ) where
  Loose-drop :
      (v : Vma) (pre vs fs : List Vma)
      → Loose start end (pre ++ v ∷ vs) fs
      → Loose start end (pre ++ vs) fs × Apart v fs
  Loose-drop v pre vs [] l = (tt, tt)
  Loose-drop v pre vs (x ∷ fs) l =
      let rest = Loose-drop v pre vs fs l.5 in
      let drop = Apart-drop v vs x pre l.3 in
      ((l.0, l.1, l.2, drop.1, l.4, rest.0), (ApartFrom-sym x v drop.0, rest.1))

  -- What leaves the list stands on free_list, and no area of the list meets the range any more.
  pub record Taken (before free : List Vma) (r : Mm × List Vma) : Type 0 where
    pub valid : IsValid r.0
    pub loose : Loose start end r.0.mmap_list r.1
    pub total :
        (a : ℕ) → (covered a r.0.mmap_list || covered a r.1) ≡ (covered a before || covered a free)
    pub clear : (a : ℕ) → within start end a ≡ true → covered a r.0.mmap_list ≡ false

  stop-Taken :
      (mm : Mm) (pre suffix free : List Vma)
      → mm.mmap_list ≡ pre ++ suffix
      → IsValid mm
      → Loose start end (pre ++ suffix) free
      → Below start pre
      → ((a : ℕ) → a < end → covered a suffix ≡ false)
      → Taken (pre ++ suffix) free (mm, free)
  stop-Taken mm pre suffix free e valid loose below past = record {
    valid = valid;
    loose = subst (λ l. Loose start end l free) (sym e) loose;
    total = λ a. ap (λ l. covered a l || covered a free) e;
    clear = λ a h.
        ap (λ l. covered a l) e
        ∙ covered-Below start a pre suffix below (ground arith)
        ∙ past a (ground arith);
  }

  pub take_out-Taken :
      (suffix pre free : List Vma) (mm : Mm)
      → mm.mmap_list ≡ pre ++ suffix
      → IsValid mm
      → Loose start end (pre ++ suffix) free
      → Below start pre
      → Hits start end suffix
      → Taken (pre ++ suffix) free (take_out end suffix mm free)
  unfolding take_out covered
  take_out-Taken [] pre free mm e valid loose below hits =
      stop-Taken mm pre [] free e valid loose below (λ a h. refl)
  take_out-Taken (v ∷ vs) pre free mm e valid loose below hits =
      let areas : Areas 0 (pre ++ v ∷ vs) = subst (λ l. Areas 0 l) e valid.areas in
      elim (Bool-cases (ltb v.vm_start end)) [
        | inl meets ↦
            let removed = remove-IsValid v pre vs mm e valid in
            let parts = Loose-drop v pre vs free loose in
            let low = Areas-low v vs 0 pre areas in
            let loose' : Loose start end (pre ++ vs) (v ∷ free) =
              (low.1, ground arith, hits.0, Areas-Apart v vs 0 pre areas, parts.1, parts.0) in
            let rest =
              take_out-Taken vs pre (v ∷ free) (remove_vma_struct v mm) removed.1 removed.0 loose'
                below hits.1 in
            rw meets (record {
              valid = rest.valid;
              loose = rest.loose;
              total = λ a. rest.total a ∙ ground (arith, covered-drop v vs a pre);
              clear = rest.clear;
            })
        | inr past ↦ rw past (
            stop-Taken mm pre (v ∷ vs) free e valid loose below (λ a h.
              let low = Areas-low v vs 0 pre areas in
              let sane : v.vm_start < v.vm_end = low.1.0 in
              let rest = covered-below v.vm_end a vs low.2 (ground arith) in ground arith))
      ]
