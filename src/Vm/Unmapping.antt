-- ===== src/Vm/Unmapping.antt =====
-- mm_unmap: afterwards exactly the addresses outside the range are still covered.
use os_edf.Prelude.{
  ℕ, ◌+◌, ◌%◌, ◌^◌, ◌≤◌, ◌<◌, ◌≡◌, refl, sym, subst, ap, inl, inr, ◌∙◌, Bool, Bool-cases, true,
  false, not, ◌&&◌, ◌||◌, List, [], ◌∷◌, ◌++◌, Option, Option-cases, none, some, arith, ltb, ◌==◌,
}
use os_edf.Prelude.Int.{ℤ, pos, negsuc}
use os_edf.Prelude.Run.{ok, Ends, ends, Ends-bind, Ends-map, Ends-if}
use os_edf.Vm.{
  Vma, Mm, first_after, starts_before, from_area, unmap_middle, unmap_from, vma_create, mm_unmap,
  round_down, round_up, user_access,
}
use os_edf.Vm.Areas.{NotAt, Areas, within, covered, IsValid}
use os_edf.Vm.Find.{find_vma-Found}
use os_edf.Vm.Map.{area_with, Apart-covered, starts_before-Apart}
use os_edf.Vm.Split.{Areas-low, first_after-split, from_area-drop}
use os_edf.Vm.TakeOut.{Hits, take_out-Taken}
use os_edf.Vm.Unmap.{put_back-Ends}
use os_edf.Vm.Middle.{unmap_middle-Ends}

-- The three ways mm_unmap ends
pub data Unmapped (ptr start end : ℕ) (mm : Mm) : Mm × ℤ → Type 0 where
  unmapped :
      {mm' : Mm}
      → ((a : ℕ) → covered a mm'.mmap_list ≡ (covered a mm.mmap_list && not (within start end a)))
      → Unmapped ptr start end mm (mm', pos 0)
  no_memory :
      {mm' : Mm}
      → ptr ≡ 0
      → mm'.mmap_list ≡ mm.mmap_list
      → Unmapped ptr start end mm (mm', negsuc 3)
  invalid :
      {mm' : Mm}
      → user_access start end ≡ false
      → mm'.mmap_list ≡ mm.mmap_list
      → Unmapped ptr start end mm (mm', negsuc 2)

-- Only the areas count.
Unmapped-same :
    (ptr start end : ℕ) (mm mm₁ : Mm) (r : Mm × ℤ)
    → mm₁.mmap_list ≡ mm.mmap_list
    → Unmapped ptr start end mm₁ r
    → Unmapped ptr start end mm r
Unmapped-same ptr start end mm mm₁ r e (unmapped covers) =
    unmapped λ a. covers a ∙ ap (λ l. covered a l && not (within start end a)) e
Unmapped-same ptr start end mm mm₁ r e (no_memory null same) = no_memory null (same ∙ e)
Unmapped-same ptr start end mm mm₁ r e (invalid outside same) = invalid outside (same ∙ e)

absent : (m inside : Bool) → (inside ≡ true → m ≡ false) → m ≡ (m && not inside)
absent false inside n = refl
absent true true n = n refl
absent true false n = refl

-- Behind the first area that is met each starts in the range or behind it.
Areas-Hits : (start end lo : ℕ) (vs : List Vma) → start ≤ lo → Areas lo vs → Hits start end vs
Areas-Hits start end lo [] h a = tt
Areas-Hits start end lo (x ∷ vs) h a = (
  (omega (arith, a.0, a.1.0), inl (omega (arith, a.0))),
  Areas-Hits start end x.vm_end vs (omega (arith, a.0, a.1.0)) a.3,
)

unmap_middle-null :
    (ptr start end : ℕ) (v : Vma) (mm : Mm)
    → (ptr == 0) ≡ true
    → unmap_middle ptr start end v mm ≡ ok (mm, negsuc 3)
unfolding unmap_middle vma_create
unmap_middle-null ptr start end v mm null =
    let absent : vma_create ptr v.vm_start start v.vm_flags ≡ none = ground arith in
    rw (absent, unmap_middle) refl

-- What stays in the list is outside of the range, and of what left only that returns.
settle :
    (kept free before inside : Bool)
    → (kept || free) ≡ (before || false)
    → (inside ≡ true → kept ≡ false)
    → (kept || (free && not inside)) ≡ (before && not inside)
settle true free before true e n = absurd (let no = n refl in cc)
settle true free true false e n = refl
settle true free false false e n = cc
settle false true true inside e n = refl
settle false true false inside e n = absurd (cc)
settle false false true inside e n = absurd (cc)
settle false false false inside e n = refl

module _ (ptr start end : ℕ) (mm : Mm) (valid : IsValid mm) (low : start % 4096 ≡ 0)
    (high : end % 4096 ≡ 0) (sane : start < end) (fresh : NotAt ptr mm.mmap_list) where
  -- Nothing is found in the way.
  starts_before-clear :
      starts_before end (first_after start mm.mmap_list) ≡ none
      → (a : ℕ) → within start end a ≡ true
      → covered a mm.mmap_list ≡ false
  starts_before-clear free a h =
      let v = area_with ptr start end 0 in
      Apart-covered v mm.mmap_list a
        (starts_before-Apart 0 start end mm.mmap_list v valid.areas free fresh refl refl) h

  unmap_from-Unmapped :
      (v : Vma)
      → first_after start mm.mmap_list ≡ some v
      → Ends (λ r. IsValid r.0 × Unmapped ptr start end mm r) (unmap_from ptr start end v mm)
  unfolding unmap_from covered
  unmap_from-Unmapped v e =
      let (pre, post, split, below, meets) =
        first_after-split 0 start mm.mmap_list v valid.areas e in
      let areas : Areas 0 (pre ++ v ∷ post) = subst (λ l. Areas 0 l) split valid.areas in
      let area = Areas-low v post 0 pre areas in
      elim (Bool-cases (ltb v.vm_start start && ltb end v.vm_end)) [
        | inl middle ↦ rw middle (elim (Bool-cases (ptr == 0)) [
          | inl null ↦
              let no_area = unmap_middle-null ptr start end v mm null in
              rw no_area (ends (valid, no_memory (ground arith) refl))
          | inr real ↦
              Ends-map
                (unmap_middle-Ends start end v pre post mm split valid low high (ground arith) sane
                  (ground arith) ptr fresh (ground arith))
                λ (mm', ret) (zero, valid', covers). (
                  valid',
                  subst (λ z. Unmapped ptr start end mm (mm', z)) (sym zero) (unmapped covers),
                )
        ])
        | inr across ↦
            let suffix : from_area v.ptr mm.mmap_list ≡ v ∷ post =
              ap (λ l. from_area v.ptr l) split ∙ from_area-drop v post 0 pre areas in
            let hits : Hits start end (v ∷ post) = (
              (meets, ground arith),
              Areas-Hits start end v.vm_end post (omega (arith, meets)) area.2,
            ) in
            let taken = take_out-Taken start end (v ∷ post) pre [] mm split valid tt below hits in
            rw across rw suffix (
              Ends-bind (put_back-Ends start end _ _ low high sane taken.valid taken.loose)
                λ mm₂ (valid₂, covers). ends (
                  valid₂,
                  unmapped λ a.
                      covers a
                      ∙ settle _ _ _ _ (taken.total a) (taken.clear a)
                      ∙ ap (λ l. covered a l && not (within start end a)) (sym split),
                ))
      ]

starts_before-some :
    (end : ℕ) (r : Option Vma) (v : Vma) → starts_before end r ≡ some v → r ≡ some v
starts_before-some end none v e = e
starts_before-some end (some w) v e = ground arith

-- On valid areas, with the pointer that kmalloc gives not that of an area, mm_unmap ends with
-- valid areas, and: it returns 0 and covers exactly the addresses covered before that lie
-- outside the rounded range, whether areas go, shrink or are cut in two; or it returns
-- -E_NO_MEM, for a null pointer, with the areas as they were; or -E_INVAL, for no user range,
-- with the areas as they were.
pub mm_unmap-Unmapped :
    (ptr addr len : ℕ) (mm : Mm)
    → IsValid mm
    → NotAt ptr mm.mmap_list
    → Ends
        (λ r. IsValid r.0 × Unmapped ptr (round_down addr) (round_up ((addr + len) % 2 ^ 32)) mm r)
        (mm_unmap ptr addr len mm)
unfolding mm_unmap
mm_unmap-Unmapped ptr addr len mm valid fresh =
    let start = round_down addr in
    let end = round_up ((addr + len) % 2 ^ 32) in
    Ends-if (user_access start end)
      (λ user.
        let sane : start < end = ground arith in
        Ends-bind (find_vma-Found start mm valid) λ (found, mm₁) f.
          let fresh₁ = subst (λ l. NotAt ptr l) (sym f.same) fresh in
          elim (Option-cases (starts_before end found)) [
            | inl free ↦
                let e = subst (λ r. starts_before end r ≡ none) f.result free in
                rw free (
                  ends (
                    f.valid,
                    unmapped λ a.
                        ap (λ l. covered a l) f.same
                        ∙ absent _ _ (
                            starts_before-clear ptr start end mm valid (omega arith) (omega arith)
                              sane fresh e a),
                  ))
            | inr (v, met) ↦
                let e : first_after start mm₁.mmap_list ≡ some v =
                  ap (λ l. first_after start l) f.same
                  ∙ sym f.result
                  ∙ starts_before-some end found v met in
                rw met (
                  Ends-map
                    (unmap_from-Unmapped ptr start end mm₁ f.valid (omega arith) (omega arith) sane
                      fresh₁ v e)
                    λ r (valid', u). (valid', Unmapped-same ptr start end mm mm₁ r f.same u))
          ])
      λ outside. ends (valid, invalid outside refl)
