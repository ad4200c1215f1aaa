-- ===== src/Vm/Map.antt =====
-- mm_map: a range that overlaps no area becomes one; any other request leaves the areas alone.
use os_edf.Prelude.{
  ℕ, ◌+◌, ◌%◌, ◌^◌, ◌≤◌, ◌<◌, ◌≡◌, ◌≢◌, refl, sym, subst, ap, ◌⊎◌, inl, inr, ◌∙◌, Bool-cases, true,
  false, ◌||◌, List, [], ◌∷◌, Option-cases, none, some, arith, ltb, leb, ◌==◌, if◌then◌else◌,
}
use os_edf.Prelude.Int.{ℤ, pos, negsuc}
use os_edf.Prelude.Run.{ok, Ends, ◌>>=◌, ends, Ends-bind, Ends-if}
use os_edf.Vm.{
  Vma, Mm, first_after, starts_before, vma_create, unshared, mm_map, round_down, round_up,
  user_access, insert_vma_struct,
}
use os_edf.Vm.Areas.{NotAt, Areas, within, covered, Apart, IsValid}
use os_edf.Vm.Insert.{insert_vma_struct-Added}
use os_edf.Vm.Find.{find_vma-Found}

-- Below a list
Apart-below :
    (lo : ℕ) (v : Vma) (vs : List Vma) → Areas lo vs → v.vm_end ≤ lo → NotAt v.ptr vs → Apart v vs
Apart-below lo v [] areas h n = tt
Apart-below lo v (x ∷ vs) areas h n = (
  (n.0, inl (omega (arith, areas.0))),
  Apart-below x.vm_end v vs areas.3 (omega (arith, areas.0, areas.1.0)) n.1,
)

-- With no area found in the way, an area of the range is apart from all.
pub starts_before-Apart :
    (lo start end : ℕ) (vs : List Vma) (v : Vma)
    → Areas lo vs
    → starts_before end (first_after start vs) ≡ none
    → NotAt v.ptr vs
    → v.vm_start ≡ start
    → v.vm_end ≡ end
    → Apart v vs
unfolding first_after
starts_before-Apart lo start end [] v areas e n p q = tt
starts_before-Apart lo start end (x ∷ vs) v areas e n p q = elim (Bool-cases (ltb start x.vm_end)) [
  | inl first ↦
      let before : v.vm_end ≤ x.vm_start = let e' = rw first at e in ground arith in
      ((n.0, inl before), Apart-below x.vm_end v vs areas.3 (omega (arith, areas.1.0)) n.1)
  | inr later ↦
      let behind : x.vm_end ≤ v.vm_start = ground arith in
      (
        (n.0, inr behind),
        starts_before-Apart x.vm_end start end vs v areas.3 (rw later at e) n.1 p q,
      )
]

-- An area found in the way shares an address with the range.
starts_before-covered :
    (lo start end : ℕ) (vs : List Vma) (w : Vma)
    → Areas lo vs
    → start < end
    → starts_before end (first_after start vs) ≡ some w
    → (a : ℕ) × (within start end a ≡ true) × (covered a vs ≡ true)
unfolding first_after covered
starts_before-covered lo start end [] w areas h e = absurd (cc)
starts_before-covered lo start end (x ∷ vs) w areas h e = elim (Bool-cases (ltb start x.vm_end)) [
  | inl first ↦
      let late : x.vm_start < end = let e' = rw first at e in ground arith in
      let a = if leb start x.vm_start then x.vm_start else start in
      (a, ground arith, ground (arith, areas.1.0))
  | inr later ↦
      let (a, p, q) = starts_before-covered x.vm_end start end vs w areas.3 h (rw later at e) in
      (a, p, ground arith)
]

-- The two ways mm_map ends
pub data Mapped (ptr start end : ℕ) (mm : Mm) : Mm × ℤ → Type 0 where
  mapped :
      {mm' : Mm}
      → ((a : ℕ) → within start end a ≡ true → covered a mm.mmap_list ≡ false)
      → ((a : ℕ) → covered a mm'.mmap_list ≡ (within start end a || covered a mm.mmap_list))
      → Mapped ptr start end mm (mm', pos 0)
  no_memory :
      {mm' : Mm} → ptr ≡ 0 → mm'.mmap_list ≡ mm.mmap_list → Mapped ptr start end mm (mm', negsuc 3)
  invalid :
      {mm' : Mm}
      → (user_access start end ≡ false)
        ⊎ ((a : ℕ) × (within start end a ≡ true) × (covered a mm.mmap_list ≡ true))
      → mm'.mmap_list ≡ mm.mmap_list
      → Mapped ptr start end mm (mm', negsuc 2)

-- An area that is apart from a list has none of its addresses covered.
pub Apart-covered :
    (v : Vma) (vs : List Vma) (a : ℕ)
    → Apart v vs
    → within v.vm_start v.vm_end a ≡ true
    → covered a vs ≡ false
unfolding covered
Apart-covered v [] a h g = refl
Apart-covered v (x ∷ vs) a h g = ground (arith, h.0.1, Apart-covered v vs a h.1 g)

abbrev pub area_with : ℕ → ℕ → ℕ → ℕ → Vma
area_with ptr start end flags = record {
  ptr = ptr;
  vm_start = start;
  vm_end = end;
  vm_flags = flags;
  shmem = 0;
  shmem_off = 0;
}

-- The area is made and put into the list.
created-Mapped :
    (ptr start end flags : ℕ) (mm mm₁ : Mm)
    → IsValid mm
    → IsValid mm₁
    → mm₁.mmap_list ≡ mm.mmap_list
    → start < end
    → start % 4096 ≡ 0
    → end % 4096 ≡ 0
    → ptr ≢ 0
    → NotAt ptr mm.mmap_list
    → starts_before end (first_after start mm.mmap_list) ≡ none
    → Ends
        (λ r. IsValid r.0 × Mapped ptr start end mm r)
        (do mm₂ ← insert_vma_struct (area_with ptr start end flags) mm₁; ok (mm₂, pos 0))
created-Mapped ptr start end flags mm mm₁ valid valid₁ same sane low high real fresh free =
    let v = area_with ptr start end flags in
    let apart : Apart v mm.mmap_list =
      starts_before-Apart 0 start end mm.mmap_list v valid.areas free fresh refl refl in
    let apart₁ = subst (λ l. Apart v l) (sym same) apart in
    Ends-bind (insert_vma_struct-Added v mm₁ valid₁ (sane, low, high, real) apart₁) λ mm₂ added.
      ends (
        added.valid,
        mapped (λ a h. Apart-covered v mm.mmap_list a apart h)
            (λ a. added.inserted.covers a ∙ ap (λ l. within start end a || covered a l) same),
      )

-- On valid areas, with the pointer that kmalloc gives not that of an area, mm_map ends with
-- valid areas, and: it returns 0, none of the rounded range was covered, and now exactly it is
-- covered besides; or it returns -E_NO_MEM, for a null pointer; or -E_INVAL, for no user range
-- or one of which some address is covered; the last two with the areas as they were.
pub mm_map-Mapped :
    (ptr addr len flags : ℕ) (mm : Mm)
    → IsValid mm
    → NotAt ptr mm.mmap_list
    → Ends
        (λ r. IsValid r.0 × Mapped ptr (round_down addr) (round_up ((addr + len) % 2 ^ 32)) mm r)
        (mm_map ptr addr len flags mm)
unfolding mm_map vma_create
mm_map-Mapped ptr addr len flags mm valid fresh =
    let start = round_down addr in
    let end = round_up ((addr + len) % 2 ^ 32) in
    Ends-if (user_access start end)
      (λ user.
        let sane : start < end = ground arith in
        Ends-bind (find_vma-Found start mm valid) λ (found, mm₁) f.
          elim (Option-cases (starts_before end found)) [
            | inl free ↦
                let e = subst (λ r. starts_before end r ≡ none) f.result free in
                rw free (elim (Bool-cases (ptr == 0)) [
                  | inl null ↦ rw null (ends (f.valid, no_memory (ground arith) f.same))
                  | inr real ↦ rw real (
                      created-Mapped ptr start end (unshared flags) mm mm₁ valid f.valid f.same sane
                        (omega arith) (omega arith) (ground arith) fresh e)
                ])
            | inr (w, taken) ↦
                let e = subst (λ r. starts_before end r ≡ some w) f.result taken in
                rw taken (
                  ends (
                    f.valid,
                    invalid
                        (inr (starts_before-covered 0 start end mm.mmap_list w valid.areas sane e))
                        f.same,
                  ))
          ])
      λ outside. ends (valid, invalid (inl outside) refl)
