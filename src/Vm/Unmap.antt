-- ===== src/Vm/Unmap.antt =====
-- The second loop of mm_unmap: what is left of the areas that met the range returns to the list.
use os_edf.Prelude.{
  ℕ, ◌+◌, ◌-◌, ◌%◌, ◌≤◌, ◌<◌, ◌≡◌, refl, inl, inr, Bool-cases, true, not, ◌&&◌, ◌||◌, List, [], ◌∷◌,
  arith, ltb, leb, ◌==◌, if◌then◌else◌,
}
use os_edf.Prelude.Run.{ok, ◌>>=◌, Ends, ends, Ends-bind, Ends-map}
use os_edf.Vm.{
  Vma, Mm, has_flag, vm_share, log_unmap, put_back, put_back_one, vma_resize, vma_destroy,
  insert_vma_struct,
}
use os_edf.Vm.Areas.{IsArea, within, covered, Apart, ApartFrom, IsValid}
use os_edf.Vm.TakeOut.{Hit, Loose, ApartFrom-sym}
use os_edf.Vm.Insert.{insert_vma_struct-Added}

abbrev pub resized : ℕ → ℕ → Vma → Vma
resized start end v = record v {
  vm_start = start;
  vm_end = end;
  shmem_off =
      if has_flag v.vm_flags vm_share then v.shmem_off + (start - v.vm_start) else v.shmem_off;
}

pub vma_resize-ok :
    (start end : ℕ) (v : Vma)
    → start % 4096 ≡ 0
    → end % 4096 ≡ 0
    → v.vm_start ≤ start
    → start < end
    → end ≤ v.vm_end
    → vma_resize start end v ≡ ok (resized start end v)
unfolding vma_resize
vma_resize-ok start end v p q h g i =
    let aligned : ((start % 4096 == 0) && (end % 4096 == 0)) ≡ true = ground arith in
    let inside : (leb v.vm_start start && (ltb start end && leb end v.vm_end)) ≡ true =
      ground arith in
    rw aligned rw inside refl

ApartFrom-resized :
    (start end : ℕ) (v x : Vma)
    → v.vm_start ≤ start
    → end ≤ v.vm_end
    → ApartFrom x v
    → ApartFrom x (resized start end v)
ApartFrom-resized start end v x h g a = (a.0, omega (arith, a.1))

Apart-resized :
    (start end : ℕ) (v : Vma) (vs : List Vma)
    → v.vm_start ≤ start
    → end ≤ v.vm_end
    → Apart v vs
    → Apart (resized start end v) vs
Apart-resized start end v [] h g a = tt
Apart-resized start end v (x ∷ vs) h g a =
    ((a.0.0, omega (arith, a.0.1)), Apart-resized start end v vs h g a.1)

-- The logs do not count.
pub IsValid-logs :
    (mm : Mm) (us : List (ℕ × ℕ)) (ds : List Vma)
    → IsValid mm
    → IsValid (record mm { unmapped = us; destroyed = ds })
IsValid-logs mm us ds v = record { areas = v.areas; counted = v.counted; cache = v.cache }

module _ (start end : ℕ) where
  Loose-insert :
      (v : Vma) (vs vs' fs : List Vma)
      → ((x : Vma) → Apart x vs → ApartFrom x v → Apart x vs')
      → Apart v fs
      → Loose start end vs fs
      → Loose start end vs' fs
  Loose-insert v vs vs' [] keep n l = tt
  Loose-insert v vs vs' (x ∷ fs) keep n l = (
    l.0,
    l.1,
    l.2,
    keep x l.3 (ApartFrom-sym v x n.0),
    l.4,
    Loose-insert v vs vs' fs keep n.1 l.5,
  )

  -- What one round of the second loop leaves
  pub record Returned (v : Vma) (mm mm' : Mm) : Type 0 where
    pub valid : IsValid mm'
    pub covers :
        (a : ℕ)
        → covered a mm'.mmap_list
          ≡ (covered a mm.mmap_list || (within v.vm_start v.vm_end a && not (within start end a)))
    pub apart : (x : Vma) → Apart x mm.mmap_list → ApartFrom x v → Apart x mm'.mmap_list

  -- A part w of v goes back.
  insert-Returned :
      (v w : Vma) (mm : Mm) (from to : ℕ)
      → IsValid mm
      → IsArea w
      → Apart w mm.mmap_list
      → ((x : Vma) → ApartFrom x v → ApartFrom x w)
      → ((a : ℕ)
          → within w.vm_start w.vm_end a
            ≡ (within v.vm_start v.vm_end a && not (within start end a)))
      → Ends (Returned v mm) (do mm' ← insert_vma_struct w mm; ok (log_unmap from to mm'))
  insert-Returned v w mm from to valid area apart smaller part =
      Ends-bind (insert_vma_struct-Added w mm valid area apart) λ mm' added. ends (record {
        valid = IsValid-logs mm' _ _ added.valid;
        covers = λ a. ground (arith, added.inserted.covers a, part a);
        apart = λ x h g. added.inserted.apart x h (smaller x g);
      })

  put_back_one-Returned :
      (v : Vma) (mm : Mm)
      → start % 4096 ≡ 0
      → end % 4096 ≡ 0
      → start < end
      → IsValid mm
      → IsArea v
      → v.vm_start < end
      → Hit start end v
      → Apart v mm.mmap_list
      → Ends (Returned v mm) (put_back_one start end v mm)
  unfolding put_back_one vma_destroy
  put_back_one-Returned v mm low high sane valid area meets hit apart =
      elim (Bool-cases (ltb v.vm_start start)) [
        | inl left ↦
            let before : v.vm_start < start = ground arith in
            let inside : v.vm_end ≤ end = omega (arith, hit.1) in
            let in_order : start ≤ v.vm_end = omega (arith, hit.0) in
            let w = resized v.vm_start start v in
            rw left rw (vma_resize-ok v.vm_start start v area.1 low (omega arith) before in_order) (
              insert-Returned v w mm start v.vm_end valid (before, area.1, low, area.3)
                (Apart-resized v.vm_start start v mm.mmap_list (omega arith) in_order apart)
                (λ x h. ApartFrom-resized v.vm_start start v x (omega arith) in_order h)
                λ a. ground (arith, hit.0))
        | inr right ↦ rw right (elim (Bool-cases (ltb end v.vm_end)) [
          | inl out ↦
              let behind : start ≤ v.vm_start = ground arith in
              let after : end < v.vm_end = ground arith in
              let in_order : v.vm_start ≤ end = omega (arith, meets) in
              let w = resized end v.vm_end v in
              rw out rw (vma_resize-ok end v.vm_end v high area.2 in_order after (omega arith)) (
                insert-Returned v w mm v.vm_start end valid (after, high, area.2, area.3)
                  (Apart-resized end v.vm_end v mm.mmap_list in_order (omega arith) apart)
                  (λ x h. ApartFrom-resized end v.vm_end v x in_order (omega arith) h)
                  λ a. ground arith)
          | inr inside ↦ rw inside (
              ends (record {
                valid = IsValid-logs mm _ _ valid;
                covers = λ a. ground (arith, hit.1);
                apart = λ x h g. h;
              }))
        ])
      ]

  pub put_back-Ends :
      (fs : List Vma) (mm : Mm)
      → start % 4096 ≡ 0
      → end % 4096 ≡ 0
      → start < end
      → IsValid mm
      → Loose start end mm.mmap_list fs
      → Ends
          (λ mm'.
            IsValid mm'
            × ((a : ℕ)
                → covered a mm'.mmap_list
                  ≡ (covered a mm.mmap_list || (covered a fs && not (within start end a)))))
          (put_back start end fs mm)
  unfolding put_back covered
  put_back-Ends [] mm low high sane valid loose = ends (valid, λ a. ground arith)
  put_back-Ends (v ∷ fs) mm low high sane valid loose =
      Ends-bind (put_back_one-Returned v mm low high sane valid loose.0 loose.1 loose.2 loose.3)
        λ mm₁ r.
          Ends-map
            (put_back-Ends fs mm₁ low high sane r.valid
              (Loose-insert v mm.mmap_list mm₁.mmap_list fs r.apart loose.4 loose.5))
            λ mm₂ (valid₂, covers). (valid₂, λ a. ground (arith, covers a, r.covers a))
