-- ===== src/Paging/Fault.antt =====
-- kern/mm/vmm.c: do_pgfault behind the checks of the area, with the entry of a shared memory and what the
-- swap device reads as inputs. The address is that of the page.
use os_edf.Prelude.{
  ℕ, ◌+◌, ◌≡◌, refl, Bool, true, false, not, ◌&&◌, ◌||◌, Option, none, some, ltb, ◌==◌,
  if◌then◌else◌,
}
use os_edf.Prelude.Int.{ℤ, pos, negsuc}
use os_edf.Prelude.Run.{Run, ok, panic, assert, ◌>>=◌, ◌>>◌}
use os_edf.Frames.{PhysicalMemory, alloc_pages, free_pages, page_ref, pa2page, set_word, copy_frame}
use os_edf.Swap.{swap_duplicate, swap_page_count, swap_duplicate-zero}
use os_edf.Swap.Space.{swap_in_page}
use os_edf.Paging.{present, writable, load_entry, get_pte, page_insert, pgdir_alloc_page}
use os_edf.Paging.Range.{read_only}

-- The fault at a page of shared memory that has no entry yet; the shared entry is none for a null pointer.
pub map_shared : ℕ → ℕ → ℕ → Option ℕ → ℕ × ℕ → PhysicalMemory → Run (ℤ × PhysicalMemory)
map_shared pgdir addr perm none ptep m = ok (negsuc 3, m)
map_shared pgdir addr perm (some w) ptep m =
    let map_page : Run (ℤ × PhysicalMemory) = do
      page ← pa2page w m
      (ret, m') ← page_insert pgdir page addr perm m
      ok (pos 0, m')
    in let take_entry : Run (ℤ × PhysicalMemory) = do
      m' ← swap_duplicate (load_entry ptep m) m
      ok (pos 0, set_word ptep.0 ptep.1 w m')
      in let filled = if present w then map_page else take_entry in
        if w == 0 then ok (negsuc 3, m) else filled

-- A page that is not used in the end goes back.
pub free_unused : Option ℕ → PhysicalMemory → Run PhysicalMemory
free_unused none m = ok m
free_unused (some page) m = free_pages page 1 m

-- The fault once the page is in memory; `ret` is what the code returns where it gives up.
pub map_copy : Bool → ℕ → ℕ → ℕ → ℕ → Option ℕ → ℤ → PhysicalMemory → Run (ℤ × PhysicalMemory)
map_copy copies pgdir addr perm page newpage ret m =
    let insert : ℕ → Option ℕ → PhysicalMemory → Run (ℤ × PhysicalMemory) = λ p unused m₁. do
      (done, m₂) ← page_insert pgdir p addr perm m₁
      m₃ ← free_unused unused m₂
      ok (pos 0, m₃)
    in let copy : Run (ℤ × PhysicalMemory) = elim newpage [
      | none ↦ ok (ret, m)
      | some p ↦ insert p none (copy_frame p page m)
    ] in
      let decide : Run (ℤ × PhysicalMemory) = do
        count ← swap_page_count page m
        if ltb 1 (page_ref page m + count) then copy else insert page newpage m
      in if copies then decide else insert page newpage m

-- The fault at an entry w that is not 0
pub map_again :
    (ℕ → Option (ℕ → ℕ)) → Bool → Bool → ℕ → ℕ → ℕ → ℕ → PhysicalMemory → Run (ℤ × PhysicalMemory)
map_again read write cow pgdir addr perm w m =
    let swapped : Option ℕ → PhysicalMemory → Run (ℤ × PhysicalMemory) = λ newpage m₁. do
      (found, ret, m₂) ← swap_in_page read w m₁
      elim found [
        | none ↦ do m₃ ← free_unused newpage m₂; ok (ret, m₃)
        | some page ↦
            if not write && cow
            then map_copy false pgdir addr (read_only perm) page newpage ret m₂
            else map_copy cow pgdir addr perm page newpage ret m₂
      ]
    in let in_memory : Option ℕ → PhysicalMemory → Run (ℤ × PhysicalMemory) = λ newpage m₁. do
      page ← pa2page w m₁
      map_copy cow pgdir addr perm page newpage (negsuc 3) m₁
      in do
        assert (not (present w) || (write && (not (writable w) && cow)))
        (newpage, m₁) ← if cow then alloc_pages 1 m else ok (none, m)
        if present w then in_memory newpage m₁ else swapped newpage m₁

pub do_pgfault_page :
    (ℕ → Option (ℕ → ℕ))
    → Bool
    → Bool
    → Bool
    → ℕ
    → ℕ
    → ℕ
    → Option ℕ
    → PhysicalMemory
    → Run (ℤ × PhysicalMemory)
do_pgfault_page read write share cow pgdir addr perm shared m =
    let private_page : PhysicalMemory → Run (ℤ × PhysicalMemory) = λ m₁. do
      (page, m₂) ← pgdir_alloc_page pgdir addr perm m₁
      ok (elim page [ none ↦ (negsuc 3, m₂) | some p ↦ (pos 0, m₂) ])
    in do
      (ptep, m₁) ← get_pte pgdir addr true m
      elim ptep [
        | none ↦ ok (negsuc 3, m₁)
        | some p ↦
            let first = if share then map_shared pgdir addr perm shared p m₁ else private_page m₁ in
            let again = map_again read write cow pgdir addr perm (load_entry p m₁) m₁ in
            if load_entry p m₁ == 0 then first else again
      ]

-- When the entry of a shared page is not 0 and not present, that is swapped out, and the
-- faulting address has no entry yet, the shared branch of do_pgfault panics.
pub map_shared-panics :
    (pgdir addr perm w : ℕ) (ptep : ℕ × ℕ) (m : PhysicalMemory)
    → (w == 0) ≡ false
    → present w ≡ false
    → load_entry ptep m ≡ 0
    → map_shared pgdir addr perm (some w) ptep m ≡ panic
unfolding map_shared
map_shared-panics pgdir addr perm w ptep m some_entry absent none_there =
    rw (some_entry, absent, none_there, swap_duplicate-zero m) refl
