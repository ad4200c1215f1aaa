-- ===== src/Swap/Space.antt =====
-- kern/mm/swap.c: what reads and writes the swap space. The swap device is an input: what a read of
-- an entry brings, none for an error, and whether a write of an entry succeeds.
use os_edf.Prelude.{
  ℕ, zero, suc, ◌+◌, ◌%◌, ◌^◌, Bool, true, false, not, ◌&&◌, List, [], ◌∷◌, Option, none, some,
  ◌==◌, if◌then◌else◌,
}
use os_edf.Prelude.Int.{ℤ, pos, negsuc}
use os_edf.Prelude.Run.{Run, ok, assert, ◌>>=◌, ◌>>◌}
use os_edf.Buddy.{set_at}
use os_edf.Frames.{PhysicalMemory, alloc_pages, free_pages, page_ref, copy_frame}
use os_edf.Swap.{
  swap_offset, set_count, swap_active_list_add, swap_inactive_list_add, swap_list_del,
  swap_free_page, swap_hash_find, swap_page_add, swap_duplicate, swap_remove_entry,
  try_free_swap_entry,
}

-- swap_in_page behind the searches: the new page is filled.
pub fill_page : (ℕ → Option (ℕ → ℕ)) → ℕ → ℕ → PhysicalMemory → Run (Option ℕ × ℤ × PhysicalMemory)
fill_page read entry page m = elim (read entry) [
  | none ↦ do m' ← free_pages page 1 m; ok (none, negsuc 6, m')
  | some words ↦ do
    (added, m₁) ← swap_page_add page entry (record m { words = set_at page words m.words })
    m₂ ← swap_active_list_add page m₁
    ok (some page, pos 0, m₂)
]

pub swap_in_page : (ℕ → Option (ℕ → ℕ)) → ℕ → PhysicalMemory → Run (Option ℕ × ℤ × PhysicalMemory)
swap_in_page read entry m = do
  offset ← swap_offset entry m
  elim (swap_hash_find entry m) [
    | some page ↦ ok (some page, pos 0, m)
    | none ↦ do
      (newpage, m') ← alloc_pages 1 m
      elim newpage [ none ↦ ok (none, negsuc 3, m') | some page ↦ fill_page read entry page m' ]
  ]

-- swap_copy_entry, from the new page on
pub copy_to_page :
    (ℕ → Option (ℕ → ℕ)) → ℕ → ℕ → PhysicalMemory → Run (Option ℕ × ℤ × PhysicalMemory)
copy_to_page read entry newpage m = do
  (found, ret, m₁) ← swap_in_page read entry m
  elim found [
    | none ↦ do m₂ ← free_pages newpage 1 m₁; ok (none, ret, m₂)
    | some page ↦ do
      (added, m₂) ← swap_page_add newpage 0 m₁
      let refuse : Run (Option ℕ × ℤ × PhysicalMemory) = do
        m₃ ← free_pages newpage 1 m₂
        ok (none, negsuc 3, m₃)
      let copy : Run (Option ℕ × ℤ × PhysicalMemory) = do
        m₃ ← swap_active_list_add newpage m₂
        ok (some (m₃.index newpage), pos 0, copy_frame newpage page m₃)
      if added then copy else refuse
  ]

-- What it stores at `store`, none if it stores nothing, and what it returns
pub swap_copy_entry :
    (ℕ → Option (ℕ → ℕ)) → ℕ → PhysicalMemory → Run (Option ℕ × ℤ × PhysicalMemory)
swap_copy_entry read entry m = do
  m₁ ← swap_duplicate entry m
  (newpage, m₂) ← alloc_pages 1 m₁
  (stored, ret, m₃) ← elim newpage [
    | none ↦ ok (none, negsuc 3, m₂)
    | some page ↦ copy_to_page read entry page m₂
  ]
  m₄ ← swap_remove_entry entry m₃
  ok (stored, ret, m₄)

-- page_launder for one dirty page: whether it may be freed
pub write_page : (ℕ → Bool) → ℕ → ℕ → PhysicalMemory → Run (Bool × PhysicalMemory)
write_page write entry page m =
    let clean : PhysicalMemory = record m { page_dirty = set_at page false m.page_dirty } in
    do
      m₁ ← swap_duplicate entry clean
      let m₂ : PhysicalMemory =
          if write entry then m₁ else record m₁ { page_dirty = set_at page true m₁.page_dirty }
      offset ← swap_offset entry m₂
      let m₃ : PhysicalMemory = set_count offset ((m₂.mem_map offset + 65535) % 2 ^ 16) m₂
      let again : Run (Bool × PhysicalMemory) = do
        m₄ ← swap_inactive_list_add page m₃
        ok (false, m₄)
      let done : Run (Bool × PhysicalMemory) = do
        (freed, m₄) ← try_free_swap_entry entry m₃
        ok (true, m₄)
      let unused = if m₃.page_dirty page then again else done
      let active : Run (Bool × PhysicalMemory) = do
        m₄ ← swap_active_list_add page m₃
        ok (false, m₄)
      if not (page_ref page m₃ == 0) then active else unused

-- One round of page_launder for a page without a reference
pub launder_page : (ℕ → Bool) → ℕ → PhysicalMemory → Run (ℕ × PhysicalMemory)
launder_page write page m = do
  (unused, m₁) ← try_free_swap_entry (m.index page) m
  let clean : Run (Bool × PhysicalMemory) = ok (true, m₁)
  let dirty = write_page write (m.index page) page m₁
  (free_it, m₂) ← if not unused && m₁.page_dirty page then dirty else clean
  let freed : Run (ℕ × PhysicalMemory) = do m₃ ← swap_free_page page m₂; ok (1, m₃)
  if free_it then freed else ok (0, m₂)

-- The loop of page_launder, over the pages from `le` on, with the pages freed so far
pub launder_loop : (ℕ → Bool) → ℕ → List ℕ → ℕ → PhysicalMemory → Run (ℕ × PhysicalMemory)
launder_loop write zero pages count m = ok (count, m)
launder_loop write (suc maxscan) [] count m = ok (count, m)
launder_loop write (suc maxscan) (page ∷ pages) count m =
    let keep : PhysicalMemory → Run (ℕ × PhysicalMemory) =
      λ m₁. do m₂ ← swap_active_list_add page m₁; ok (0, m₂)
    in do
      assert (m.page_swap page && not (m.page_active page))
      m₁ ← swap_list_del page m
      (freed, m₂) ← if not (page_ref page m₁ == 0) then keep m₁ else launder_page write page m₁
      launder_loop write maxscan pages (count + freed) m₂

pub page_launder : (ℕ → Bool) → PhysicalMemory → Run (ℕ × PhysicalMemory)
page_launder write m = launder_loop write m.inactive_list.nr_pages m.inactive_list.swap_list 0 m
