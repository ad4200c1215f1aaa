-- ===== src/Paging.antt =====
-- kern/mm/pmm.c: page tables. A page directory is the frame of its page, a word of a table is named by
-- the page of the table and the index in it.
pub mod Range
pub mod Tables
pub mod NewTable
pub mod GetPte
pub mod Entries
pub mod Drop
pub mod Release
pub mod Replace
pub mod Insert
pub mod GetPage
pub mod Remove
pub mod Fault
mod Tests
use os_edf.Prelude.{
  ℕ, zero, suc, ◌+◌, ◌-◌, ◌*◌, ◌/◌, ◌%◌, ◌^◌, Bool, true, false, not, ◌&&◌, ◌||◌, List, [], ◌∷◌,
  Option, none, some, ltb, leb, ◌==◌, if◌then◌else◌,
}
use os_edf.Prelude.Int.{ℤ, pos, negsuc}
use os_edf.Prelude.Run.{Run, ok, out_of_fuel, assert, ◌>>=◌, ◌>>◌}
use os_edf.Buddy.{set_at}
use os_edf.Frames.{
  PhysicalMemory, word_or, alloc_pages, free_pages, page_ref, set_page_ref, page_ref_inc,
  page_ref_dec, pa2page, kaddr, set_word, clear_frame,
}
use os_edf.Swap.{swap_remove_entry}

-- The parts of a linear address
abbrev pub pdx : ℕ → ℕ
pdx la = la / 4194304 % 1024

abbrev pub ptx : ℕ → ℕ
ptx la = la / 4096 % 1024

-- *ptep & PTE_P, PTE_W and PTE_D
abbrev pub present : ℕ → Bool
present w = w % 2 == 1

abbrev pub writable : ℕ → Bool
writable w = w / 2 % 2 == 1

abbrev pub dirty : ℕ → Bool
dirty w = w / 64 % 2 == 1

abbrev pub load_entry : ℕ × ℕ → PhysicalMemory → ℕ
load_entry ptep m = m.words ptep.0 ptep.1

-- page2pa(page) | PTE_P | perm
abbrev pub entry_of : ℕ → ℕ → ℕ
entry_of page perm = word_or (word_or (page * 4096) 1) perm

-- pa | PTE_U | PTE_W | PTE_P
abbrev pub directory_entry : ℕ → ℕ
directory_entry page = word_or (page * 4096) 7

-- The allocation of a page table in get_pte
pub new_table : ℕ → ℕ → ℕ → PhysicalMemory → Run PhysicalMemory
new_table page pgdir la m = do
  let m₁ : PhysicalMemory = set_page_ref page 1 m
  frame ← kaddr (page * 4096) m₁
  ok (set_word pgdir (pdx la) (directory_entry page) (clear_frame frame m₁))

-- The last line of get_pte
pub table_entry : ℕ → ℕ → PhysicalMemory → Run (Option (ℕ × ℕ) × PhysicalMemory)
table_entry pgdir la m = do table ← kaddr (m.words pgdir (pdx la)) m; ok (some (table, ptx la), m)

pub get_pte : ℕ → ℕ → Bool → PhysicalMemory → Run (Option (ℕ × ℕ) × PhysicalMemory)
get_pte pgdir la create m =
    let make : Run (Option (ℕ × ℕ) × PhysicalMemory) = do
      (page, m₁) ← alloc_pages 1 m
      elim page [
        | none ↦ ok (none, m₁)
        | some p ↦ do m₂ ← new_table p pgdir la m₁; table_entry pgdir la m₂
      ]
    in let absent = if create then make else ok (none, m) in
      if present (m.words pgdir (pdx la)) then table_entry pgdir la m else absent

pub get_page : ℕ → ℕ → PhysicalMemory → Run (Option ℕ)
get_page pgdir la m = do
  (ptep, m') ← get_pte pgdir la false m
  elim ptep [
    | none ↦ ok none
    | some p ↦
        let found : Run (Option ℕ) = do page ← pa2page (load_entry p m') m'; ok (some page)
        in if present (load_entry p m') then found else ok none
  ]

-- page_remove_pte for a present entry of the page; the TLB is the hardware's
pub release_page : ℕ → ℕ → PhysicalMemory → Run PhysicalMemory
release_page page entry m =
    let less : PhysicalMemory = page_ref_dec page m in
    let marked : PhysicalMemory = record m { page_dirty = set_at page true m.page_dirty } in
    let own = if page_ref page less == 0 then free_pages page 1 less else ok less in
    let swapped : Run PhysicalMemory = ok (page_ref_dec page (if dirty entry then marked else m)) in
    if not (m.page_swap page) then own else swapped

pub page_remove_pte : ℕ × ℕ → PhysicalMemory → Run PhysicalMemory
page_remove_pte ptep m =
    let unmap : Run PhysicalMemory = do
      page ← pa2page (load_entry ptep m) m
      m' ← release_page page (load_entry ptep m) m
      ok (set_word ptep.0 ptep.1 0 m')
    in let forget : Run PhysicalMemory = do
      m' ← swap_remove_entry (load_entry ptep m) m
      ok (set_word ptep.0 ptep.1 0 m')
      in let absent = if not (load_entry ptep m == 0) then forget else ok m in
        if present (load_entry ptep m) then unmap else absent

pub page_remove : ℕ → ℕ → PhysicalMemory → Run PhysicalMemory
page_remove pgdir la m = do
  (ptep, m') ← get_pte pgdir la false m
  elim ptep [ none ↦ ok m' | some p ↦ page_remove_pte p m' ]

-- page_insert between get_pte and `out`
pub replace : ℕ → ℕ × ℕ → PhysicalMemory → Run PhysicalMemory
replace page ptep m =
    let more : PhysicalMemory = page_ref_inc page m in
    let removed : Run PhysicalMemory = page_remove_pte ptep more in
    let mapped : Run PhysicalMemory = do
      old ← pa2page (load_entry ptep more) more
      if old == page then ok (page_ref_dec page more) else removed
    in let filled = if present (load_entry ptep more) then mapped else removed in
      if not (load_entry ptep more == 0) then filled else ok more

pub page_insert : ℕ → ℕ → ℕ → ℕ → PhysicalMemory → Run (ℤ × PhysicalMemory)
page_insert pgdir page la perm m = do
  (ptep, m₁) ← get_pte pgdir la true m
  elim ptep [
    | none ↦ ok (negsuc 3, m₁)
    | some p ↦ do m₂ ← replace page p m₁; ok (pos 0, set_word p.0 p.1 (entry_of page perm) m₂)
  ]

pub pgdir_alloc_page : ℕ → ℕ → ℕ → PhysicalMemory → Run (Option ℕ × PhysicalMemory)
pgdir_alloc_page pgdir la perm m = do
  (page, m₁) ← alloc_pages 1 m
  elim page [
    | none ↦ ok (none, m₁)
    | some p ↦ do
      (ret, m₂) ← page_insert pgdir p la perm m₁
      elim ret [ pos zero ↦ ok (some p, m₂) | _ ↦ do m₃ ← free_pages p 1 m₂; ok (none, m₃) ]
  ]
