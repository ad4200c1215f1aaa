-- ===== src/Paging/Range.antt =====
-- kern/mm/pmm.c: page tables over a range of addresses. Addresses wrap around at 2^32.
use os_edf.Prelude.{
  ℕ, zero, suc, ◌+◌, ◌-◌, ◌*◌, ◌/◌, ◌%◌, ◌^◌, Bool, true, false, not, ◌&&◌, Option, none, some, ltb,
  ◌==◌, if◌then◌else◌,
}
use os_edf.Prelude.Int.{ℤ, pos, negsuc}
use os_edf.Prelude.Run.{Run, ok, out_of_fuel, assert, ◌>>=◌, ◌>>◌}
use os_edf.Vm.{page_size, user_access}
use os_edf.Frames.{PhysicalMemory, word_or, pa2page, free_pages, set_word}
use os_edf.Swap.{swap_duplicate}
use os_edf.Paging.{pdx, present, writable, load_entry, get_pte, page_remove_pte, page_insert}

abbrev pub table_size : ℕ
table_size = 4194304

-- ROUNDDOWN(start + PTSIZE, PTSIZE)
abbrev pub next_table : ℕ → ℕ
next_table start = let a = (start + table_size) % 2 ^ 32 in a - a % table_size

abbrev pub next_page : ℕ → ℕ
next_page start = (start + page_size) % 2 ^ 32

-- One round of unmap_range; the address of the next
pub unmap_round : ℕ → ℕ → PhysicalMemory → Run (ℕ × PhysicalMemory)
unmap_round pgdir start m = do
  (ptep, m₁) ← get_pte pgdir start false m
  elim ptep [
    | none ↦ ok (next_table start, m₁)
    | some p ↦ do
      m₂ ← if not (load_entry p m₁ == 0) then page_remove_pte p m₁ else ok m₁
      ok (next_page start, m₂)
  ]

pub unmap_loop : ℕ → ℕ → ℕ → ℕ → PhysicalMemory → Run PhysicalMemory
unmap_loop zero pgdir start end m = out_of_fuel
unmap_loop (suc fuel) pgdir start end m = do
  (next, m') ← unmap_round pgdir start m
  if not (next == 0) && ltb next end then unmap_loop fuel pgdir next end m' else ok m'

pub unmap_range : ℕ → ℕ → ℕ → ℕ → PhysicalMemory → Run PhysicalMemory
unmap_range fuel pgdir start end m = do
  assert (start % page_size == 0 && end % page_size == 0)
  assert (user_access start end)
  unmap_loop fuel pgdir start end m

pub exit_round : ℕ → ℕ → PhysicalMemory → Run PhysicalMemory
exit_round pgdir start m =
    let drop : Run PhysicalMemory = do
      table ← pa2page (m.words pgdir (pdx start)) m
      m' ← free_pages table 1 m
      ok (set_word pgdir (pdx start) 0 m')
    in if present (m.words pgdir (pdx start)) then drop else ok m

pub exit_loop : ℕ → ℕ → ℕ → ℕ → PhysicalMemory → Run PhysicalMemory
exit_loop zero pgdir start end m = out_of_fuel
exit_loop (suc fuel) pgdir start end m = do
  m' ← exit_round pgdir start m
  let next = (start + table_size) % 2 ^ 32
  if not (next == 0) && ltb next end then exit_loop fuel pgdir next end m' else ok m'

pub exit_range : ℕ → ℕ → ℕ → ℕ → PhysicalMemory → Run PhysicalMemory
exit_range fuel pgdir start end m = do
  assert (start % page_size == 0 && end % page_size == 0)
  assert (user_access start end)
  exit_loop fuel pgdir (start - start % table_size) end m

-- *ptep & PTE_USER, with the parts PTE_P, PTE_W and PTE_U
abbrev pub user_flags : ℕ → ℕ
user_flags w = w % 8

-- *ptep & PTE_SWAP, with the parts PTE_A and PTE_D
abbrev pub swap_flags : ℕ → ℕ
swap_flags w = w / 32 % 4 * 32

-- perm & ~PTE_W
abbrev pub read_only : ℕ → ℕ
read_only perm = if writable perm then perm - 2 else perm

-- copy_range for an entry of the source, at the place of the target's
pub copy_entry : Bool → ℕ → ℕ → ℕ → ℕ × ℕ → ℕ × ℕ → PhysicalMemory → Run PhysicalMemory
copy_entry share to from start ptep nptep m =
    let w = load_entry ptep m in
    let protect = not share && writable w in
    let perm = if protect then read_only (user_flags w) else user_flags w in
    let map_page : Run PhysicalMemory = do
      page ← pa2page w m
      m₁ ←
          if protect
          then (page_insert from page start (word_or perm (swap_flags w)) m >>= λ r. ok r.1)
          else ok m
      (ret, m₂) ← page_insert to page start perm m₁
      assert (elim ret [ pos zero ↦ true | _ ↦ false ])
      ok m₂
    in let duplicate : Run PhysicalMemory = do
      m₁ ← swap_duplicate w m
      ok (set_word nptep.0 nptep.1 w m₁)
      in do
        assert (not (w == 0) && (load_entry nptep m == 0))
        if present w then map_page else duplicate

-- One round of copy_range: the address of the next, none after a failed allocation
pub copy_round : Bool → ℕ → ℕ → ℕ → PhysicalMemory → Run (Option ℕ × PhysicalMemory)
copy_round share to from start m = do
  (ptep, m₁) ← get_pte from start false m
  elim ptep [
    | none ↦ ok (some (next_table start), m₁)
    | some p ↦
        let copy : Run (Option ℕ × PhysicalMemory) = do
          (nptep, m₂) ← get_pte to start true m₁
          elim nptep [
            | none ↦ ok (none, m₂)
            | some np ↦ do
              m₃ ← copy_entry share to from start p np m₂
              ok (some (next_page start), m₃)
          ]
        in if not (load_entry p m₁ == 0) then copy else ok (some (next_page start), m₁)
  ]

pub copy_loop : ℕ → Bool → ℕ → ℕ → ℕ → ℕ → PhysicalMemory → Run (ℤ × PhysicalMemory)
copy_loop zero share to from start end m = out_of_fuel
copy_loop (suc fuel) share to from start end m = do
  (next, m') ← copy_round share to from start m
  elim next [
    | none ↦ ok (negsuc 3, m')
    | some a ↦
        if not (a == 0) && ltb a end then copy_loop fuel share to from a end m' else ok (pos 0, m')
  ]

pub copy_range : ℕ → Bool → ℕ → ℕ → ℕ → ℕ → PhysicalMemory → Run (ℤ × PhysicalMemory)
copy_range fuel share to from start end m = do
  assert (start % page_size == 0 && end % page_size == 0)
  assert (user_access start end)
  copy_loop fuel share to from start end m
