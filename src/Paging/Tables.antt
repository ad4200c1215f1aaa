-- ===== src/Paging/Tables.antt =====
-- What get_pte does to the entries of a page directory.
use os_edf.Prelude.{
  ℕ, ◌/◌, ◌<◌, ◌≤◌, ◌≡◌, refl, true, false, ◌==◌, if◌then◌else◌, arith, Option, none, some, ltb,
}
use os_edf.Prelude.Run.{Ends, ends}
use os_edf.Buddy.State.{free_at}
use os_edf.Buddy.Homes.{Sound}
use os_edf.Buddy.Release.{Frame, Frame-refl}
use os_edf.Frames.{PhysicalMemory, page_ref, kaddr}
use os_edf.Paging.{pdx, ptx, present, table_entry}

abbrev pub table_of : ℕ → ℕ → PhysicalMemory → ℕ
table_of pgdir i m = m.words pgdir i / 4096

-- The entry of an address, 0 where it has no page table
abbrev pub entry_at : ℕ → ℕ → PhysicalMemory → ℕ
entry_at pgdir la m =
    if present (m.words pgdir (pdx la)) then m.words (table_of pgdir (pdx la) m) (ptx la) else 0

-- Nothing of the directory or of its tables is free, no two of them are the same page, and all memory
-- has physical addresses of 32 bits.
pub record Tables (pgdir : ℕ) (m : PhysicalMemory) : Type 0 where
  pub sound : Sound m.pool
  pub small : m.pool.npage ≤ 1048576
  pub bounded : (q : ℕ) → 0 < free_at q m.pool → q < m.pool.npage
  pub own : free_at pgdir m.pool ≡ 0
  pub frames :
      (i : ℕ)
      → present (m.words pgdir i) ≡ true
      → (table_of pgdir i m < m.pool.npage)
        × ((pgdir == table_of pgdir i m) ≡ false)
        × (free_at (table_of pgdir i m) m.pool ≡ 0)
  pub apart :
      (i j : ℕ)
      → present (m.words pgdir i) ≡ true
      → present (m.words pgdir j) ≡ true
      → table_of pgdir i m ≡ table_of pgdir j m
      → i ≡ j

-- What a page in use keeps while others are allocated
pub record Kept (m m' : PhysicalMemory) : Type 0 where
  pub frame : Frame m.pool m'.pool
  pub npage : m'.pool.npage ≡ m.pool.npage
  pub refs : (q : ℕ) → free_at q m.pool ≡ 0 → page_ref q m' ≡ page_ref q m
  pub used : (q : ℕ) → free_at q m.pool ≡ 0 → free_at q m'.pool ≡ 0
  pub swapped : m'.page_swap ≡ m.page_swap

pub Kept-refl : (m : PhysicalMemory) → Kept m m
Kept-refl m = record {
  frame = Frame-refl m.pool;
  npage = refl;
  refs = λ q h. refl;
  used = λ q h. h;
  swapped = refl;
}

-- The directory has no table in the page.
abbrev pub NotTable : ℕ → ℕ → PhysicalMemory → Type 0
NotTable pgdir q m = (i : ℕ) → present (m.words pgdir i) ≡ true → (q == table_of pgdir i m) ≡ false

-- How get_pte ends: with the place of the entry, which has the value it had, or without a page for the
-- table
pub data GotPte (pgdir la : ℕ) (m : PhysicalMemory) : Option (ℕ × ℕ) × PhysicalMemory → Type 0 where
  got :
      {m' : PhysicalMemory}
      → Tables pgdir m'
      → Kept m m'
      → present (m'.words pgdir (pdx la)) ≡ true
      → ((a : ℕ) → entry_at pgdir a m' ≡ entry_at pgdir a m)
      → ((q : ℕ) → free_at q m.pool ≡ 0 → NotTable pgdir q m → NotTable pgdir q m')
      → GotPte pgdir la m (some (table_of pgdir (pdx la) m', ptx la), m')
  no_table : present (m.words pgdir (pdx la)) ≡ false → GotPte pgdir la m (none, m)

pub table_entry-GotPte :
    (pgdir la : ℕ) (m m' : PhysicalMemory)
    → Tables pgdir m'
    → Kept m m'
    → present (m'.words pgdir (pdx la)) ≡ true
    → ((a : ℕ) → entry_at pgdir a m' ≡ entry_at pgdir a m)
    → ((q : ℕ) → free_at q m.pool ≡ 0 → NotTable pgdir q m → NotTable pgdir q m')
    → Ends (GotPte pgdir la m) (table_entry pgdir la m')
unfolding table_entry kaddr
table_entry-GotPte pgdir la m m' t k here same others =
    let f = t.frames (pdx la) here in
    let in_it : ltb (m'.words pgdir (pdx la) / 4096) m'.pool.npage ≡ true = ground (arith, f.0) in
    rw in_it (ends (got t k here same others))
