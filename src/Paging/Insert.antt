-- ===== src/Paging/Insert.antt =====
-- page_insert: the entry, the other entries, and the reference counters.
use os_edf.Prelude.{ℕ, ◌+◌, ◌≡◌, ◌≢◌, false}
use os_edf.Prelude.Int.{ℤ, pos, negsuc}
use os_edf.Prelude.Run.{◌>>=◌}
use os_edf.Buddy.State.{free_at}
use os_edf.Frames.{PhysicalMemory, page_ref}
use os_edf.Paging.{pdx, present, entry_of}
use os_edf.Paging.Tables.{entry_at, Tables}
use os_edf.Paging.Entries.{same_page}
use os_edf.Paging.Release.{one, maps}

-- How page_insert ends: with the entry, or without a page for the table
pub data Inserted (pgdir page la perm : ℕ) (m : PhysicalMemory) : ℤ × PhysicalMemory → Type 0 where
  inserted :
      {m' : PhysicalMemory}
      → Tables pgdir m'
      → m'.pool.npage ≡ m.pool.npage
      → entry_at pgdir la m' ≡ entry_of page perm
      → ((a : ℕ) → same_page la a ≡ false → entry_at pgdir a m' ≡ entry_at pgdir a m)
      → ((x : ℕ)
          → free_at x m.pool ≡ 0
          → page_ref x m' + maps (entry_at pgdir la m) x ≡ page_ref x m + one page x)
      → ((x : ℕ) → free_at x m.pool ≡ 0 → page_ref x m' ≢ 0 → free_at x m'.pool ≡ 0)
      → Inserted pgdir page la perm m (pos 0, m')
  no_memory : present (m.words pgdir (pdx la)) ≡ false → Inserted pgdir page la perm m (negsuc 3, m)
