-- ===== src/Paging/Remove.antt =====
-- page_remove: the entry, the other entries, and the reference counters.
use os_edf.Prelude.{ℕ, ◌+◌, ◌≡◌, ◌≢◌, false}
use os_edf.Buddy.State.{free_at}
use os_edf.Frames.{PhysicalMemory, page_ref}
use os_edf.Paging.Tables.{entry_at, Tables}
use os_edf.Paging.Entries.{same_page}
use os_edf.Paging.Release.{maps}

-- What page_remove leaves
pub record Removed (pgdir la : ℕ) (m m' : PhysicalMemory) : Type 0 where
  pub tables : Tables pgdir m'
  pub gone : entry_at pgdir la m' ≡ 0
  pub rest : (a : ℕ) → same_page la a ≡ false → entry_at pgdir a m' ≡ entry_at pgdir a m
  pub refs :
      (x : ℕ) → free_at x m.pool ≡ 0 → page_ref x m' + maps (entry_at pgdir la m) x ≡ page_ref x m
  pub used : (x : ℕ) → free_at x m.pool ≡ 0 → page_ref x m' ≢ 0 → free_at x m'.pool ≡ 0
