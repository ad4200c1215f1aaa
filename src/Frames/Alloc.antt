-- ===== src/Frames/Alloc.antt =====
-- alloc_page: a page that was free, or none.
use os_edf.Prelude.{
  ℕ, zero, suc, ◌+◌, ◌≤◌, ◌≡◌, ◌≢◌, ◌⊎◌, inl, inr, [], false, Option, none, some, arith,
}
use os_edf.Prelude.Run.{ok, ◌>>◌, Ends, ends, Ends-bind}
use os_edf.Buddy.{Pages}
use os_edf.Buddy.State.{free_at}
use os_edf.Buddy.Homes.{Sound}
use os_edf.Buddy.Trim.{Served, served, refused}
use os_edf.Buddy.Release.{Frame}
use os_edf.Buddy.Ranges.{in_range, ReadyRange}
use os_edf.Buddy.OnePage.{SamePages, alloc_page-Got}
use os_edf.Frames.{PhysicalMemory, alloc_pages, try_free_pages}
use os_edf.Buddy.Alloc.{LeastOrder}

pub data GotPage (m : PhysicalMemory) : Option ℕ × PhysicalMemory → Type 0 where
  page_got :
      {page : ℕ} {pool : Pages} (zone : ℕ)
      → Sound pool
      → pool.mem_base zone ≤ page
      → ReadyRange zone page 1 pool
      → ((q : ℕ) → free_at q pool + in_range q page 1 ≡ free_at q m.pool)
      → SamePages m.pool pool
      → Frame m.pool pool
      → GotPage m (some page, record m { pool = pool })
  no_page : GotPage m (none, m)

-- An allocation of a page does not wait: there is no kswapd yet, or a block is free.
abbrev pub AtOnce : PhysicalMemory → Type 0
AtOnce m = (m.kswapd_ready ≡ false) ⊎ ((o : ℕ) × (o ≤ 10) × (m.pool.free_list o ≢ []))

-- A request for one page that is refused found all lists empty.
ready-AtOnce :
    (m : PhysicalMemory) (order : ℕ)
    → LeastOrder 1 order
    → ((o : ℕ) → order ≤ o → o ≤ 10 → m.pool.free_list o ≡ [])
    → AtOnce m
    → m.kswapd_ready ≡ false
ready-AtOnce m order l none_free (inl e) = e
ready-AtOnce m zero l none_free (inr (o, small, some_free)) =
    absurd (some_free (none_free o (omega arith) small))
ready-AtOnce m (suc order) l none_free (inr a) =
    absurd (let h = l.least 0 (omega arith) in omega (arith, h))

got_page :
    (m : PhysicalMemory) (r : Option ℕ × Pages)
    → AtOnce m
    → Sound r.1
    → Served 1 m.pool r
    → SamePages m.pool r.1
    → Frame m.pool r.1
    → Ends (GotPage m) (elim r.0 [
      | some p ↦ ok (some p, record m { pool = r.1 })
      | none ↦ do try_free_pages 1 m; ok (none, record m { pool = r.1 })
    ])
unfolding try_free_pages
got_page m (some page, pool) w s (served zone low ready counts) same frame =
    ends (page_got zone s low ready counts same frame)
got_page m (none, pool) w s (refused {order = order} l e) same frame =
    let off = ready-AtOnce m order l e w in rw off (ends no_page)

pub alloc_page-GotPage :
    (m : PhysicalMemory) → AtOnce m → Sound m.pool → Ends (GotPage m) (alloc_pages 1 m)
unfolding alloc_pages
alloc_page-GotPage m w s =
    Ends-bind (alloc_page-Got m.pool s) λ r (a, b, c, d). got_page m r w a b c d
