-- ===== src/Frames.antt =====
-- kern/mm/pmm.h and memlayout.h: physical pages. A page is its number; its contents are the 1024
-- words of its frame, and its counters and flags those of struct Page.
pub mod Bits
pub mod Alloc
use os_edf.Prelude.{
  ℕ, zero, suc, ◌+◌, ◌*◌, ◌/◌, ◌%◌, ◌^◌, Bool, true, false, not, ◌&&◌, ◌||◌, List, [], ◌∷◌, Option,
  none, some, ltb, leb, ◌==◌, if◌then◌else◌,
}
use os_edf.Prelude.Run.{Run, ok, panic, suspend, assert, ◌>>=◌, ◌>>◌}
use os_edf.Buddy.{Pages, set_at, increment, decrement, buddy_alloc_pages, buddy_free_pages}

-- A list of the swapped pages, with its counter
pub record SwapList : Type 0 where
  pub swap_list : List ℕ
  pub nr_pages : ℕ

-- The buddy allocator, the contents of the frames, the flags of struct Page that it does not read,
-- and the static variables of swap.c. kswapd_ready is `swap_init_ok && kswapd != NULL`, in_kswapd
-- is `current == kswapd`.
pub record PhysicalMemory : Type 0 where
  pub pool : Pages
  pub words : ℕ → ℕ → ℕ
  pub page_swap : ℕ → Bool
  pub page_dirty : ℕ → Bool
  pub page_active : ℕ → Bool
  pub index : ℕ → ℕ
  pub max_swap_offset : ℕ
  pub mem_map : ℕ → ℕ
  pub hash_list : ℕ → List ℕ
  pub active_list : SwapList
  pub inactive_list : SwapList
  pub next : ℕ
  pub kswapd_ready : Bool
  pub in_kswapd : Bool

-- A word of 32 bits; the lowest n bits of a | b
pub or_bits : ℕ → ℕ → ℕ → ℕ
or_bits zero a b = 0
or_bits (suc n) a b = or_bits n (a / 2) (b / 2) * 2 + (if a % 2 == 1 || b % 2 == 1 then 1 else 0)

abbrev pub word_or : ℕ → ℕ → ℕ
word_or a b = or_bits 32 a b

-- try_free_pages returns 0, or the thread sleeps until kswapd wakes it, and tries again. The model
-- stops at the sleep; `pressure`, the queue of those who wait and kswapd are not part of it.
pub try_free_pages : ℕ → PhysicalMemory → Run (Unit {0})
try_free_pages n m =
    if not m.kswapd_ready
    then ok tt
    else if m.in_kswapd
    then panic
    else if leb 128 n
    then ok tt
    else suspend

-- alloc_pages and free_pages, without interrupts
unfoldable pub alloc_pages : ℕ → PhysicalMemory → Run (Option ℕ × PhysicalMemory)
unfolding try_free_pages
alloc_pages n m = do
  (page, pool) ← buddy_alloc_pages n m.pool
  elim page [
    | some p ↦ ok (some p, record m { pool = pool })
    | none ↦ do try_free_pages n m; ok (none, record m { pool = pool })
  ]

-- Freeing clears all flags of the pages.
abbrev pub clear_range : ℕ → ℕ → (ℕ → Bool) → ℕ → Bool
clear_range base n flag q = if leb base q && ltb q (base + n) then false else flag q

unfoldable pub free_pages : ℕ → ℕ → PhysicalMemory → Run PhysicalMemory
free_pages base n m = do
  pool ← buddy_free_pages base n m.pool
  ok (record m {
    pool = pool;
    page_swap = clear_range base n m.page_swap;
    page_dirty = clear_range base n m.page_dirty;
    page_active = clear_range base n m.page_active;
  })

abbrev pub page_ref : ℕ → PhysicalMemory → ℕ
page_ref page m = m.pool.ref page

unfoldable pub set_page_ref : ℕ → ℕ → PhysicalMemory → PhysicalMemory
set_page_ref page val m = record m { pool = record m.pool { ref = set_at page val m.pool.ref } }

unfoldable pub page_ref_inc : ℕ → PhysicalMemory → PhysicalMemory
page_ref_inc page m = set_page_ref page (increment (page_ref page m)) m

unfoldable pub page_ref_dec : ℕ → PhysicalMemory → PhysicalMemory
page_ref_dec page m = set_page_ref page (decrement (page_ref page m)) m

-- pa2page, of the address of a word
unfoldable pub pa2page : ℕ → PhysicalMemory → Run ℕ
pa2page pa m = do assert (ltb (pa / 4096) m.pool.npage); ok (pa / 4096)

-- KADDR, for the frame at an address
unfoldable pub kaddr : ℕ → PhysicalMemory → Run ℕ
kaddr pa m = do assert (ltb (pa / 4096) m.pool.npage); ok (pa / 4096)

unfoldable pub set_word : ℕ → ℕ → ℕ → PhysicalMemory → PhysicalMemory
set_word page i v m = record m { words = set_at page (set_at i v (m.words page)) m.words }

-- memset of a whole frame to 0
unfoldable pub clear_frame : ℕ → PhysicalMemory → PhysicalMemory
clear_frame page m = record m { words = set_at page (λ i. 0) m.words }

-- memcpy of a whole frame
unfoldable pub copy_frame : ℕ → ℕ → PhysicalMemory → PhysicalMemory
copy_frame to from m = record m { words = set_at to (m.words from) m.words }
