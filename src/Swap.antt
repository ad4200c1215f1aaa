-- ===== src/Swap.antt =====
-- kern/mm/swap.c: the swap entries, the hash lists and the two lists of swapped pages.
pub mod Space
pub mod Around
pub mod Search
pub mod Refill
mod Tests
use os_edf.Prelude.{
  ℕ, zero, suc, ◌+◌, ◌-◌, ◌*◌, ◌/◌, ◌%◌, ◌^◌, ◌≡◌, refl, Bool, true, false, not, ◌&&◌, ◌||◌, List,
  [], ◌∷◌, ◌++◌, Option, none, some, ltb, leb, ◌==◌, if◌then◌else◌,
}
use os_edf.Prelude.Run.{Run, ok, out_of_fuel, assert, ◌>>=◌, ◌>>◌}
use os_edf.Buddy.{set_at, increment, decrement, remove_page}
use os_edf.Process.{hash32}
use os_edf.Frames.{SwapList, PhysicalMemory, alloc_pages, free_pages, page_ref, copy_frame}

abbrev pub swap_unused : ℕ
swap_unused = 0xffff

abbrev pub max_swap_ref : ℕ
max_swap_ref = 0xfffe

pub swap_offset : ℕ → PhysicalMemory → Run ℕ
swap_offset entry m = do
  assert (ltb 0 (entry / 256) && ltb (entry / 256) m.max_swap_offset)
  ok (entry / 256)

pub set_count : ℕ → ℕ → PhysicalMemory → PhysicalMemory
set_count offset v m = record m { mem_map = set_at offset v m.mem_map }

-- A page goes to the end of a list.
abbrev pub push_last : ℕ → SwapList → SwapList
push_last page l = record { swap_list = l.swap_list ++ page ∷ []; nr_pages = increment l.nr_pages }

pub swap_active_list_add : ℕ → PhysicalMemory → Run PhysicalMemory
swap_active_list_add page m = do
  assert (m.page_swap page)
  ok (record m {
    page_active = set_at page true m.page_active;
    active_list = push_last page m.active_list;
  })

pub swap_inactive_list_add : ℕ → PhysicalMemory → Run PhysicalMemory
swap_inactive_list_add page m = do
  assert (m.page_swap page)
  ok (record m {
    page_active = set_at page false m.page_active;
    inactive_list = push_last page m.inactive_list;
  })

-- The counter that goes down is chosen by the flag, the links are those of the list the page is in.
pub swap_list_del : ℕ → PhysicalMemory → Run PhysicalMemory
swap_list_del page m = do
  assert (m.page_swap page)
  let less : Bool → SwapList → SwapList = λ counted l. record {
    swap_list = remove_page page l.swap_list;
    nr_pages = if counted then decrement l.nr_pages else l.nr_pages;
  }
  ok (record m {
    active_list = less (m.page_active page) m.active_list;
    inactive_list = less (not (m.page_active page)) m.inactive_list;
  })

pub swap_page_del : ℕ → PhysicalMemory → Run PhysicalMemory
swap_page_del page m = do
  assert (m.page_swap page)
  ok (record m {
    page_swap = set_at page false m.page_swap;
    hash_list = λ b. remove_page page (m.hash_list b);
  })

pub swap_free_page : ℕ → PhysicalMemory → Run PhysicalMemory
swap_free_page page m = do
  assert (m.page_swap page && (page_ref page m == 0))
  m' ← swap_page_del page m
  free_pages page 1 m'

-- The walk along a hash list
pub hash_walk : ℕ → List ℕ → (ℕ → ℕ) → Option ℕ
hash_walk entry [] index = none
hash_walk entry (page ∷ pages) index =
    let rest = hash_walk entry pages index in if index page == entry then some page else rest

pub swap_hash_find : ℕ → PhysicalMemory → Option ℕ
swap_hash_find entry m = hash_walk entry (m.hash_list (hash32 entry 10)) m.index

-- The loop of try_alloc_swap_entry: next, empty and zero at its end
pub entry_loop : ℕ → ℕ → ℕ → ℕ → ℕ → PhysicalMemory → Run (ℕ × ℕ × ℕ)
entry_loop zero next empty_one zero_one end m = out_of_fuel
entry_loop (suc fuel) next empty_one zero_one end m =
    let count = m.mem_map next in
    let empty' = if count == swap_unused then next else empty_one in
    let zero' = if (count == 0) && (zero_one == 0) then next else zero_one in
    let next' = if next + 1 == m.max_swap_offset then 1 else next + 1 in
    let rest = entry_loop fuel next' empty' zero' end m in
    if (empty' == 0) && not (next' == end) then rest else ok (next', empty', zero')

-- The page whose entry has no reference gives it up.
pub take_over : ℕ → PhysicalMemory → Run PhysicalMemory
take_over zero_one m = elim (swap_hash_find (zero_one * 256) m) [
  | none ↦ Run.panic
  | some page ↦ do
    assert (m.page_swap page)
    m₁ ← swap_list_del page m
    m₂ ← if page_ref page m₁ == 0 then swap_free_page page m₁ else swap_page_del page m₁
    ok (set_count zero_one swap_unused m₂)
]

pub try_alloc_swap_entry : PhysicalMemory → Run (ℕ × PhysicalMemory)
try_alloc_swap_entry m = do
  (next, empty_one, zero_one) ← entry_loop m.max_swap_offset m.next 0 0 m.next m
  let m' : PhysicalMemory = record m { next = next }
  let reuse : Run (ℕ × PhysicalMemory) = do m'' ← take_over zero_one m'; ok (zero_one * 256, m'')
  let no_empty = if not (zero_one == 0) then reuse else ok (0, m')
  if not (empty_one == 0) then ok (empty_one * 256, m') else no_empty

-- The part of swap_page_add behind the choice of the entry
pub note_entry : ℕ → ℕ → PhysicalMemory → PhysicalMemory
note_entry page entry m = record m {
  page_swap = set_at page true m.page_swap;
  index = set_at page entry m.index;
  hash_list = set_at (hash32 entry 10) (page ∷ m.hash_list (hash32 entry 10)) m.hash_list;
}

pub swap_page_add : ℕ → ℕ → PhysicalMemory → Run (Bool × PhysicalMemory)
swap_page_add page entry m =
    let fresh : Run (Bool × PhysicalMemory) = do
      (e, m₁) ← try_alloc_swap_entry m
      let use_it : Run (Bool × PhysicalMemory) = do
        offset ← swap_offset e m₁
        assert (m₁.mem_map offset == swap_unused)
        let m₂ : PhysicalMemory = set_count offset 0 m₁
        ok (true, note_entry page e (record m₂ { page_dirty = set_at page true m₂.page_dirty }))
      if e == 0 then ok (false, m₁) else use_it
    in do
      assert (not (m.page_swap page))
      if entry == 0 then fresh else ok (true, note_entry page entry m)

-- The last reference of an entry is gone.
pub drop_entry : ℕ → ℕ → PhysicalMemory → Run PhysicalMemory
drop_entry entry offset m = elim (swap_hash_find entry m) [
  | none ↦ ok (set_count offset swap_unused m)
  | some page ↦
      let free_it : Run PhysicalMemory = do
        m₁ ← swap_list_del page m
        m₂ ← swap_free_page page m₁
        ok (set_count offset swap_unused m₂)
      in if not (page_ref page m == 0) then ok m else free_it
]

-- mem_map has unsigned short entries.
pub swap_remove_entry : ℕ → PhysicalMemory → Run PhysicalMemory
swap_remove_entry entry m = do
  offset ← swap_offset entry m
  assert (ltb 0 (m.mem_map offset))
  let m' : PhysicalMemory = set_count offset (m.mem_map offset - 1) m
  if m'.mem_map offset == 0 then drop_entry entry offset m' else ok m'

pub swap_page_count : ℕ → PhysicalMemory → Run ℕ
swap_page_count page m =
    let counted : Run ℕ = do offset ← swap_offset (m.index page) m; ok (m.mem_map offset)
    in if not (m.page_swap page) then ok 0 else counted

pub swap_duplicate : ℕ → PhysicalMemory → Run PhysicalMemory
swap_duplicate entry m = do
  offset ← swap_offset entry m
  assert (ltb (m.mem_map offset) max_swap_ref)
  ok (set_count offset (m.mem_map offset + 1) m)

pub try_free_swap_entry : ℕ → PhysicalMemory → Run (Bool × PhysicalMemory)
try_free_swap_entry entry m = do
  offset ← swap_offset entry m
  if m.mem_map offset == 0 then ok (true, set_count offset swap_unused m) else ok (false, m)

-- The loop of refill_inactive_scan, over the pages from `le` on
pub refill_loop : ℕ → List ℕ → PhysicalMemory → Run PhysicalMemory
refill_loop zero pages m = ok m
refill_loop (suc maxscan) [] m = ok m
refill_loop (suc maxscan) (page ∷ pages) m =
    let move : Run PhysicalMemory = do m₁ ← swap_list_del page m; swap_inactive_list_add page m₁
    in do
      assert (m.page_swap page && m.page_active page)
      m' ← if page_ref page m == 0 then move else ok m
      refill_loop maxscan pages m'

pub refill_inactive_scan : PhysicalMemory → Run PhysicalMemory
refill_inactive_scan m = refill_loop m.active_list.nr_pages m.active_list.swap_list m

-- There is no entry 0.
pub swap_duplicate-zero : (m : PhysicalMemory) → swap_duplicate 0 m ≡ Run.panic
unfolding swap_duplicate swap_offset
swap_duplicate-zero m = refl
