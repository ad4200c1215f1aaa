-- ===== src/Buddy.antt =====
-- kern/mm/buddy_pmm.c: the buddy allocator. A page is its number in the array `pages`, a block of an
-- order o the 2^o pages from its first one on, and a free list the blocks of one order.
pub mod Cover
pub mod State
pub mod Homes
pub mod Split
pub mod Merge
pub mod Release
pub mod Ranges
pub mod Rising
pub mod Alloc
pub mod Trim
pub mod OnePage
pub mod Samples
mod Tests
use os_edf.Prelude.{
  ℕ, zero, suc, ◌+◌, ◌-◌, ◌*◌, ◌/◌, ◌%◌, ◌^◌, Bool, true, false, not, ◌&&◌, ◌||◌, List, [], ◌∷◌,
  Option, none, some, ltb, leb, ◌==◌, if◌then◌else◌,
}
use os_edf.Prelude.Run.{Run, ok, panic, fault, out_of_fuel, assert, ◌>>=◌, ◌>>◌}

-- struct Page of each page, the zones, and free_area
pub record Pages : Type 0 where
  pub ref : ℕ → ℕ
  pub reserved : ℕ → Bool
  pub has_property : ℕ → Bool
  pub property : ℕ → ℕ
  pub zone_num : ℕ → ℕ
  pub npage : ℕ
  pub mem_base : ℕ → ℕ
  pub zones : ℕ
  pub free_list : ℕ → List ℕ
  pub nr_free : ℕ → ℕ

abbrev pub max_order : ℕ
max_order = 10

-- A write to one entry of a table
abbrev pub set_at {ℓ} : {A : Type ℓ} → ℕ → A → (ℕ → A) → ℕ → A
set_at i v f j = if i == j then v else f j

-- The counters are unsigned int.
abbrev pub increment : ℕ → ℕ
increment n = (n + 1) % 2 ^ 32

abbrev pub decrement : ℕ → ℕ
decrement n = (n + 4294967295) % 2 ^ 32

pub buddy_init : Pages → Pages
buddy_init st = record st {
  free_list = λ o. if leb o max_order then [] else st.free_list o;
  nr_free = λ o. if leb o max_order then 0 else st.nr_free o;
}

-- The block at a page becomes a free one of its order, first in the list.
pub put_free : ℕ → ℕ → Pages → Pages
put_free page order st = record st {
  property = set_at page order st.property;
  has_property = set_at page true st.has_property;
  nr_free = set_at order (increment (st.nr_free order)) st.nr_free;
  free_list = set_at order (page ∷ st.free_list order) st.free_list;
}

pub clear_property : ℕ → Pages → Pages
clear_property page st = record st { has_property = set_at page false st.has_property }

-- The first loop of buddy_init_memmap, over the n pages from p on
pub init_pages : ℕ → ℕ → Pages → Run Pages
init_pages zero p st = ok st
init_pages (suc n) p st = do
  assert (st.reserved p)
  init_pages n (p + 1) (record st {
    reserved = set_at p false st.reserved;
    has_property = set_at p false st.has_property;
    property = set_at p 0 st.property;
    zone_num = set_at p st.zones st.zone_num;
    ref = set_at p 0 st.ref;
  })

-- As many blocks of one order as fit into n pages, at most `most`; the page and the number that are left
pub free_blocks : ℕ → ℕ → ℕ → ℕ → Pages → ℕ × ℕ × Pages
free_blocks zero order p n st = (p, n, st)
free_blocks (suc most) order p n st =
    let rest = free_blocks most order (p + 2 ^ order) (n - 2 ^ order) (put_free p order st) in
    if leb (2 ^ order) n then rest else (p, n, st)

-- The orders below `orders`, from the highest on
pub free_orders : ℕ → ℕ → ℕ → Pages → Pages
free_orders zero p n st = st
free_orders (suc order) p n st =
    let (p', n', st') = free_blocks n order p n st in
    if n == 0 then st else free_orders order p' n' st'

pub buddy_init_memmap : ℕ → ℕ → Pages → Run Pages
unfolding init_pages free_orders
buddy_init_memmap base n st = do
  assert (ltb 0 n && ltb st.zones 10)
  st' ← init_pages n base st
  ok (
      free_orders (max_order + 1) base n
        (record st' { mem_base = set_at st'.zones base st'.mem_base; zones = st'.zones + 1 }))

-- The loop of getorder, with the number of orders that are left
pub order_loop : ℕ → ℕ → ℕ → Run ℕ
order_loop zero order n = panic
order_loop (suc left) order n =
    let rest = order_loop left (order + 1) n in if leb n (2 ^ order) then ok order else rest

pub getorder : ℕ → Run ℕ
unfolding order_loop
getorder n = order_loop (max_order + 1) 0 n

-- The inner loop of buddy_alloc_pages_sub, from the order + d down to the order
pub split_loop : ℕ → ℕ → ℕ → Pages → Pages
unfolding put_free
split_loop zero order page st = st
split_loop (suc d) order page st =
    split_loop d order page (put_free (page + 2 ^ (order + d)) (order + d) st)

-- The first block of a list leaves it.
pub pop_free : ℕ → List ℕ → Pages → Pages
pop_free order pages st = record st {
  nr_free = set_at order (decrement (st.nr_free order)) st.nr_free;
  free_list = set_at order pages st.free_list;
}

-- The outer loop, with the number of orders that are left
pub alloc_loop : ℕ → ℕ → ℕ → Pages → Option ℕ × Pages
unfolding split_loop clear_property pop_free
alloc_loop zero order cur_order st = (none, st)
alloc_loop (suc left) order cur_order st = elim (st.free_list cur_order) [
  | [] ↦ alloc_loop left order (cur_order + 1) st
  | page ∷ pages ↦
      let taken = split_loop (cur_order - order) order page (pop_free cur_order pages st) in
      (some page, clear_property page taken)
]

pub buddy_alloc_pages_sub : ℕ → Pages → Run (Option ℕ × Pages)
unfolding alloc_loop
buddy_alloc_pages_sub order st = do
  assert (leb order max_order)
  ok (alloc_loop (max_order + 1 - order) order order st)

pub page_is_buddy : ℕ → ℕ → ℕ → Pages → Bool
page_is_buddy page order zone st =
    ltb page st.npage
    && (st.zone_num page == zone
        && (not (st.reserved page) && (st.has_property page && (st.property page == order))))

pub page2idx : ℕ → Pages → ℕ
page2idx page st = page - st.mem_base (st.zone_num page)

abbrev pub idx2page : ℕ → ℕ → Pages → ℕ
idx2page zone idx st = st.mem_base zone + idx

-- idx ^ (1 << order), and idx & (idx ^ (1 << order))
abbrev pub flip_bit : ℕ → ℕ → ℕ
flip_bit order idx = if (idx / 2 ^ order) % 2 == 0 then idx + 2 ^ order else idx - 2 ^ order

abbrev pub clear_bit : ℕ → ℕ → ℕ
clear_bit order idx = if (idx / 2 ^ order) % 2 == 0 then idx else idx - 2 ^ order

-- The loop over the n pages of the block
pub clear_pages : ℕ → ℕ → Pages → Run Pages
clear_pages zero p st = ok st
clear_pages (suc n) p st = do
  assert (not (st.reserved p) && not (st.has_property p))
  clear_pages n (p + 1) (record st {
    reserved = set_at p false st.reserved;
    has_property = set_at p false st.has_property;
    ref = set_at p 0 st.ref;
  })

-- list_del of a page that stands in a free list
unfoldable pub remove_page : ℕ → List ℕ → List ℕ
remove_page p [] = []
remove_page p (x ∷ xs) = if p == x then xs else x ∷ remove_page p xs

-- The free buddy leaves its list.
pub take_buddy : ℕ → ℕ → Pages → Pages
unfolding remove_page
take_buddy buddy order st = record st {
  nr_free = set_at order (decrement (st.nr_free order)) st.nr_free;
  free_list = set_at order (remove_page buddy (st.free_list order)) st.free_list;
  has_property = set_at buddy false st.has_property;
}

-- The loop that merges, with MAX_ORDER - order rounds left, and the free block at its end
pub merge_loop : ℕ → ℕ → ℕ → ℕ → Pages → Pages
unfolding put_free page_is_buddy take_buddy
merge_loop zero zone idx order st = put_free (idx2page zone idx st) order st
merge_loop (suc left) zone idx order st =
    let buddy = idx2page zone (flip_bit order idx) st in
    let merged =
      merge_loop left zone (clear_bit order idx) (order + 1) (take_buddy buddy order st) in
    if page_is_buddy buddy order zone st then merged else put_free (idx2page zone idx st) order st

pub buddy_free_pages_sub : ℕ → ℕ → Pages → Run Pages
unfolding page2idx clear_pages merge_loop
buddy_free_pages_sub base order st = do
  assert (page2idx base st % 2 ^ order == 0)
  st' ← clear_pages (2 ^ order) base st
  ok (merge_loop (max_order - order) (st.zone_num base) (page2idx base st) order st')

-- The first loop of buddy_free_pages, from the lowest order on
pub rising_loop : ℕ → ℕ → ℕ → ℕ → Pages → Run (ℕ × ℕ × ℕ × Pages)
unfolding buddy_free_pages_sub
rising_loop zero order base n st = out_of_fuel
rising_loop (suc left) order base n st =
    let odd = not ((page2idx base st / 2 ^ order) % 2 == 0) in
    let free_one : Run (ℕ × ℕ × ℕ × Pages) = do
      st' ← buddy_free_pages_sub base order st
      rising_loop left (order + 1) (base + 2 ^ order) (n - 2 ^ order) st'
    in let skip = rising_loop left (order + 1) base n st in
      let body : Run (ℕ × ℕ × ℕ × Pages) = do
        assert (leb order max_order)
        if odd then free_one else skip
      in if leb (2 ^ order) n then body else ok (order, base, n, st)

-- while (n < order_size) order --
pub lower_order : ℕ → ℕ → ℕ
lower_order zero n = zero
lower_order (suc order) n =
    let rest = lower_order order n in if ltb n (2 ^ suc order) then rest else suc order

-- The second loop, with at most as many rounds as pages
pub falling_loop : ℕ → ℕ → ℕ → ℕ → Pages → Run Pages
unfolding lower_order buddy_free_pages_sub
falling_loop zero order base n st = if n == 0 then ok st else out_of_fuel
falling_loop (suc left) order base n st =
    let o = lower_order order n in
    let body : Run Pages = do
      st' ← buddy_free_pages_sub base o st
      falling_loop left o (base + 2 ^ o) (n - 2 ^ o) st'
    in if n == 0 then ok st else body

pub buddy_free_pages : ℕ → ℕ → Pages → Run Pages
buddy_free_pages base n st =
    let many : Run Pages = do
      (order, base', n', st') ← rising_loop (max_order + 2) 0 base n st
      falling_loop n' order base' n' st'
    in do assert (ltb 0 n); if n == 1 then buddy_free_pages_sub base 0 st else many

-- free_pages of pmm.c is buddy_free_pages, without interrupts.
pub buddy_alloc_pages : ℕ → Pages → Run (Option ℕ × Pages)
buddy_alloc_pages n st = do
  assert (ltb 0 n)
  order ← getorder n
  (page, st') ← buddy_alloc_pages_sub order st
  elim page [
    | none ↦ ok (none, st')
    | some p ↦
        let trimmed : Run (Option ℕ × Pages) = do
          st'' ← buddy_free_pages (p + n) (2 ^ order - n) st'
          ok (some p, st'')
        in if n == 2 ^ order then ok (some p, st') else trimmed
  ]

-- The sum over the orders below `orders`
pub sum_free : ℕ → (ℕ → ℕ) → ℕ
sum_free zero nr = 0
sum_free (suc order) nr = (sum_free order nr + nr order * 2 ^ order) % 2 ^ 32

pub buddy_nr_free_pages : Pages → ℕ
unfolding sum_free
buddy_nr_free_pages st = sum_free (max_order + 1) st.nr_free
