-- ===== src/Heap.antt =====
-- libs/heap.h and kern/libs/heap.c: the binary heap of the EDF scheduler, smallest deadline on top.
-- A function returns the heap that it leaves in `process_heap`; positions are `int` and stay small.
pub mod Cells
pub mod Order
pub mod Up
pub mod Down
pub mod Contract
pub mod Pop
pub mod Samples
mod Tests
use os_edf.Prelude.{
  ℕ, zero, suc, ◌+◌, ◌-◌, ◌*◌, ◌/◌, ◌≡◌, Bool, Option, none, some, List, [], ◌∷◌, length, set, take,
  ltb, ◌==◌, if◌then◌else◌,
}
use os_edf.Prelude.Int.{ℤ, pos, negsuc, ◌+ℤ◌, ◌-ℤ◌, ltz, eqz, lez, pos_part}
use os_edf.Prelude.Run.{Run, ok, hang, fault, out_of_fuel, ◌>>=◌}

abbrev pub max_heap_size : ℕ
max_heap_size = 1024

-- `proc` is the process's pointer, as a number.
pub record Entry : Type 0 where
  pub proc : ℕ
  pub x : ℤ

pub record Heap : Type 0 where
  pub entry : List Entry
  pub size : ℤ

-- `entry[i]` at an index that is not negative
pub load : List Entry → ℕ → Run Entry
load [] i = fault
load (e ∷ a) zero = ok e
load (e ∷ a) (suc i) = load a i

-- `entry[i] = e`
pub store : List Entry → ℤ → Entry → Run (List Entry)
store a (pos i) e = if ltb i (length a) then ok (set a i e) else fault
store a (negsuc i) e = fault

pub heap_init : Heap → Heap
heap_init h = record h { size = pos 0 }

pub heap_empty : Heap → Bool
heap_empty h = eqz h.size (pos 0)

-- (int) (x-1)/2: C rounds towards zero, so the father of 0 is 0, as with the subtraction of ℕ.
abbrev pub get_father : ℕ → ℕ
get_father x = (x - 1) / 2

abbrev pub get_lc : ℕ → ℕ
get_lc x = 2 * x + 1

abbrev pub get_rc : ℕ → ℕ
get_rc x = 2 * x + 2

-- `__min`: the child position whose value is smaller
abbrev pub min_child : ℤ → ℤ → ℕ → ℕ
min_child x y lc_pos = if ltz x y then lc_pos else lc_pos + 1

-- `__exchange`: both fields of the entries x and y change places.
pub exchange : List Entry → ℕ → ℕ → Run (List Entry)
exchange a x y = do ey ← load a y; ex ← load a x; ok (set (set a y ex) x ey)

-- The while loop; it returns the array, father_pos and lc_pos.
pub topdown_loop : ℕ → ℤ → ℤ → List Entry → ℕ → Run (List Entry × ℕ × ℕ)
topdown_loop zero size father_val a father_pos = out_of_fuel
topdown_loop (suc fuel) size father_val a father_pos =
    let lc_pos = get_lc father_pos in
    let body : Run (List Entry × ℕ × ℕ) = do
      lc ← load a lc_pos
      rc ← load a (lc_pos + 1)
      let chosen_pos = min_child lc.x rc.x lc_pos
      chosen ← load a chosen_pos
      let sink =
          exchange a father_pos chosen_pos >>= λ b. topdown_loop fuel size father_val b chosen_pos
      if ltz chosen.x father_val then sink else ok (a, father_pos, lc_pos)
    in if ltz (pos lc_pos) (size -ℤ pos 1) then body else ok (a, father_pos, lc_pos)

-- The last level may have a father with one child.
pub topdown_last : ℤ → ℤ → List Entry × ℕ × ℕ → Run (List Entry)
topdown_last size father_val (a, father_pos, lc_pos) =
    if eqz (pos lc_pos) (size -ℤ pos 1)
    then (do lc ← load a lc_pos; if ltz lc.x father_val then exchange a father_pos lc_pos else ok a)
    else ok a

pub rearrange_topdown : Heap → Run Heap
rearrange_topdown h = do
  father ← load h.entry 0
  r ← topdown_loop (pos_part h.size + 1) h.size father.x h.entry 0
  a ← topdown_last h.size father.x r
  ok (record h { entry = a })

pub bottomup_loop : ℕ → ℤ → List Entry → ℕ → Run (List Entry)
bottomup_loop zero son_val a son_pos = out_of_fuel
bottomup_loop (suc fuel) son_val a son_pos =
    let father_pos = get_father son_pos in
    let rise = exchange a father_pos son_pos >>= λ b. bottomup_loop fuel son_val b father_pos in
    let body : Run (List Entry) = do
      father ← load a father_pos
      if ltz son_val father.x then rise else ok a
    in if father_pos == son_pos then ok a else body

-- With nothing in the heap, `entry[heap->size-1]` is out of the array.
pub bottomup_from : List Entry → ℤ → Run (List Entry)
bottomup_from a (pos son_pos) = do son ← load a son_pos; bottomup_loop (son_pos + 1) son.x a son_pos
bottomup_from a (negsuc i) = fault

pub rearrange_bottomup : Heap → Run Heap
rearrange_bottomup h = do a ← bottomup_from h.entry (h.size -ℤ pos 1); ok (record h { entry = a })

pub heap_push : Heap → Entry → Run Heap
heap_push h elm = if lez (pos max_heap_size) h.size then hang else do
  a ← store h.entry h.size elm
  rearrange_bottomup (record { entry = a; size = h.size +ℤ pos 1 })

pub heap_gettop : Heap → Run Entry
heap_gettop h = if heap_empty h then hang else load h.entry 0

-- `if (heap->size > 1) heap->entry[0] = heap->entry[heap->size-1];`
pub move_last : Heap → Run (List Entry)
move_last h =
    if ltz (pos 1) h.size
    then (do last ← load h.entry (pos_part (h.size -ℤ pos 1)); store h.entry (pos 0) last)
    else ok h.entry

-- On an empty heap it prints a line and goes on: the size becomes -1.
pub heap_pop : Heap → Run (Entry × Heap)
heap_pop h = do
  ret ← load h.entry 0
  a ← move_last h
  h' ← rearrange_topdown (record { entry = a; size = h.size -ℤ pos 1 })
  ok (ret, h')

-- The entries in use.
abbrev pub live : Heap → List Entry
live h = take (pos_part h.size) h.entry
