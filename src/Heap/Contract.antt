-- ===== src/Heap/Contract.antt =====
-- What the operations of kern/libs/heap.c promise: the heap is a priority queue of its live entries.
use native.Mathlib.Bridge.{le_prop}
use mathlib.Core.List.{not-mem-nil, mem-cons_self, forall_mem-cons}
use mathlib.Core.List.Perm
use os_edf.Prelude.{
  ℕ, suc, ◌+◌, ◌≤◌, ◌<◌, ◌≡◌, refl, List, [], ◌∷◌, Perm, Mem, true, false, arith, length, set, take,
  get_or, length-set, get_or-set, take-suc, take-set-ge, ◌==◌, get_or-take, append_one-perm,
  length-take, ◌∙◌,
}
use os_edf.Prelude.Int.{ℤ, pos, ◌+ℤ◌, ◌-ℤ◌, ◌≤ℤ◌, lez}
use os_edf.Prelude.Run.{ok, hang, Ends, ends, Ends-bind}
use os_edf.Heap.{
  Entry, Heap, max_heap_size, live, store, heap_init, heap_empty, heap_push, heap_gettop,
  rearrange_bottomup, get_father,
}
use os_edf.Heap.Cells.{blank, at, key, load-ok}
use os_edf.Heap.Order.{IsOrdered, root_least}
use os_edf.Heap.Up.{Rising, bottomup_from-Sifted}

-- The invariant: `n` entries in use, in the heap order, in an array of MAX_HEAP_SIZE cells.
pub record IsHeapOf (n : ℕ) (h : Heap) : Type 0 where
  pub size : h.size ≡ pos n
  pub within : n ≤ max_heap_size
  pub cells : length h.entry ≡ max_heap_size
  pub order : IsOrdered n h.entry

push_size : (n : ℕ) → pos n +ℤ pos 1 ≡ pos (n + 1)
unfolding ◌+ℤ◌
push_size n = ground arith

pub pop_size : (n : ℕ) → pos (n + 1) -ℤ pos 1 ≡ pos n
unfolding ◌-ℤ◌
pop_size n = ground arith

-- heap_init leaves a heap of no entries.
pub heap_init-IsHeapOf :
    (h : Heap)
    → length h.entry ≡ max_heap_size
    → IsHeapOf 0 (heap_init h) × (heap_empty (heap_init h) ≡ true)
unfolding heap_init heap_empty
heap_init-IsHeapOf h e =
    (record { size = refl; within = omega arith; cells = e; order = omega arith }, refl)

pub heap_empty-size : (n : ℕ) (h : Heap) → IsHeapOf n h → heap_empty h ≡ (n == 0)
unfolding heap_empty
heap_empty-size n h v = rw v.size (ground arith)

module _ (n : ℕ) (a : List Entry) (e : Entry) (room : n < length a) where
  pub store-ok : store a (pos n) e ≡ ok (set a n e)
  unfolding store
  store-ok = ground arith

  set-Rising : IsOrdered n a → Rising (n + 1) (set a n e) n
  set-Rising order =
      let cell = λ (c : ℕ). get_or-set blank a n c e room in
      let size = length-set a n e in
      record {
        inside = omega arith;
        room = omega arith;
        edges = λ c p q r. ground (arith, cell c, cell (get_father c), order c);
        bridged = λ c p q r s. absurd (omega arith);
      }

  take-set-perm : Perm (take (n + 1) (set a n e)) (e ∷ take n a)
  take-set-perm =
      let last : get_or (set a n e) n blank ≡ e = ground (arith, get_or-set blank a n n e room) in
      let one : n + 1 ≡ suc n = omega arith in
      rw
        (
          one,
          take-suc blank n (set a n e) (omega (arith, length-set a n e)),
          last,
          take-set-ge blank n a n e (omega arith),
        )
        (append_one-perm (take n a) e)

-- On an ordered heap of n entries, n below MAX_HEAP_SIZE, heap_push ends and leaves an ordered
-- heap of n + 1 entries that are exactly the old ones and the new one.
pub heap_push-IsHeapOf :
    (n : ℕ) (h : Heap) (elm : Entry)
    → IsHeapOf n h
    → n < max_heap_size
    → Ends (λ h'. IsHeapOf (n + 1) h' × Perm (live h') (elm ∷ live h)) (heap_push h elm)
unfolding heap_push rearrange_bottomup
heap_push-IsHeapOf n h elm v room =
    let full : lez (pos max_heap_size) (pos n) ≡ false = ground arith in
    let inside : n < length h.entry = omega (arith, v.cells) in
    rw (v.size, full, store-ok n h.entry elm inside, push_size n, pop_size n)
      (Ends-bind
        (bottomup_from-Sifted (n + 1) (set h.entry n elm) n
          (set-Rising n h.entry elm inside v.order))
        λ b s. ends (
          record {
            size = refl;
            within = omega arith;
            cells = omega (arith, s.cells, length-set h.entry n elm, v.cells);
            order = s.order;
          },
          Perm.trans s.same (take-set-perm n h.entry elm inside),
        ))

-- heap_push on a full heap never returns.
pub heap_push-full : (h : Heap) (elm : Entry) → IsHeapOf max_heap_size h → heap_push h elm ≡ hang
unfolding heap_push
heap_push-full h elm v = rw v.size

le_of_mem :
    (xs : List Entry) (v : ℤ)
    → ((i : ℕ) → i < length xs → v ≤ℤ key xs i)
    → (t : Entry) → Mem t xs
    → v ≤ℤ t.x
unfolding get_or
le_of_mem [] v h = λ t m. absurd (not-mem-nil m)
le_of_mem (y ∷ xs) v h =
    (forall_mem-cons λ t. le_prop).1
      (h 0 (omega arith), le_of_mem xs v λ i p. h (suc i) (omega arith))

-- No live entry has a smaller deadline than the entry on top.
pub top-least :
    (n : ℕ) (h : Heap) → IsHeapOf n h → (t : Entry) → Mem t (live h) → key h.entry 0 ≤ℤ t.x
top-least n h v = rw v.size (
    le_of_mem (take n h.entry) (key h.entry 0) λ i p.
      let hi : i < n = omega (arith, length-take n h.entry, v.cells, v.within) in
      rw (key, get_or-take blank n h.entry i hi) (root_least n h.entry i v.order hi))

at-mem-take : (n : ℕ) (a : List Entry) → 0 < length a → Mem (at a 0) (take (suc n) a)
unfolding get_or
at-mem-take n [] h = absurd (omega arith)
at-mem-take n (e ∷ a) h = mem-cons_self

-- heap_gettop returns the entry on top, a live entry with the smallest deadline.
pub heap_gettop-least :
    (n : ℕ) (h : Heap)
    → IsHeapOf (n + 1) h
    → Ends
        (λ e. (e ≡ at h.entry 0) × Mem e (live h) × ((t : Entry) → Mem t (live h) → e.x ≤ℤ t.x))
        (heap_gettop h)
unfolding heap_gettop
heap_gettop-least n h v =
    let one : n + 1 ≡ suc n = omega arith in
    let busy : heap_empty h ≡ false = heap_empty-size (n + 1) h v ∙ ground arith in
    rw (busy, load-ok h.entry 0 (omega (arith, v.cells)))
      (ends (
        refl,
        rw (v.size, one) (at-mem-take n h.entry (omega (arith, v.cells))),
        top-least (n + 1) h v,
      ))

-- heap_gettop on an empty heap never returns.
pub heap_gettop-empty : (h : Heap) → IsHeapOf 0 h → heap_gettop h ≡ hang
unfolding heap_gettop
heap_gettop-empty h v = rw (heap_empty-size 0 h v)
