-- ===== src/Heap/Pop.antt =====
-- heap_pop removes a least entry.
use mathlib.Core.List.Perm
use os_edf.Prelude.{
  ℕ, suc, ◌+◌, ◌≤◌, ◌<◌, ◌≡◌, refl, List, [], ◌∷◌, Perm, Mem, false, arith, length, set, take,
  get_or, length-set, get_or-set, take-suc, take-set-lt, set-perm, append_one-perm, ltb,
  length-take, get_or-take, if◌then◌else◌, Bool-cases, inl, inr, ◌∙◌,
}
use os_edf.Prelude.Int.{pos, negsuc, ◌-ℤ◌, ◌≤ℤ◌}
use os_edf.Prelude.Run.{ok, Ends, ends, Ends-bind}
use os_edf.Heap.{
  Entry, Heap, max_heap_size, live, heap_empty, heap_pop, move_last, rearrange_topdown, get_father,
  topdown_loop, topdown_last,
}
use os_edf.Heap.Cells.{blank, at, load-ok}
use os_edf.Heap.Down.{Sinking, rearrange_topdown-Sifted}
use os_edf.Heap.Contract.{IsHeapOf, pop_size, store-ok, top-least}

-- What heap_pop promises: an entry of the smallest deadline, and a heap of the others.
pub record Popped (n : ℕ) (h : Heap) (r : Entry × Heap) : Type 0 where
  pub valid : IsHeapOf n r.1
  pub same : Perm (r.0 ∷ live r.1) (live h)
  pub least : (t : Entry) → Mem t (live h) → r.0.x ≤ℤ t.x
  pub top : r.0 ≡ at h.entry 0

first-perm : (a : List Entry) → 0 < length a → take 1 a ≡ at a 0 ∷ []
unfolding get_or
first-perm [] h = absurd (omega arith)
first-perm (e ∷ a) h = refl

-- The array after the last of n + 1 entries took the first place.
moved : ℕ → List Entry → List Entry
moved n a = if ltb 1 (n + 1) then set a 0 (at a n) else a

module _ (n : ℕ) (h : Heap) (v : IsHeapOf (n + 1) h) where
  move_last-ok : move_last h ≡ ok (moved n h.entry)
  unfolding move_last moved
  move_last-ok =
      let hn : n < length h.entry = omega (arith, v.cells, v.within) in
      let h0 : 0 < length h.entry = omega (arith, v.cells) in
      rw (v.size, pop_size n, load-ok h.entry n hn, store-ok 0 h.entry (at h.entry n) h0)
        (ground arith)

  length-moved : length (moved n h.entry) ≡ max_heap_size
  unfolding moved
  length-moved = ground (arith, length-set h.entry 0 (at h.entry n), v.cells)

  moved-Sinking : Sinking n (moved n h.entry) 0
  unfolding moved
  moved-Sinking =
      let cell = λ (c : ℕ). get_or-set blank h.entry 0 c (at h.entry n) (omega (arith, v.cells)) in
      record {
        room = omega (arith, length-moved, v.within);
        edges = λ c p q r. ground (arith, cell c, cell (get_father c), v.order c);
        bridged = λ c p q r s. absurd (omega arith);
      }

  moved-perm : Perm (at h.entry 0 ∷ take n (moved n h.entry)) (take (n + 1) h.entry)
  unfolding moved
  moved-perm = elim (Bool-cases (ltb 1 (n + 1))) [
    | inl more ↦
        let one : n + 1 ≡ suc n = omega arith in
        let n0 : 0 < n = ground arith in
        let all : n ≤ length h.entry = omega (arith, v.cells, v.within) in
        let whole = take-suc blank n h.entry (omega (arith, v.cells, v.within)) in
        let first =
          set-perm blank (take n h.entry) 0 (at h.entry n)
            (omega (arith, length-take n h.entry all)) in
        rw
          (
            more,
            one,
            whole,
            take-set-lt blank n h.entry 0 (at h.entry n),
            ← get_or-take blank n h.entry 0 n0,
          )
          (Perm.trans first (Perm.symm (append_one-perm (take n h.entry) (at h.entry n))))
    | inr few ↦
        let none_left : n ≡ 0 = ground arith in
        rw (few, none_left, first-perm h.entry (omega (arith, v.cells))) Perm.rfl
  ]

-- On a heap of n + 1 entries in order heap_pop ends; it returns the entry of cell 0, whose
-- deadline is no larger than that of any live entry, and leaves an ordered heap of n entries
-- that together with the returned one are exactly the old live entries.
pub heap_pop-Popped : (n : ℕ) (h : Heap) → IsHeapOf (n + 1) h → Ends (Popped n h) (heap_pop h)
unfolding heap_pop
heap_pop-Popped n h v =
    let size : h.size -ℤ pos 1 ≡ pos n = rw v.size (pop_size n) in
    rw (load-ok h.entry 0 (omega (arith, v.cells)), move_last-ok n h v, size)
      (Ends-bind
        (rearrange_topdown-Sifted n (moved n h.entry) (omega (arith, length-moved n h v))
          (moved-Sinking n h v))
        λ h' (size', s). ends (record {
          valid = record {
            size = size';
            within = omega (arith, v.within);
            cells = s.cells ∙ length-moved n h v;
            order = s.order;
          };
          same = rw (size', v.size) (Perm.trans (Perm.cons _ s.same) (moved-perm n h v));
          least = top-least (n + 1) h v;
          top = refl;
        }))

-- heap_pop on an empty heap returns the stale entry of cell 0 and leaves size -1, and a heap of
-- size -1 is not empty to heap_empty.
pub heap_pop-empty :
    (h : Heap)
    → IsHeapOf 0 h
    → (heap_pop h ≡ ok (at h.entry 0, record h { size = negsuc 0 }))
      × (heap_empty (record h { size = negsuc 0 }) ≡ false)
unfolding heap_pop rearrange_topdown move_last heap_empty topdown_loop topdown_last ◌-ℤ◌
heap_pop-empty h v = (rw (v.size, load-ok h.entry 0 (omega (arith, v.cells))) refl, refl)
