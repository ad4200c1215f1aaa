-- ===== src/Heap/Tests.antt =====
-- Runs of the heap, and its theorems at concrete heaps.
use os_edf.Prelude.{◌≡◌, refl, false, ◌∷◌, Mem, Perm, arith}
use os_edf.Prelude.Int.{ℤ, pos, negsuc, ◌+ℤ◌, ◌-ℤ◌, ◌≤ℤ◌}
use os_edf.Prelude.Run.{Run, ok, Ends, ◌>>=◌}
use os_edf.Heap.{
  Entry, live, heap_push, heap_pop, heap_gettop, heap_empty, rearrange_bottomup, rearrange_topdown,
  store, load, bottomup_from, bottomup_loop, topdown_loop, topdown_last, exchange, move_last,
}
use os_edf.Heap.Cells.{at}
use os_edf.Heap.Contract.{IsHeapOf, heap_push-IsHeapOf, heap_gettop-least}
use os_edf.Heap.Pop.{Popped, heap_pop-Popped, heap_pop-empty}
use os_edf.Heap.Samples.{entry, two_waiting, two_waiting-IsHeapOf, nobody, nobody-IsHeapOf}

-- A push of deadline 1 on 3 and 5 and two pops: 1, then 3.
push_pop_pop : Run (ℤ × ℤ)
push_pop_pop = do
  h ← heap_push two_waiting (entry 4 1)
  (a, g) ← heap_pop h
  (b, f) ← heap_pop g
  ok (a.x, b.x)

popped_in_order : push_pop_pop ≡ ok (pos 1, pos 3)
unfolding push_pop_pop heap_push heap_pop rearrange_bottomup rearrange_topdown store load
    bottomup_from bottomup_loop topdown_loop topdown_last exchange move_last ◌+ℤ◌ ◌-ℤ◌
popped_in_order = refl

heap_push-IsHeapOf_example :
    Ends
      (λ h. IsHeapOf 3 h × Perm (live h) (entry 4 1 ∷ live two_waiting))
      (heap_push two_waiting (entry 4 1))
heap_push-IsHeapOf_example =
    heap_push-IsHeapOf 2 two_waiting (entry 4 1) two_waiting-IsHeapOf (omega arith)

heap_pop-Popped_example : Ends (Popped 1 two_waiting) (heap_pop two_waiting)
heap_pop-Popped_example = heap_pop-Popped 1 two_waiting two_waiting-IsHeapOf

heap_gettop-least_example :
    Ends
      (λ e.
        (e ≡ at two_waiting.entry 0)
        × Mem e (live two_waiting)
        × ((t : Entry) → Mem t (live two_waiting) → e.x ≤ℤ t.x))
      (heap_gettop two_waiting)
heap_gettop-least_example = heap_gettop-least 1 two_waiting two_waiting-IsHeapOf

heap_pop-empty_example :
    (heap_pop nobody ≡ ok (at nobody.entry 0, record nobody { size = negsuc 0 }))
    × (heap_empty (record nobody { size = negsuc 0 }) ≡ false)
heap_pop-empty_example = heap_pop-empty nobody nobody-IsHeapOf
