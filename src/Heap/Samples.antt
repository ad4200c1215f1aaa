-- ===== src/Heap/Samples.antt =====
-- Concrete heaps for the examples.
use os_edf.Prelude.{ℕ, zero, suc, refl, ◌∷◌, arith, replicate, get_or}
use os_edf.Prelude.Int.{pos}
use os_edf.Heap.{Entry, Heap}
use os_edf.Heap.Cells.{blank}
use os_edf.Heap.Order.{IsOrdered}
use os_edf.Heap.Contract.{IsHeapOf}

abbrev pub entry : ℕ → ℕ → Entry
entry p x = record { proc = p; x = pos x }

abbrev pub two_waiting : Heap
two_waiting = record { entry = entry 1 3 ∷ entry 2 5 ∷ replicate 1022 blank; size = pos 2 }

pub two_waiting-IsOrdered : IsOrdered 2 two_waiting.entry
unfolding get_or
two_waiting-IsOrdered zero p q = absurd (omega arith)
two_waiting-IsOrdered (suc zero) p q = omega arith
two_waiting-IsOrdered (suc (suc c)) p q = absurd (omega arith)

pub two_waiting-IsHeapOf : IsHeapOf 2 two_waiting
two_waiting-IsHeapOf = record {
  size = refl;
  within = omega arith;
  cells = refl;
  order = two_waiting-IsOrdered;
}

abbrev pub nobody : Heap
nobody = record { entry = replicate 1024 blank; size = pos 0 }

pub nobody-IsHeapOf : IsHeapOf 0 nobody
nobody-IsHeapOf = record {
  size = refl;
  within = omega arith;
  cells = refl;
  order = λ c p q. absurd (omega arith);
}
