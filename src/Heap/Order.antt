-- ===== src/Heap/Order.antt =====
-- The heap order over the first n cells of the array.
use mathlib.Core.List.Perm
use os_edf.Prelude.{ℕ, zero, suc, ◌≤◌, ◌<◌, ◌≡◌, List, Perm, arith, length, take}
use os_edf.Prelude.Int.{◌≤ℤ◌}
use os_edf.Prelude.Run.{Run, Ends, Ends-map}
use os_edf.Heap.{Entry, get_father}
use os_edf.Heap.Cells.{key, swapped, length-swapped, take-swapped-perm}

-- No entry is smaller than its father.
abbrev pub IsOrdered : ℕ → List Entry → Type 0
IsOrdered n a = (c : ℕ) → 0 < c → c < n → key a (get_father c) ≤ℤ key a c

-- The father of `i` is no larger than the children of `i`.
abbrev pub IsBridged : ℕ → List Entry → ℕ → Type 0
IsBridged n a i =
    (c : ℕ) → 0 < c → c < n → get_father c ≡ i → 0 < i → key a (get_father i) ≤ℤ key a c

-- `b` holds the first n entries of `a`, in heap order, in an array of the same size.
pub record Sifted (n : ℕ) (a b : List Entry) : Type 0 where
  pub order : IsOrdered n b
  pub same : Perm (take n b) (take n a)
  pub cells : length b ≡ length a

pub Sifted-swapped :
    (n : ℕ) (a : List Entry) (i j : ℕ) {r : Run (List Entry)}
    → n ≤ length a
    → i < n
    → j < n
    → Ends (Sifted n (swapped a i j)) r
    → Ends (Sifted n a) r
Sifted-swapped n a i j hn hi hj run = Ends-map run λ b s. record {
  order = s.order;
  same = Perm.trans s.same (take-swapped-perm a n i j hn hi hj);
  cells = omega (arith, s.cells, length-swapped a i j);
}

pub Sifted-refl : (n : ℕ) (a : List Entry) → IsOrdered n a → Sifted n a a
Sifted-refl n a h = record { order = h; same = Perm.rfl; cells = omega arith }

root_least_below :
    (k n : ℕ) (a : List Entry) (i : ℕ) → IsOrdered n a → i < k → i < n → key a 0 ≤ℤ key a i
root_least_below zero n a i h f p = absurd (omega arith)
root_least_below (suc k) n a zero h f p = omega arith
root_least_below (suc k) n a (suc i) h f p = omega (
  arith,
  h (suc i) (omega arith) p,
  root_least_below k n a (get_father (suc i)) h (omega arith) (omega arith),
)

-- The root of an ordered heap has the smallest deadline.
pub root_least : (n : ℕ) (a : List Entry) (i : ℕ) → IsOrdered n a → i < n → key a 0 ≤ℤ key a i
root_least n a i h p = root_least_below (suc i) n a i h (omega arith) p
