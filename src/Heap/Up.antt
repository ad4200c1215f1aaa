-- ===== src/Heap/Up.antt =====
-- `__rearrange_bottomup` restores the order after an entry was put at the bottom.
use mathlib.Core.Logic.{◌≢◌}
use os_edf.Prelude.{ℕ, zero, suc, ◌+◌, ◌≤◌, ◌<◌, ◌≡◌, refl, List, arith, length, ◌==◌}
use os_edf.Prelude.Int.{ℤ, pos, ◌≤ℤ◌, ◌<ℤ◌, ltz}
use os_edf.Prelude.Run.{Ends, ends, Ends-if}
use os_edf.Heap.{Entry, get_father, bottomup_loop, bottomup_from}
use os_edf.Heap.Cells.{key, swapped, load-ok, exchange-ok, length-swapped, at-swapped}
use os_edf.Heap.Order.{IsBridged, Sifted, Sifted-swapped, Sifted-refl}

-- Only the edge above `i` may be out of order.
pub record Rising (n : ℕ) (a : List Entry) (i : ℕ) : Type 0 where
  pub inside : i < n
  pub room : n ≤ length a
  pub edges : (c : ℕ) → 0 < c → c < n → c ≢ i → key a (get_father c) ≤ℤ key a c
  pub bridged : IsBridged n a i

swapped-Rising :
    (n : ℕ) (a : List Entry) (i : ℕ)
    → Rising n a i
    → 0 < i
    → key a i <ℤ key a (get_father i)
    → Rising n (swapped a (get_father i) i) (get_father i)
swapped-Rising n a i v p below =
    let cell = at-swapped a (get_father i) i (omega arith) (omega arith) in
    record {
      inside = omega arith;
      room = omega (arith, length-swapped a (get_father i) i);
      edges = λ c q r s.
          ground
            (arith, cell c, cell (get_father c), v.edges c, v.bridged c, v.edges (get_father c));
      bridged = λ c q r s t.
          ground
            (arith, cell c, cell (get_father (get_father i)), v.edges c, v.edges (get_father i));
    }

bottomup_loop-Sifted :
    (fuel n : ℕ) (a : List Entry) (i : ℕ) (son_val : ℤ)
    → i < fuel
    → son_val ≡ key a i
    → Rising n a i
    → Ends (Sifted n a) (bottomup_loop fuel son_val a i)
unfolding bottomup_loop
bottomup_loop-Sifted zero n a i s f e v = absurd (omega arith)
bottomup_loop-Sifted (suc fuel) n a i s f e v =
    let father = get_father i in
    let above : father < length a = omega arith in
    rw (load-ok a father above, exchange-ok a father i above (omega arith))
      (Ends-if (father == i)
        (λ root. ends (Sifted-refl n a (λ c p q. v.edges c p q (ground arith))))
        (λ inner.
          Ends-if (ltz s (key a father))
            (λ below. Sifted-swapped n a father i v.room (ground arith) v.inside (
              bottomup_loop-Sifted fuel n (swapped a father i) father s (ground arith)
                (ground (arith, at-swapped a father i above (omega arith) father))
                (swapped-Rising n a i v (ground arith) (ground arith))))
            (λ settled. ends (Sifted-refl n a (λ c p q. ground (arith, v.edges c))))))

pub bottomup_from-Sifted :
    (n : ℕ) (a : List Entry) (i : ℕ) → Rising n a i → Ends (Sifted n a) (bottomup_from a (pos i))
unfolding bottomup_from
bottomup_from-Sifted n a i v =
    rw (load-ok a i (omega arith))
      (bottomup_loop-Sifted (i + 1) n a i (key a i) (omega arith) refl v)
