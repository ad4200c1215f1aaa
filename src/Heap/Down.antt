-- ===== src/Heap/Down.antt =====
-- `__rearrange_topdown` restores the order after an entry was put at the top.
use mathlib.Core.Logic.{◌≢◌, ◌⊎◌, inl, inr}
use mathlib.Core.List.Perm
use os_edf.Prelude.{
  ℕ, zero, suc, ◌+◌, ◌-◌, ◌≤◌, ◌<◌, ◌≡◌, refl, List, Perm, arith, length, take, ltb, ◌==◌,
}
use os_edf.Prelude.Int.{ℤ, pos, ◌-ℤ◌, ◌≤ℤ◌, ◌<ℤ◌, ltz, eqz}
use os_edf.Prelude.Run.{Run, Ends, ends, Ends-if, Ends-map, Ends-bind}
use os_edf.Heap.{
  Entry, get_father, get_lc, min_child, topdown_loop, topdown_last, rearrange_topdown,
}
use os_edf.Heap.Cells.{
  key, swapped, load-ok, exchange-ok, length-swapped, at-swapped, take-swapped-perm,
}
use os_edf.Heap.Order.{IsOrdered, IsBridged, Sifted, Sifted-swapped, Sifted-refl}

-- Only the edges below `i` may be out of order.
pub record Sinking (n : ℕ) (a : List Entry) (i : ℕ) : Type 0 where
  pub room : n ≤ length a
  pub edges : (c : ℕ) → 0 < c → c < n → get_father c ≢ i → key a (get_father c) ≤ℤ key a c
  pub bridged : IsBridged n a i

-- `m` is the child of `i` with the smaller value.
record IsSmaller (n : ℕ) (a : List Entry) (i m : ℕ) : Type 0 where
  inside : m < n
  child : get_father m ≡ i
  below : i < m
  least : (c : ℕ) → 0 < c → c < n → get_father c ≡ i → key a m ≤ℤ key a c

-- What the loop leaves: the order, or an entry whose children it has yet to look at.
record Stopped (n : ℕ) (father_val : ℤ) (a : List Entry) (r : List Entry × ℕ × ℕ) : Type 0 where
  same : Perm (take n r.0) (take n a)
  cells : length r.0 ≡ length a
  child : r.2 ≡ get_lc r.1
  rest :
      (IsOrdered n r.0 × (r.2 + 1 < n))
      ⊎ (Sinking n r.0 r.1 × (key r.0 r.1 ≡ father_val) × (n ≤ r.2 + 1))

below_last : (i n : ℕ) → ltz (pos i) (pos n -ℤ pos 1) ≡ ltb (i + 1) n
unfolding ◌-ℤ◌
below_last i n = ground arith

is_last : (i n : ℕ) → eqz (pos i) (pos n -ℤ pos 1) ≡ (i + 1 == n)
unfolding ◌-ℤ◌
is_last i n = ground arith

min_child-IsSmaller :
    (n : ℕ) (a : List Entry) (i : ℕ)
    → get_lc i + 1 < n
    → IsSmaller n a i (min_child (key a (get_lc i)) (key a (get_lc i + 1)) (get_lc i))
min_child-IsSmaller n a i h = record {
  inside = ground arith;
  child = ground arith;
  below = ground arith;
  least =
      λ c p q r. let two : (c ≡ get_lc i) ⊎ (c ≡ get_lc i + 1) = omega arith in ground (arith, two);
}

swapped-Sinking :
    (n : ℕ) (a : List Entry) (i m : ℕ)
    → Sinking n a i
    → IsSmaller n a i m
    → key a m <ℤ key a i
    → Sinking n (swapped a i m) m
swapped-Sinking n a i m v s smaller =
    let cell = at-swapped a i m (omega arith) (omega arith) in
    record {
      room = omega (arith, length-swapped a i m);
      edges =
          λ c p q r. ground (arith, cell c, cell (get_father c), v.edges c, v.bridged m, s.least c);
      bridged = λ c p q r t. ground (arith, cell c, cell (get_father m), v.edges c);
    }

Stopped-swapped :
    (n : ℕ) (v : ℤ) (a : List Entry) (i m : ℕ) {r : Run (List Entry × ℕ × ℕ)}
    → n ≤ length a
    → i < n
    → m < n
    → Ends (Stopped n v (swapped a i m)) r
    → Ends (Stopped n v a) r
Stopped-swapped n v a i m hn hi hm run = Ends-map run λ r s. record {
  same = Perm.trans s.same (take-swapped-perm a n i m hn hi hm);
  cells = omega (arith, s.cells, length-swapped a i m);
  child = s.child;
  rest = s.rest;
}

topdown_loop-Stopped :
    (fuel n : ℕ) (a : List Entry) (i : ℕ) (v : ℤ)
    → n - i < fuel
    → key a i ≡ v
    → Sinking n a i
    → Ends (Stopped n v a) (topdown_loop fuel (pos n) v a i)
unfolding topdown_loop
topdown_loop-Stopped zero n a i v f e s = absurd (omega arith)
topdown_loop-Stopped (suc fuel) n a i v f e s = rw (below_last (get_lc i) n) (
    Ends-if (ltb (get_lc i + 1) n)
      (λ two.
        let m = min_child (key a (get_lc i)) (key a (get_lc i + 1)) (get_lc i) in
        let small = min_child-IsSmaller n a i (ground arith) in
        let hi : i < length a = ground (arith, s.room) in
        let hm : m < length a = omega (arith, s.room, small.inside) in
        rw
          (
            load-ok a (get_lc i) (ground (arith, s.room)),
            load-ok a (get_lc i + 1) (ground (arith, s.room)),
            load-ok a m hm,
            exchange-ok a i m hi hm,
          )
          (Ends-if (ltz (key a m) v)
            (λ less. Stopped-swapped n v a i m s.room (ground arith) small.inside (
              topdown_loop-Stopped fuel n (swapped a i m) m v (omega (arith, small.below))
                (ground (arith, at-swapped a i m hi hm m))
                (swapped-Sinking n a i m s small (ground arith))))
            (λ settled. ends (record {
              same = Perm.rfl;
              cells = refl;
              child = refl;
              rest = inl (λ c p q. ground (arith, s.edges c, small.least c), ground arith);
            }))))
      (λ few.
        ends (record {
          same = Perm.rfl;
          cells = refl;
          child = refl;
          rest = inr (s, e, ground arith);
        })))

-- With one child left, an exchange with it ends the descent.
swapped-last :
    (n : ℕ) (a : List Entry) (i lc : ℕ)
    → Sinking n a i
    → lc ≡ get_lc i
    → lc + 1 ≡ n
    → key a lc <ℤ key a i
    → IsOrdered n (swapped a i lc)
swapped-last n a i lc s e one less c p q =
    let cell = at-swapped a i lc (omega arith) (omega arith) in
    let only : (get_father c ≢ i) ⊎ (c ≡ lc) = omega arith in
    let down : get_father c ≢ lc = omega arith in
    ground (arith, cell c, cell (get_father c), s.edges c, s.bridged lc, only, down)

topdown_last-Sifted :
    (n : ℕ) (v : ℤ) (a : List Entry) (r : List Entry × ℕ × ℕ)
    → n ≤ length a
    → Stopped n v a r
    → Ends (Sifted n a) (topdown_last (pos n) v r)
unfolding topdown_last
topdown_last-Sifted n v a (b, i, lc) room t = elim t.rest [
  | inl (done, more) ↦ rw (is_last lc n) (
      Ends-if (lc + 1 == n) (λ e. absurd (ground arith))
        (λ _. ends (record { order = done; same = t.same; cells = t.cells })))
  | inr (s, e, few) ↦ rw (is_last lc n) (
      Ends-map {P = Sifted n b}
        (Ends-if (lc + 1 == n)
          (λ one.
            let hc : lc < length b = ground (arith, t.cells) in
            let hi : i < length b = omega (arith, t.child) in
            let in_n : lc < n = ground arith in
            rw (load-ok b lc hc, exchange-ok b i lc hi hc)
              (Ends-if (ltz (key b lc) v)
                (λ less. Sifted-swapped n b i lc s.room (omega (arith, t.child)) in_n (
                  ends (
                    Sifted-refl n (swapped b i lc)
                      (swapped-last n b i lc s t.child (ground arith) (ground arith)))))
                (λ settled. ends (
                  Sifted-refl n b (λ c p q.
                    let only : get_father c ≡ i → c ≡ lc = λ f. ground (arith, t.child) in
                    ground (arith, s.edges c, only))))))
          (λ none_left. ends (Sifted-refl n b (λ c p q. ground (arith, s.edges c, t.child)))))
        λ d u. record {
          order = u.order;
          same = Perm.trans u.same t.same;
          cells = omega (arith, u.cells, t.cells);
        })
]

-- `__rearrange_topdown` orders an array with one entry too high, and keeps its entries.
pub rearrange_topdown-Sifted :
    (n : ℕ) (a : List Entry)
    → 0 < length a
    → Sinking n a 0
    → Ends
        (λ h. (h.size ≡ pos n) × Sifted n a h.entry)
        (rearrange_topdown (record { entry = a; size = pos n }))
unfolding rearrange_topdown
rearrange_topdown-Sifted n a some_cell s = rw (load-ok a 0 some_cell) (
    Ends-bind (topdown_loop-Stopped (n + 1) n a 0 (key a 0) (omega arith) refl s)
      λ r t. Ends-bind (topdown_last-Sifted n (key a 0) a r s.room t) λ b u. ends (refl, u))
