-- ===== src/Heap/Cells.antt =====
-- The array behind the heap: loads and exchanges within it.
use mathlib.Core.List.Perm
use os_edf.Prelude.{
  ℕ, zero, suc, ◌≤◌, ◌<◌, ◌≡◌, refl, List, [], ◌∷◌, Perm, arith, length, set, take, get_or,
  length-set, length-take, get_or-set, get_or-take, take-set-lt, set-perm, ◌==◌, if◌then◌else◌,
}
use os_edf.Prelude.Int.{ℤ, pos}
use os_edf.Prelude.Run.{ok}
use os_edf.Heap.{Entry, load, exchange}

abbrev pub blank : Entry
blank = record { proc = 0; x = pos 0 }

abbrev pub at : List Entry → ℕ → Entry
at a i = get_or a i blank

abbrev pub key : List Entry → ℕ → ℤ
key a i = (at a i).x

-- What `__exchange` leaves.
pub swapped : List Entry → ℕ → ℕ → List Entry
swapped a x y = set (set a y (at a x)) x (at a y)

pub load-ok : (a : List Entry) (i : ℕ) → i < length a → load a i ≡ ok (at a i)
unfolding load get_or
load-ok [] i h = absurd (omega arith)
load-ok (e ∷ a) zero h = refl
load-ok (e ∷ a) (suc i) h = load-ok a i (omega arith)

pub length-swapped : (a : List Entry) (i j : ℕ) → length (swapped a i j) ≡ length a
unfolding swapped
length-swapped a i j = simp length-set

module _ (a : List Entry) (i j : ℕ) (hi : i < length a) (hj : j < length a) where
  pub exchange-ok : exchange a i j ≡ ok (swapped a i j)
  unfolding exchange swapped
  exchange-ok = rw (load-ok a j hj, load-ok a i hi)

  pub at-swapped :
      (c : ℕ)
      → at (swapped a i j) c ≡ (if i == c then at a j else if j == c then at a i else at a c)
  unfolding swapped
  at-swapped c = rw (
    get_or-set blank (set a j (at a i)) i c (at a j) (rw length-set hi),
    get_or-set blank a j c (at a i) hj,
  )

  pub swapped-perm : Perm (swapped a i j) a
  unfolding swapped
  swapped-perm =
      let b = set a j (at a i) in
      let kept : at b i ≡ at a i = ground (arith, get_or-set blank a j i (at a i) hj) in
      let second = rw kept at (set-perm blank b i (at a j) (rw length-set hi)) in
      Perm.cons_inv (Perm.trans second (set-perm blank a j (at a i) hj))

-- An exchange within the first n cells keeps what they hold.
pub take-swapped-perm :
    (a : List Entry) (n i j : ℕ)
    → n ≤ length a
    → i < n
    → j < n
    → Perm (take n (swapped a i j)) (take n a)
unfolding swapped
take-swapped-perm a n i j hn hi hj =
    let size = length-take n a hn in
    rw
      (
        take-set-lt blank n (set a j (at a i)) i (at a j),
        take-set-lt blank n a j (at a i),
        ← get_or-take blank n a i hi,
        ← get_or-take blank n a j hj,
      )
      (unfold swapped in swapped-perm (take n a) i j (omega (arith, size)) (omega (arith, size)))
