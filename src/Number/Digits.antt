-- ===== src/Number/Digits.antt =====
-- What the digits of a text stand for, and how strtol reads them.
use os_edf.Prelude.{
  ℕ, zero, suc, ◌+◌, ◌*◌, ◌^◌, ◌≤◌, ◌<◌, ◌≡◌, ◌≢◌, refl, sym, ap, subst, inl, inr, Bool-cases, true,
  false, List, [], ◌∷◌, ◌++◌, some, ltb, leb, arith, length,
}
use native.Mathlib.Nat.{le-mul_of_pos_right}
use os_edf.Prelude.Run.{ok}
use os_edf.CString.{Memory}
use os_edf.CString.Compare.{Holds}
use os_edf.Number.{digit_char, pad_chars, digit_of, digit_loop}

-- The text cs, read behind digits of the value v, gives w.
abbrev pub Digits : ℕ → List ℕ → ℕ → ℕ → Type 0
Digits base [] v w = v ≡ w
Digits base (c ∷ cs) v w =
    (d : ℕ) × (digit_of c ≡ some d) × (d < base) × Digits base cs (v * base + d) w

pub Digits-append :
    (base : ℕ) (cs ds : List ℕ) (u v w : ℕ)
    → Digits base cs u v
    → Digits base ds v w
    → Digits base (cs ++ ds) u w
Digits-append base [] ds u v w e f = subst (λ x. Digits base ds x w) (sym e) f
Digits-append base (c ∷ cs) ds u v w (d, p, q, r) f =
    (d, p, q, Digits-append base cs ds (u * base + d) v w r f)

pub Digits-le : (base : ℕ) (cs : List ℕ) (v w : ℕ) → 0 < base → Digits base cs v w → v ≤ w
Digits-le base [] v w h e = omega (arith, e)
Digits-le base (c ∷ cs) v w h (d, p, q, r) =
    let rest = Digits-le base cs (v * base + d) w h r in
    let grows : v ≤ v * base = le-mul_of_pos_right {m = base} v h in omega (arith, rest, grows)

pub digit_of-digit_char : (d : ℕ) → d < 16 → digit_of (digit_char d) ≡ some d
unfolding digit_of
digit_of-digit_char d h = elim (Bool-cases (ltb d 10)) [
  | inl small ↦ ground arith
  | inr large ↦ ground arith
]

-- At the end of the text the digits stop.
pub digit_loop-reads :
    (fuel : ℕ) (m : Memory) (s base v w : ℕ) (cs : List ℕ)
    → 0 < base
    → Holds m s cs
    → Digits base cs v w
    → w < 2 ^ 31
    → length cs < fuel
    → digit_loop fuel m s base v ≡ ok (w, s + length cs)
unfolding digit_loop digit_of
digit_loop-reads zero m s base v w cs pos_base h ds fits enough = absurd (omega (arith, enough))
digit_loop-reads (suc fuel) m s base v w [] pos_base h e fits enough =
    rw (digit_loop, h, e) (ap (λ (x : ℕ). ok (w, x)) (omega arith))
digit_loop-reads (suc fuel) m s base v w (c ∷ cs) pos_base h (d, p, q, r) fits enough =
    let next = v * base + d in
    let at_most = Digits-le base cs next w pos_base r in
    let valid : leb base d ≡ false = ground arith in
    let small : ltb next (2 ^ 31) ≡ true = ground (arith, at_most) in
    let rest =
      digit_loop-reads fuel m (s + 1) base next w cs pos_base h.2 r fits (omega (arith, enough)) in
    rw (digit_loop, h.0, p, valid, small, rest) (ap (λ (x : ℕ). ok (w, x)) (omega arith))

pub digit_of-above : (c d : ℕ) → digit_of c ≡ some d → 48 ≤ c
unfolding digit_of
digit_of-above c d e = elim (Bool-cases (leb 48 c)) [
  | inl above ↦ ground arith
  | inr below ↦ absurd (ground arith)
]

-- No digit below 16 is an x.
pub digit_of-x : (c d : ℕ) → digit_of c ≡ some d → d < 16 → c ≢ 120
unfolding digit_of
digit_of-x c d e h x =
    let large : some 33 ≡ some d = subst (λ y. digit_of y ≡ some d) x e in absurd (ground arith)

pub Digits-zeros : (base n : ℕ) → 0 < base → Digits base (pad_chars n 48) 0 0
unfolding pad_chars digit_of
Digits-zeros base zero h = refl
Digits-zeros base (suc n) h =
    let none_yet : 0 ≡ 0 * base + 0 = omega arith in
    (0, refl, h, subst (λ v. Digits base (pad_chars n 48) v 0) none_yet (Digits-zeros base n h))
