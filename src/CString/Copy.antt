-- ===== src/CString/Copy.antt =====
-- The copying routines, also where the two objects overlap.
use os_edf.Prelude.{
  ℕ, zero, suc, ◌+◌, ◌-◌, ◌*◌, ◌/◌, ◌%◌, ◌≤◌, ◌≡◌, refl, sym, ap, ◌∙◌, ◌⊎◌, inl, inr, arith, ltb,
  leb, ◌&&◌, if◌then◌else◌, Bool-cases,
}
use os_edf.CString.{
  Memory, write, memset, rep_movsb, rep_movsb_down, movsl, rep_movsl, memmove, memcpy,
}

-- The n bytes from `s`, moved to `d`; everything else as it was.
abbrev pub Moved : Memory → ℕ → ℕ → ℕ → Memory → Type 0
Moved m d s n m' = (q : ℕ) → m' q ≡ (if leb d q && ltb q (d + n) then m (s + (q - d)) else m q)

rep_movsb_down-Moved :
    (n : ℕ) (m : Memory) (d s : ℕ) → s ≤ d → Moved m d s n (rep_movsb_down m d s n)
unfolding rep_movsb_down
rep_movsb_down-Moved zero m d s h q = ground arith
rep_movsb_down-Moved (suc n) m d s h q =
    ground (arith, rep_movsb_down-Moved n (write m (d + n) (m (s + n))) d s h q)

rep_movsb-Moved :
    (n : ℕ) (m : Memory) (d s : ℕ) → (d ≤ s) ⊎ (s + n ≤ d) → Moved m d s n (rep_movsb m d s n)
unfolding rep_movsb
rep_movsb-Moved zero m d s h q = ground arith
rep_movsb-Moved (suc n) m d s h q =
    ground (arith, rep_movsb-Moved n (write m d (m s)) (d + 1) (s + 1) (omega arith) q)

-- Where the destination does not start behind the source, four bytes at once are moved as one
-- by one.
movsl-movsb : (m : Memory) (d s : ℕ) → (d ≤ s) ⊎ (s + 4 ≤ d) → movsl m d s ≡ rep_movsb m d s 4
unfolding rep_movsb
movsl-movsb m d s h =
    let at_two : d + 1 + 1 ≡ d + 2 = omega arith in
    let at_three : d + 1 + 1 + 1 ≡ d + 3 = omega arith in
    let same : (q : ℕ) → movsl m d s q ≡ rep_movsb m d s 4 q =
      λ q. ground (arith, at_two, at_three) in
    λ i q. same q i

rep_movsb_add :
    (a b : ℕ) (m : Memory) (d s : ℕ)
    → rep_movsb m d s (a + b) ≡ rep_movsb (rep_movsb m d s a) (d + a) (s + a) b
unfolding rep_movsb
rep_movsb_add zero b m d s =
    let e : d + 0 ≡ d = omega arith in
    let f : s + 0 ≡ s = omega arith in let g : 0 + b ≡ b = omega arith in rw (e, f, g) refl
rep_movsb_add (suc a) b m d s =
    let rest = rep_movsb_add a b (write m d (m s)) (d + 1) (s + 1) in
    let here : d + 1 + a ≡ d + suc a = omega arith in
    let there : s + 1 + a ≡ s + suc a = omega arith in
    let sum : suc a + b ≡ suc (a + b) = omega arith in rw (sym here, sym there, sum) rest

rep_movsl-movsb :
    (n : ℕ) (m : Memory) (d s : ℕ)
    → (d ≤ s) ⊎ (s + 4 * n ≤ d)
    → rep_movsl m d s n ≡ rep_movsb m d s (4 * n)
unfolding rep_movsl rep_movsb
rep_movsl-movsb zero m d s h = refl
rep_movsl-movsb (suc n) m d s h =
    let size : 4 * suc n ≡ 4 + 4 * n = omega arith in
    rw (movsl-movsb m d s (omega (arith, h)), size, rep_movsb_add 4 (4 * n) m d s)
      (rep_movsl-movsb n (rep_movsb m d s 4) (d + 4) (s + 4) (omega (arith, h)))

pub memcpy-movsb :
    (m : Memory) (d s n : ℕ) → (d ≤ s) ⊎ (s + n ≤ d) → memcpy m d s n ≡ rep_movsb m d s n
unfolding memcpy
memcpy-movsb m d s n h =
    let size : 4 * (n / 4) + n % 4 ≡ n = omega arith in
    rw (rep_movsl-movsb (n / 4) m d s (omega (arith, h)))
      (sym (rep_movsb_add (4 * (n / 4)) (n % 4) m d s) ∙ ap (rep_movsb m d s) size)

-- After memmove, which is the assembly of __memmove and __memcpy in x86.h, also of overlapping
-- objects, the n bytes at the destination are those that stood at the source before, and every
-- other byte is as it was.
pub memmove-Moved : (m : Memory) (d s n : ℕ) → Moved m d s n (memmove m d s n)
unfolding memmove
memmove-Moved m d s n = elim (Bool-cases (ltb d s)) [
  | inl up ↦
      let low : d ≤ s = ground (arith, up) in
      rw (up, memcpy-movsb m d s n (inl low)) (rep_movsb-Moved n m d s (inl low))
  | inr down ↦ rw down (rep_movsb_down-Moved n m d s (ground (arith, down)))
]

pub memset-fills :
    (n : ℕ) (m : Memory) (p c q : ℕ)
    → memset m p c n q ≡ (if leb p q && ltb q (p + n) then c else m q)
unfolding memset
memset-fills zero m p c q = ground arith
memset-fills (suc n) m p c q = ground (arith, memset-fills n (write m p c) (p + 1) c q)
