-- ===== src/Number/RoundTrip.antt =====
-- strtol reads what printnum prints.
use os_edf.Prelude.{
  ℕ, zero, suc, ◌+◌, ◌-◌, ◌^◌, ◌≤◌, ◌<◌, ◌≡◌, ◌≢◌, refl, sym, ap, subst, ◌∙◌, ◌⊎◌, inl, inr, true,
  false, ◌||◌, List, [], ◌∷◌, ◌++◌, ◌==◌, arith, length,
}
use os_edf.Prelude.Int.{ℤ, pos, pos_part}
use os_edf.Prelude.Run.{ok, Ends, Ends-map}
use os_edf.CString.{Memory}
use os_edf.CString.Compare.{Holds}
use os_edf.Number.{pad_chars, printnum, skip_blanks, sign, base_prefix, strtol}
use os_edf.Number.Digits.{
  Digits, Digits-append, Digits-zeros, digit_of-above, digit_of-x, digit_loop-reads,
}
use os_edf.Number.Printing.{Printed, printnum-Printed}

blanks_skipped :
    (n fuel : ℕ) (m : Memory) (s : ℕ) (c : ℕ) (cs : List ℕ)
    → Holds m s (pad_chars n 32 ++ c ∷ cs)
    → 48 ≤ c
    → n < fuel
    → (skip_blanks fuel m s ≡ ok (s + n)) × Holds m (s + n) (c ∷ cs)
unfolding skip_blanks pad_chars
blanks_skipped n zero m s c cs h digit enough = absurd (omega (arith, enough))
blanks_skipped zero (suc fuel) m s c cs h digit enough =
    let here : s + 0 ≡ s = omega arith in
    let stop : ((m s == 32) || (m s == 9)) ≡ false = ground (arith, h.0, digit) in
    (rw stop (ap (λ (x : ℕ). ok x) (sym here)), subst (λ x. Holds m x (c ∷ cs)) (sym here) h)
blanks_skipped (suc n) (suc fuel) m s c cs h digit enough =
    let (rest, holds) = blanks_skipped n fuel m (s + 1) c cs h.2 digit (omega (arith, enough)) in
    let there : s + 1 + n ≡ s + suc n = omega arith in
    let more : ((m s == 32) || (m s == 9)) ≡ true = ground (arith, h.0) in
    (rw (more, rest) (ap (λ (x : ℕ). ok x) there), subst (λ x. Holds m x (c ∷ cs)) there holds)

-- A number without a sign or a prefix
plain :
    (m : Memory) (s base v c : ℕ) (cs : List ℕ)
    → Holds m s (c ∷ cs)
    → Digits base (c ∷ cs) 0 v
    → 1 < base
    → base ≤ 16
    → (sign m s ≡ (false, s)) × (base_prefix m s base ≡ (s, base))
plain m s base v c cs h ds two sixteen =
    let above = digit_of-above c ds.0 ds.1 in
    let no_x : m (s + 1) ≢ 120 = second m s base v c cs h ds sixteen in
    (ground (arith, h.0, above), ground (arith, no_x, two))
  where
    second :
        (m : Memory) (s base v c : ℕ) (cs : List ℕ)
        → Holds m s (c ∷ cs)
        → Digits base (c ∷ cs) 0 v
        → base ≤ 16
        → m (s + 1) ≢ 120
    second m s base v c [] h ds sixteen = λ e. absurd (omega (arith, h.2, e))
    second m s base v c (x ∷ cs) h ds sixteen =
        let (d, p, q, r) = ds.3 in
        let no_x = digit_of-x x d p (omega (arith, q, sixteen)) in λ e. no_x (sym h.2.0 ∙ e)

pub strtol-reads :
    (n fuel : ℕ) (m : Memory) (s base v c : ℕ) (cs : List ℕ)
    → Holds m s (pad_chars n 32 ++ c ∷ cs)
    → Digits base (c ∷ cs) 0 v
    → 1 < base
    → base ≤ 16
    → v < 2 ^ 31
    → n + length (c ∷ cs) < fuel
    → strtol fuel m s base ≡ ok (pos v, s + n + length (c ∷ cs))
unfolding strtol
strtol-reads n fuel m s base v c cs h ds two sixteen fits enough =
    let above = digit_of-above c ds.0 ds.1 in
    let (skip, holds) = blanks_skipped n fuel m s c cs h above (omega (arith, enough)) in
    let (no_sign, no_prefix) = plain m (s + n) base v c cs holds ds two sixteen in
    let digits =
      digit_loop-reads fuel m (s + n) base 0 v (c ∷ cs) (omega (arith, two)) holds ds fits
        (omega (arith, enough)) in
    rw (skip, no_sign, no_prefix, digits) refl

pad_chars-shift : (n : ℕ) (padc : ℕ) (cs : List ℕ) → length (pad_chars n padc ++ cs) ≡ n + length cs
unfolding pad_chars
pad_chars-shift zero padc cs = omega arith
pad_chars-shift (suc n) padc cs = omega (arith, pad_chars-shift n padc cs)

-- Padding with zeros belongs to the digits.
reads-zeros :
    (n fuel : ℕ) (m : Memory) (s base v c : ℕ) (cs : List ℕ)
    → Holds m s (pad_chars n 48 ++ c ∷ cs)
    → Digits base (c ∷ cs) 0 v
    → 1 < base
    → base ≤ 16
    → v < 2 ^ 31
    → n + length (c ∷ cs) < fuel
    → strtol fuel m s base ≡ ok (pos v, s + (n + length (c ∷ cs)))
unfolding pad_chars
reads-zeros zero fuel m s base v c cs h ds two sixteen fits enough =
    strtol-reads 0 fuel m s base v c cs h ds two sixteen fits enough
    ∙ ap (λ (x : ℕ). ok (pos v, x)) (omega arith)
reads-zeros (suc n) fuel m s base v c cs h ds two sixteen fits enough =
    let zeros = Digits-zeros base (suc n) (omega (arith, two)) in
    let all = Digits-append base (pad_chars (suc n) 48) (c ∷ cs) 0 0 v zeros ds in
    let size = pad_chars-shift n 48 (c ∷ cs) in
    strtol-reads 0 fuel m s base v 48 (pad_chars n 48 ++ c ∷ cs) h all two sixteen fits
      (omega (arith, enough, size))
    ∙ ap (λ (x : ℕ). ok (pos v, x)) (omega (arith, size))

Printed-strtol :
    (fuel : ℕ) (m : Memory) (s num base : ℕ) (width : ℤ) (padc : ℕ) (cs : List ℕ)
    → Printed num base width padc cs
    → 1 < base
    → base ≤ 16
    → num < 2 ^ 31
    → (padc ≡ 32) ⊎ (padc ≡ 48)
    → Holds m s cs
    → length cs < fuel
    → strtol fuel m s base ≡ ok (pos num, s + length cs)
Printed-strtol fuel m s num base width padc cs p two sixteen fits kind h enough =
    let n = pos_part width - length (p.first ∷ p.others) in
    let size : length cs ≡ n + length (p.first ∷ p.others) =
      ap (λ (l : List ℕ). length l) p.text ∙ pad_chars-shift n padc (p.first ∷ p.others) in
    let text = subst (λ l. Holds m s l) p.text h in
    elim kind [
      | inl blank ↦
          strtol-reads n fuel m s base num p.first p.others
            (subst (λ c. Holds m s (pad_chars n c ++ p.first ∷ p.others)) blank text) p.digits two
            sixteen fits (omega (arith, enough, size))
          ∙ ap (λ (x : ℕ). ok (pos num, x)) (omega (arith, size))
      | inr nought ↦
          reads-zeros n fuel m s base num p.first p.others
            (subst (λ c. Holds m s (pad_chars n c ++ p.first ∷ p.others)) nought text) p.digits two
            sixteen fits (omega (arith, enough, size))
          ∙ ap (λ (x : ℕ). ok (pos num, x)) (omega (arith, size))
    ]

-- For a number below 2^31, a base from 2 to 16, any width, and blanks or zeros for padding:
-- printnum ends with 32 for its fuel, and wherever its text stands with a NUL behind it, strtol
-- in that base, with fuel above the length of the text, returns the number and the address of
-- the NUL.
pub printnum-strtol :
    (num base : ℕ) (width : ℤ) (padc : ℕ)
    → 1 < base
    → base ≤ 16
    → num < 2 ^ 31
    → (padc ≡ 32) ⊎ (padc ≡ 48)
    → Ends
        (λ cs.
          (m : Memory) (s fuel' : ℕ)
          → Holds m s cs
          → length cs < fuel'
          → strtol fuel' m s base ≡ ok (pos num, s + length cs))
        (printnum 32 num base width padc)
printnum-strtol num base width padc two sixteen fits kind =
    Ends-map (printnum-Printed 31 num base width padc two sixteen fits) λ cs p m s fuel' h more.
      Printed-strtol fuel' m s num base width padc cs p two sixteen fits kind h more
