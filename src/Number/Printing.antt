-- ===== src/Number/Printing.antt =====
-- What printnum prints: the padding and the digits of the number.
use os_edf.Prelude.{
  ℕ, zero, suc, ◌-◌, ◌*◌, ◌/◌, ◌%◌, ◌^◌, ◌≤◌, ◌<◌, ◌≡◌, refl, ap, ◌∙◌, inl, inr, Bool-cases, false,
  List, [], ◌∷◌, ◌++◌, leb, arith, length, length-append,
}
use mathlib.Core.List.{append_assoc}
use native.Mathlib.Numerals.{unary_clauses}
use native.Mathlib.Nat.{div-add-mod', mod-lt, mod-eq_of_lt, mul-le-mul_left, div-lt_iff_lt-mul}
use os_edf.Prelude.Int.{ℤ, pos, negsuc, pos_part}
use os_edf.Prelude.Run.{Ends, ends, Ends-bind}
use os_edf.Number.{digit_char, pad_chars, pad, narrower, printnum}
use os_edf.Number.Digits.{Digits, Digits-append, digit_of-digit_char}

-- The padding up to the width, and the digits of the number
pub record Printed (num base : ℕ) (width : ℤ) (padc : ℕ) (cs : List ℕ) : Type 0 where
  pub first : ℕ
  pub others : List ℕ
  pub text : cs ≡ pad_chars (pos_part width - length (first ∷ others)) padc ++ first ∷ others
  pub digits : Digits base (first ∷ others) 0 num

narrower-pos_part : (width : ℤ) → pos_part (narrower width) ≡ pos_part width - 1
narrower-pos_part (pos zero) = refl
narrower-pos_part (pos (suc n)) = ground arith
narrower-pos_part (negsuc n) = refl

pad-pad_chars : (width : ℤ) (padc : ℕ) → pad width padc ≡ pad_chars (pos_part width - 1) padc
unfolding pad_chars
pad-pad_chars (pos n) padc = refl
pad-pad_chars (negsuc n) padc = refl

-- A number of one digit
single :
    (num base : ℕ) (width : ℤ) (padc : ℕ)
    → base ≤ 16
    → num < base
    → Printed num base width padc (pad width padc ++ digit_char (num % base) ∷ [])
single num base width padc h small =
    let same = mod-eq_of_lt small in
    record {
      first = digit_char (num % base);
      others = [];
      text = ap (λ l. l ++ digit_char (num % base) ∷ []) (pad-pad_chars width padc);
      digits = (
        num % base,
        digit_of-digit_char (num % base) (omega (arith, same, small, h)),
        omega (arith, same, small),
        omega (arith, same),
      );
    }

-- One more digit at the end
extend :
    (num base : ℕ) (width : ℤ) (padc : ℕ) (cs : List ℕ)
    → base ≤ 16
    → 0 < base
    → Printed (num / base) base (narrower width) padc cs
    → Printed num base width padc (cs ++ digit_char (num % base) ∷ [])
extend num base width padc cs h pos_base p = record {
  first = p.first;
  others = p.others ++ digit_char (num % base) ∷ [];
  text =
      let digit = digit_char (num % base) in
      let pads = narrower-pos_part width in
      let longer = length-append p.others (digit ∷ []) in
      let n : pos_part (narrower width) - length (p.first ∷ p.others)
          ≡ pos_part width - length (p.first ∷ (p.others ++ digit ∷ [])) =
        omega (arith, pads, longer) in
      ap (λ l. l ++ digit ∷ []) p.text
      ∙ append_assoc (pad_chars (pos_part (narrower width) - length (p.first ∷ p.others)) padc)
          (p.first ∷ p.others) (digit ∷ [])
      ∙ ap (λ k. pad_chars k padc ++ p.first ∷ (p.others ++ digit ∷ [])) n;
  digits =
      let less = mod-lt num pos_base in
      let e = div-add-mod' num base in
      Digits-append base (p.first ∷ p.others) (digit_char (num % base) ∷ []) 0 (num / base) num
        p.digits (num % base, digit_of-digit_char (num % base) (omega (arith, less, h)), less, e);
}

-- Every digit at least halves what is left.
halved : (num base n : ℕ) → 1 < base → num < 2 ^ suc n → num / base < 2 ^ n
halved num base n two small =
    let twice : 2 ^ n * 2 ≤ 2 ^ n * base = mul-le-mul_left (2 ^ n) two in
    let double : 2 ^ suc n ≡ 2 ^ n * 2 = simp unary_clauses refl in
    (div-lt_iff_lt-mul (omega (arith, two))).1 (omega (arith, small, twice, double))

pub printnum-Printed :
    (n num base : ℕ) (width : ℤ) (padc : ℕ)
    → 1 < base
    → base ≤ 16
    → num < 2 ^ n
    → Ends (Printed num base width padc) (printnum (suc n) num base width padc)
unfolding printnum
printnum-Printed zero num base width padc two sixteen enough =
    let last : leb base num ≡ false = ground (arith, two, enough) in
    rw last (ends (single num base width padc sixteen (ground arith)))
printnum-Printed (suc n) num base width padc two sixteen enough = elim (Bool-cases (leb base num)) [
  | inl more ↦ rw more (
      Ends-bind
        (printnum-Printed n (num / base) base (narrower width) padc two sixteen
          (halved num base n two enough))
        λ cs p. ends (extend num base width padc cs sixteen (omega (arith, two)) p))
  | inr last ↦ rw last (ends (single num base width padc sixteen (ground arith)))
]
