-- ===== src/Number.antt =====
-- Numbers as text: printnum and the sprintf buffer of libs/printfmt.c, and strtol of libs/string.c.
-- A character is its ASCII code.
pub mod Digits
pub mod Printing
pub mod RoundTrip
mod Tests
use os_edf.Prelude.{
  ℕ, zero, suc, ◌+◌, ◌-◌, ◌*◌, ◌/◌, ◌%◌, ◌^◌, Bool, true, false, not, ◌&&◌, ◌||◌, List, [], ◌∷◌,
  ◌++◌, Option, none, some, ltb, leb, ◌==◌, if◌then◌else◌,
}
use os_edf.Prelude.Int.{ℤ, pos, negsuc, sub_ℕ}
use os_edf.Prelude.Run.{Run, ok, fault, out_of_fuel, ◌>>=◌}
use os_edf.CString.{Memory}

-- "0123456789abcdef"[mod]
abbrev pub digit_char : ℕ → ℕ
digit_char digit = if ltb digit 10 then 48 + digit else 87 + digit

-- while (-- width > 0) putch(padc), for what is left of a width
unfoldable pub pad_chars : ℕ → ℕ → List ℕ
pad_chars zero padc = []
pad_chars (suc n) padc = padc ∷ pad_chars n padc

abbrev pub pad : ℤ → ℕ → List ℕ
pad (pos n) padc = pad_chars (n - 1) padc
pad (negsuc n) padc = []

abbrev pub narrower : ℤ → ℤ
narrower (pos n) = sub_ℕ n 1
narrower (negsuc n) = negsuc (suc n)

-- The characters that putch gets, in their order
pub printnum : ℕ → ℕ → ℕ → ℤ → ℕ → Run (List ℕ)
printnum zero num base width padc = out_of_fuel
printnum (suc fuel) num base width padc =
    let result = num / base in
    let last = num % base in
    let preceding = printnum fuel result base (narrower width) padc in
    do
      before ← if leb base num then preceding else ok (pad width padc)
      ok (before ++ digit_char last ∷ [])

-- The digit that a character stands for
unfoldable pub digit_of : ℕ → Option ℕ
digit_of c =
    if leb 48 c && leb c 57
    then some (c - 48)
    else (if leb 97 c && leb c 122
        then some (c - 97 + 10)
        else (if leb 65 c && leb c 90 then some (c - 65 + 10) else none))

-- The digits, with val so far; long has 32 bits, and what it does not hold is undefined.
pub digit_loop : ℕ → Memory → ℕ → ℕ → ℕ → Run (ℕ × ℕ)
digit_loop zero m s base val = out_of_fuel
digit_loop (suc fuel) m s base val = elim (digit_of (m s)) [
  | none ↦ ok (val, s)
  | some dig ↦
      let rest = digit_loop fuel m (s + 1) base (val * base + dig) in
      if leb base dig
      then ok (val, s)
      else (if ltb (val * base + dig) (2 ^ 31) then rest else fault)
]

pub skip_blanks : ℕ → Memory → ℕ → Run ℕ
skip_blanks zero m s = out_of_fuel
skip_blanks (suc fuel) m s =
    let rest = skip_blanks fuel m (s + 1) in if (m s == 32) || (m s == 9) then rest else ok s

-- The sign: whether it is '-', and where the number goes on
abbrev pub sign : Memory → ℕ → Bool × ℕ
sign m s = if m s == 43 then (false, s + 1) else (if m s == 45 then (true, s + 1) else (false, s))

-- The prefix of the base: where the digits start, and in which base
abbrev pub base_prefix : Memory → ℕ → ℕ → ℕ × ℕ
base_prefix m s base =
    if (base == 0 || base == 16) && (m s == 48 && m (s + 1) == 120)
    then (s + 2, 16)
    else (if base == 0 && (m s == 48)
        then (s + 1, 8)
        else (if base == 0 then (s, 10) else (s, base)))

abbrev pub negated : Bool → ℕ → ℤ
negated neg val = if neg then sub_ℕ 0 val else pos val

-- The value, and what is stored at endptr
pub strtol : ℕ → Memory → ℕ → ℕ → Run (ℤ × ℕ)
unfolding digit_loop skip_blanks
strtol fuel m s base = do
  s₁ ← skip_blanks fuel m s
  let (neg, s₂) = sign m s₁
  let (s₃, base₁) = base_prefix m s₂ base
  (val, end) ← digit_loop fuel m s₃ base₁ 0
  ok (negated neg val, end)
