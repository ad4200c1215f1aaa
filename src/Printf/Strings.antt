-- ===== src/Printf/Strings.antt =====
-- The %s conversion: the string, cut at the precision, in a field of the width.
use os_edf.Prelude.{
  ℕ, zero, suc, ◌+◌, ◌-◌, ◌<◌, ◌≡◌, refl, sym, ap, ◌∙◌, inl, inr, Bool, Bool-cases, true, false,
  not, ◌&&◌, List, [], ◌∷◌, ◌++◌, map, ◌==◌, if◌then◌else◌, length, take, arith,
}
use Prim.Native.Nat.{min}
use mathlib.Core.List.{append-nil}
use os_edf.Prelude.Int.{ℤ, pos, negsuc, pos_part, ltz, ◌-ℤ◌}
use os_edf.Prelude.Run.{ok}
use os_edf.CString.{Memory}
use os_edf.CString.Compare.{Holds, strlen-length, strnlen-min}
use os_edf.Number.{pad_chars}
use os_edf.Printf.{Conversion, shown, sign_char, string_loop, strnlen_int, print_string}

-- A precision below 0 is none.
abbrev pub cut : ℤ → List ℕ → List ℕ
cut (pos n) cs = take n cs
cut (negsuc _) cs = cs

-- A text in a field of the width, at the right unless the flag is '-'
pub field : Conversion → List ℕ → List ℕ
field c text =
    let gap = pos_part c.width - length text in
    if c.padc == 45 then text ++ pad_chars gap 32 else pad_chars gap c.padc ++ text

length-take-min : (n : ℕ) (cs : List ℕ) → length (take n cs) ≡ min n (length cs)
length-take-min zero cs = ground arith
length-take-min (suc n) [] = ground arith
length-take-min (suc n) (c ∷ cs) = ground (arith, length-take-min n cs)

length-map :
    (alt : Bool) (cs : List ℕ) → length (map (λ ch. shown alt (sign_char ch)) cs) ≡ length cs
length-map alt [] = refl
length-map alt (c ∷ cs) = ap suc (length-map alt cs)

string_loop-cut :
    (fuel : ℕ) (m : Memory) (p : ℕ) (precision : ℤ) (alt : Bool) (cs : List ℕ)
    → Holds m p cs
    → length cs < fuel
    → string_loop fuel m p precision alt
      ≡ ok (map (λ ch. shown alt (sign_char ch)) (cut precision cs))
unfolding string_loop
string_loop-cut zero m p precision alt cs h enough = absurd (omega (arith, enough))
string_loop-cut (suc fuel) m p (negsuc n) alt [] h enough =
    let e : (m p == 0) ≡ true = ground (arith, h) in rw e refl
string_loop-cut (suc fuel) m p (negsuc n) alt (c ∷ cs) h enough =
    let e : (m p == 0) ≡ false = ground (arith, h.0, h.1) in
    let rest = string_loop-cut fuel m (p + 1) (negsuc n) alt cs h.2 (omega (arith, enough)) in
    rw (e, rest, h.0) refl
string_loop-cut (suc fuel) m p (pos zero) alt cs h enough = refl
string_loop-cut (suc fuel) m p (pos (suc n)) alt [] h enough =
    let e : (m p == 0) ≡ true = ground (arith, h) in rw e refl
string_loop-cut (suc fuel) m p (pos (suc n)) alt (c ∷ cs) h enough =
    let e : (m p == 0) ≡ false = ground (arith, h.0, h.1) in
    let rest = string_loop-cut fuel m (p + 1) (pos n) alt cs h.2 (omega (arith, enough)) in
    rw (e, rest, h.0) refl

strnlen_int-cut :
    (fuel : ℕ) (m : Memory) (p : ℕ) (precision : ℤ) (cs : List ℕ)
    → Holds m p cs
    → length cs < fuel
    → strnlen_int fuel m p precision ≡ ok (length (cut precision cs))
strnlen_int-cut fuel m p (pos n) cs h enough =
    ap (λ (x : ℕ). ok x) (strnlen-min m p n cs h ∙ sym (length-take-min n cs))
strnlen_int-cut fuel m p (negsuc n) cs h enough = strlen-length fuel m p cs h enough

minus-pos_part : (w : ℤ) (n : ℕ) → pos_part (w -ℤ pos n) ≡ pos_part w - n
unfolding ◌-ℤ◌
minus-pos_part (pos w) n = ground arith
minus-pos_part (negsuc w) n = ground arith

-- After the loop that pads on the left no width is left.
used_up : (w : ℤ) (n : ℕ) → pos_part ((if ltz (pos 0) w then pos 0 else w) -ℤ pos n) ≡ 0
used_up (pos zero) n = minus-pos_part (pos 0) n ∙ omega arith
used_up (pos (suc w)) n = ground (arith, minus-pos_part (pos 0) n)
used_up (negsuc w) n = ground (arith, minus-pos_part (negsuc w) n)

second : (w : ℤ) (dash : Bool) → (ltz (pos 0) w && not dash) ≡ true → dash ≡ false
second w false e = refl
second w true e = ground arith

no_width :
    (w : ℤ) (dash : Bool) (n : ℕ)
    → (ltz (pos 0) w && not dash) ≡ false
    → dash ≡ false
    → pos_part w - n ≡ 0
no_width (pos w) dash n e h = ground arith
no_width (negsuc w) dash n e h = omega arith

on_left-field :
    (c : Conversion) (text : List ℕ) (n k : ℕ)
    → length text ≡ n
    → k ≡ 0
    → (c.padc == 45) ≡ false
    → pad_chars (pos_part (c.width -ℤ pos n)) c.padc ++ (text ++ pad_chars k 32) ≡ field c text
unfolding field pad_chars
on_left-field c text n k size none_left e =
    let gap : pos_part (c.width -ℤ pos n) ≡ pos_part c.width - length text =
      minus-pos_part c.width n ∙ omega (arith, size) in
    rw (gap, none_left, e)
      (ap (λ l. pad_chars (pos_part c.width - length text) c.padc ++ l) (append-nil text))

on_right-field :
    (c : Conversion) (text : List ℕ)
    → (ltz (pos 0) c.width && not (c.padc == 45)) ≡ false
    → text ++ pad_chars (pos_part ((c.width -ℤ pos 0) -ℤ pos (length text))) 32 ≡ field c text
unfolding field pad_chars
on_right-field c text e =
    let gap : pos_part ((c.width -ℤ pos 0) -ℤ pos (length text)) ≡ pos_part c.width - length text =
      minus-pos_part (c.width -ℤ pos 0) (length text)
      ∙ ap (λ x. x - length text) (minus-pos_part c.width 0)
      ∙ omega arith in
    elim (Bool-cases (c.padc == 45)) [
      | inl dash ↦ rw (gap, dash) refl
      | inr other ↦
          let narrow : pos_part c.width - length text ≡ 0 =
            no_width c.width (c.padc == 45) (length text) e other in
          rw (gap, other, narrow) (append-nil text)
    ]

-- On a string, with fuel above its length, the %s conversion puts the string, cut at a precision
-- that is not negative, each character as the signed char that it is and under '#' as '?' where
-- it cannot be shown, in a field of the width: padded on the right with blanks for the flag '-',
-- and else on the left with the pad character.
pub print_string-field :
    (fuel : ℕ) (m : Memory) (p : ℕ) (c : Conversion) (cs : List ℕ)
    → Holds m p cs
    → length cs < fuel
    → print_string fuel m p c
      ≡ ok (field c (map (λ ch. shown c.altflag (sign_char ch)) (cut c.precision cs)))
unfolding print_string
print_string-field fuel m p c cs h enough =
    let text = map (λ ch. shown c.altflag (sign_char ch)) (cut c.precision cs) in
    let size : length text ≡ length (cut c.precision cs) =
      length-map c.altflag (cut c.precision cs) in
    let counted = strnlen_int-cut fuel m p c.precision cs h enough in
    let shows = string_loop-cut fuel m p c.precision c.altflag cs h enough in
    elim (Bool-cases (ltz (pos 0) c.width && not (c.padc == 45))) [
      | inl on_left ↦
          rw (on_left, counted, shows)
            (ap (λ l. ok l)
              (on_left-field c text _ _ size
                (used_up (c.width -ℤ pos (length (cut c.precision cs))) (length text))
                (second c.width (c.padc == 45) on_left)))
      | inr on_right ↦ rw (on_right, shows) (ap (λ l. ok l) (on_right-field c text on_right))
    ]
