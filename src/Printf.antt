-- ===== src/Printf.antt =====
-- vprintfmt and vsnprintf of libs/printfmt.c. What putch gets is a list of characters; a va_list is
-- the list of its 32-bit words. The format and the strings stand in a byte memory, and loops that
-- read it run on fuel. `error_string` gives the addresses of the string literals of that array, and
-- `null_text` and `error_text` those of "(null)" and of the text in front of "%d" in "error %d".
pub mod Strings
pub mod Buffer
mod Tests
use os_edf.Prelude.{
  ℕ, zero, suc, ◌+◌, ◌-◌, ◌*◌, ◌/◌, ◌%◌, ◌^◌, Bool, true, false, not, ◌&&◌, ◌||◌, List, [], ◌∷◌,
  ◌++◌, Option, none, some, ltb, leb, ◌==◌, if◌then◌else◌, length,
}
use os_edf.Prelude.Int.{ℤ, pos, negsuc, sub_ℕ, ltz, pos_part, neg_part, ◌-ℤ◌}
use os_edf.Prelude.Run.{Run, ok, fault, out_of_fuel, ◌>>=◌}
use os_edf.CString.{Memory, strnlen, strlen, write}
use os_edf.Number.{printnum, pad_chars}

-- The words that are left
abbrev pub next_word : List ℕ → Run (ℕ × List ℕ)
next_word [] = fault
next_word (w ∷ ws) = ok (w, ws)

abbrev pub next_two : List ℕ → Run (ℕ × List ℕ)
next_two [] = fault
next_two (w ∷ []) = fault
next_two (w ∷ v ∷ ws) = ok (w + v * 2 ^ 32, ws)

-- unsigned long has 32 bits, like unsigned int.
abbrev pub getuint : List ℕ → ℕ → Run (ℕ × List ℕ)
getuint ap lflag = if leb 2 lflag then next_two ap else next_word ap

-- A word as an int
abbrev pub to_int : ℕ → ℤ
to_int w = if ltb w (2 ^ 31) then pos w else sub_ℕ w (2 ^ 32)

abbrev pub to_long_long : ℕ → ℤ
to_long_long w = if ltb w (2 ^ 63) then pos w else sub_ℕ w (2 ^ 64)

pub getint : List ℕ → ℕ → Run (ℤ × List ℕ)
getint ap lflag =
    let two : Run (ℤ × List ℕ) = next_two ap >>= λ (w, ws). ok (to_long_long w, ws) in
    let one : Run (ℤ × List ℕ) = next_word ap >>= λ (w, ws). ok (to_int w, ws) in
    if leb 2 lflag then two else one

-- The local variables of one conversion
pub record Conversion : Type 0 where
  pub padc : ℕ
  pub width : ℤ
  pub precision : ℤ
  pub lflag : ℕ
  pub altflag : Bool

abbrev pub new_conversion : Conversion
new_conversion = record {
  padc = 32;
  width = negsuc 0;
  precision = negsuc 0;
  lflag = 0;
  altflag = false;
}

-- process_precision
abbrev pub process_precision : Conversion → Conversion
process_precision c =
    if ltz c.width (pos 0) then record c { width = c.precision; precision = negsuc 0 } else c

abbrev pub is_digit : ℕ → Bool
is_digit ch = leb 48 ch && leb ch 57

-- The digits of a width from the character ch on, with fmt behind it
pub width_loop : ℕ → Memory → ℕ → ℕ → ℕ → Run (ℕ × ℕ)
width_loop zero m fmt ch precision = out_of_fuel
width_loop (suc fuel) m fmt ch precision =
    let precision₁ = precision * 10 + ch - 48 in
    let rest = width_loop fuel m (fmt + 1) (m fmt) precision₁ in
    if is_digit (m fmt) then rest else ok (precision₁, fmt)

abbrev pub strnlen_int : ℕ → Memory → ℕ → ℤ → Run ℕ
strnlen_int fuel m p (pos len) = ok (strnlen m p len)
strnlen_int fuel m p (negsuc _) = strlen fuel m p

-- `ch = *p`: a char is signed, and the int has 32 bits.
abbrev pub sign_char : ℕ → ℕ
sign_char c = if ltb c 128 then c else c + 0xffffff00

-- What is put for a character of a string
abbrev pub shown : Bool → ℕ → ℕ
shown altflag ch = if altflag && (ltb ch 32 || ltb 126 ch) then 63 else ch

-- The loop over the characters of a string, with what is left of the precision
pub string_loop : ℕ → Memory → ℕ → ℤ → Bool → Run (List ℕ)
string_loop zero m p precision altflag = out_of_fuel
string_loop (suc fuel) m p (negsuc n) altflag =
    let next = string_loop fuel m (p + 1) (negsuc n) altflag in
    let rest : Run (List ℕ) = next >>= λ cs. ok (shown altflag (sign_char (m p)) ∷ cs) in
    if m p == 0 then ok [] else rest
string_loop (suc fuel) m p (pos zero) altflag = ok []
string_loop (suc fuel) m p (pos (suc n)) altflag =
    let next = string_loop fuel m (p + 1) (pos n) altflag in
    let rest : Run (List ℕ) = next >>= λ cs. ok (shown altflag (sign_char (m p)) ∷ cs) in
    if m p == 0 then ok [] else rest

-- The %s conversion of the string at p
pub print_string : ℕ → Memory → ℕ → Conversion → Run (List ℕ)
unfolding string_loop ◌-ℤ◌
print_string fuel m p c =
    let on_left = ltz (pos 0) c.width && not (c.padc == 45) in
    do
      n ← if on_left then strnlen_int fuel m p c.precision else ok 0
      let width₁ = c.width -ℤ pos n
      let left = if on_left then pad_chars (pos_part width₁) c.padc else []
      let width₂ = if on_left && ltz (pos 0) width₁ then pos 0 else width₁
      cs ← string_loop fuel m p c.precision c.altflag
      ok (left ++ (cs ++ pad_chars (pos_part (width₂ -ℤ pos (length cs))) 32))

-- The signed decimal number num
pub print_signed : ℤ → Conversion → Run (List ℕ)
print_signed num c = do
  cs ← printnum 65 (pos_part num + neg_part num) 10 c.width c.padc
  ok (if ltz num (pos 0) then 45 ∷ cs else cs)

pub print_unsigned : ℕ → ℕ → Conversion → Run (List ℕ)
print_unsigned base num c = printnum 65 num base c.width c.padc

abbrev pub max_error : ℕ
max_error = 10

abbrev pub abs_int : ℤ → ℕ
abs_int n = pos_part n + neg_part n

-- Where the switch goes on: at reswitch, or behind the conversion, with what was put
pub data Switch : Type 0 where
  reswitch : Conversion → ℕ → List ℕ → Switch
  done : List ℕ → ℕ → List ℕ → Switch

-- The case of a character among those of a switch
abbrev pub choose {ℓ} : {A : Type ℓ} → ℕ → List (ℕ × A) → A → A
choose ch [] other = other
choose ch ((c, a) ∷ cases) other = if ch == c then a else choose ch cases other

-- Back to the character behind the last %
pub back : ℕ → Memory → ℕ → Run ℕ
back zero m fmt = out_of_fuel
back (suc fuel) m fmt =
    let rest = back fuel m (fmt - 1) in if m (fmt - 1) == 37 then ok fmt else rest

module _ (error_string : ℕ → ℕ) (null_text error_text : ℕ) where
  -- The %e conversion; printfmt prints a text with the default width.
  pub print_error : ℕ → Memory → ℤ → Run (List ℕ)
  unfolding print_string print_signed
  print_error fuel m n =
      let p = error_string (abs_int n) in
      let number : Run (List ℕ) = do
        cs ← print_string fuel m error_text new_conversion
        ds ← print_signed (pos (abs_int n)) new_conversion
        ok (cs ++ ds)
      in if ltb max_error (abs_int n) || (p == 0)
        then number
        else print_string fuel m p new_conversion

  -- One round of the switch, with fmt behind its character ch
  pub switch_on : ℕ → Memory → ℕ → ℕ → Conversion → List ℕ → Run Switch
  unfolding width_loop getint print_error back print_unsigned
  switch_on fuel m ch fmt c ap =
      let again : Conversion → Run Switch = λ c'. ok (reswitch c' fmt ap) in
      let put : Run (List ℕ) → List ℕ → Run Switch = λ text ws. do cs ← text; ok (done cs fmt ws)
      in let unsigned : ℕ → Run Switch =
          λ base. do (num, ws) ← getuint ap c.lflag; put (print_unsigned base num c) ws
        in let a_width : Run Switch = do
          (n, fmt') ← width_loop fuel m fmt ch 0
          ok (reswitch (process_precision (record c { precision = pos n })) fmt' ap)
          in let star : Run Switch = do
            (w, ws) ← next_word ap
            ok (reswitch (process_precision (record c { precision = to_int w })) fmt ws)
            in let a_char : Run Switch = do (w, ws) ← next_word ap; put (ok (w ∷ [])) ws
              in let an_error : Run Switch = do
                (w, ws) ← next_word ap
                put (print_error fuel m (to_int w)) ws
                in let a_string : Run Switch = do
                  (p, ws) ← next_word ap
                  put (print_string fuel m (if p == 0 then null_text else p) c) ws
                  in let signed : Run Switch = do
                    (num, ws) ← getint ap c.lflag
                    put (print_signed num c) ws
                    in let pointer : Run Switch = do
                      (w, ws) ← next_word ap
                      cs ← print_unsigned 16 w c
                      put (ok (48 ∷ 120 ∷ cs)) ws
                      in let unknown : Run Switch = do
                        fmt' ← back fuel m (fmt - 1)
                        ok (done (37 ∷ []) fmt' ap)
                        in let zero_width =
                            if ltz c.width (pos 0) then record c { width = pos 0 } else c in
                          choose ch
                            ((45, again (record c { padc = 45 }))
                              ∷ (48, again (record c { padc = 48 }))
                              ∷ (42, star)
                              ∷ (46, again zero_width)
                              ∷ (35, again (record c { altflag = true }))
                              ∷ (108, again (record c { lflag = c.lflag + 1 }))
                              ∷ (99, a_char)
                              ∷ (101, an_error)
                              ∷ (115, a_string)
                              ∷ (100, signed)
                              ∷ (117, unsigned 10)
                              ∷ (111, unsigned 8)
                              ∷ (112, pointer)
                              ∷ (120, unsigned 16)
                              ∷ (37, put (ok (37 ∷ [])) ap)
                              ∷ [])
                            (if leb 49 ch && leb ch 57 then a_width else unknown)

  -- From reswitch on
  pub convert : ℕ → Memory → ℕ → Conversion → List ℕ → Run (List ℕ × ℕ × List ℕ)
  unfolding switch_on
  convert zero m fmt c ap = out_of_fuel
  convert (suc fuel) m fmt c ap = do
    s ← switch_on fuel m (m fmt) (fmt + 1) c ap
    elim s [
      | reswitch c' fmt' ap' ↦ convert fuel m fmt' c' ap'
      | done cs fmt' ap' ↦ ok (cs, fmt', ap')
    ]

  pub vprintfmt : ℕ → Memory → ℕ → List ℕ → Run (List ℕ)
  unfolding convert
  vprintfmt zero m fmt ap = out_of_fuel
  vprintfmt (suc fuel) m fmt ap =
      let next = vprintfmt fuel m (fmt + 1) ap in
      let plain : Run (List ℕ) = next >>= λ cs. ok (m fmt ∷ cs) in
      let escape : Run (List ℕ) = do
        (cs, fmt', ap') ← convert fuel m (fmt + 1) new_conversion ap
        rest ← vprintfmt fuel m fmt' ap'
        ok (cs ++ rest)
      in if m fmt == 37 then escape else (if m fmt == 0 then ok [] else plain)
