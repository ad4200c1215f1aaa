-- ===== src/Printf/Tests.antt =====
-- A memory with the string "ok" at address 100, and the format "%s!" at 200.
use os_edf.Prelude.{ℕ, ◌≡◌, refl, [], ◌∷◌, arith, map, false, if◌then◌else◌, ◌==◌}
use os_edf.Prelude.Int.{pos, negsuc}
use os_edf.Prelude.Run.{Ends, ok}
use os_edf.CString.{Memory}
use os_edf.Printf.{Conversion, new_conversion, print_string, shown, sign_char, vprintfmt}
use os_edf.Number.{pad_chars}
use os_edf.Printf.Strings.{cut, field, print_string-field}
use os_edf.Printf.Buffer.{Filled, vsnprintf, vsnprintf-Filled}

abbrev memory : Memory
memory p =
    if p == 100
    then 111
    else (if p == 101
        then 107
        else (if p == 200 then 37 else (if p == 201 then 115 else (if p == 202 then 33 else 0))))

abbrev wide : Conversion
wide = record new_conversion { width = pos 5 }

print_string-field_example :
    print_string 3 memory 100 wide
    ≡ ok (field wide (map (λ ch. shown false (sign_char ch)) (cut (negsuc 0) (111 ∷ 107 ∷ []))))
print_string-field_example =
    print_string-field 3 memory 100 wide (111 ∷ 107 ∷ [])
      (refl, omega arith, (refl, omega arith, refl)) (omega arith)

abbrev no_strings : ℕ → ℕ
no_strings n = 0

printed : vprintfmt no_strings 0 0 9 memory 200 (100 ∷ []) ≡ ok (111 ∷ 107 ∷ 33 ∷ [])
unfolding vprintfmt pad_chars
printed = refl

vsnprintf-Filled_example :
    Ends
      (Filled 3 300 (111 ∷ 107 ∷ 33 ∷ []) memory)
      (vsnprintf no_strings 0 0 9 memory 300 3 200 (100 ∷ []))
vsnprintf-Filled_example =
    vsnprintf-Filled no_strings 0 0 9 memory 300 3 200 (100 ∷ []) (111 ∷ 107 ∷ 33 ∷ [])
      (omega arith) (omega arith) (omega arith) printed
