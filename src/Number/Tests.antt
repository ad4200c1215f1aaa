-- ===== src/Number/Tests.antt =====
-- The round trip of 2026 in base 10, six wide and padded with blanks, which stands at address 100.
use os_edf.Prelude.{ℕ, ◌+◌, ◌<◌, ◌≡◌, refl, inl, arith, length}
use os_edf.Prelude.Int.{pos}
use os_edf.Prelude.Run.{Ends, ok}
use os_edf.CString.{Memory}
use os_edf.CString.Compare.{Holds}
use os_edf.Number.{printnum, strtol}
use os_edf.Number.RoundTrip.{printnum-strtol}

printnum-strtol_example :
    Ends
      (λ cs.
        (m : Memory) (s fuel' : ℕ)
        → Holds m s cs
        → length cs < fuel'
        → strtol fuel' m s 10 ≡ ok (pos 2026, s + length cs))
      (printnum 32 2026 10 (pos 6) 32)
printnum-strtol_example =
    printnum-strtol 2026 10 (pos 6) 32 (omega arith) (omega arith) (omega arith) (inl refl)
