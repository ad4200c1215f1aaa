-- ===== src/CString/Tests.antt =====
-- The theorems on strings at a memory that holds "hi" at 10 and "ho" at 20.
use os_edf.Prelude.{ℕ, ◌+◌, ◌≡◌, refl, List, [], ◌∷◌, arith, inr, if◌then◌else◌, ◌==◌}
use os_edf.Prelude.Run.{ok}
use os_edf.CString.{Memory, strcpy, memmove, memcpy}
use os_edf.CString.Copy.{Moved, memmove-Moved}
use os_edf.CString.Compare.{Holds}
use os_edf.CString.Search.{strcpy-memcpy}

abbrev text : Memory
text q =
    if q == 10
    then 104
    else if q == 11
    then 105
    else if q == 20
    then 104
    else if q == 21
    then 111
    else 0

abbrev hi : List ℕ
hi = 104 ∷ 105 ∷ []

abbrev ho : List ℕ
ho = 104 ∷ 111 ∷ []

text-hi : Holds text 10 hi
text-hi = (refl, omega arith, (refl, omega arith, refl))

text-ho : Holds text 20 ho
text-ho = (refl, omega arith, (refl, omega arith, refl))

memmove-Moved_example : Moved text 11 10 3 (memmove text 11 10 3)
memmove-Moved_example = memmove-Moved text 11 10 3

strcpy-memcpy_example : strcpy 3 text 30 10 ≡ ok (memcpy text 30 10 (2 + 1))
strcpy-memcpy_example = strcpy-memcpy 3 text 30 10 hi text-hi (omega arith) (inr (omega arith))
