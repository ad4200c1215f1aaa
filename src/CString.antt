-- ===== src/CString.antt =====
-- libs/string.c: the C library's string and memory routines, over a byte memory.
-- A pointer is an address, a char is 0 to 255, and objects do not wrap round the address space.
-- The loops that end at a NUL run on fuel: a string without one never ends. libs/x86.h
-- defines __HAVE_ARCH_… for strcmp, strcpy, memset, memmove and memcpy, so that they are the
-- assembly of __strcmp, … there: it is what is modelled, not the C text behind #else.
pub mod Copy
pub mod Compare
pub mod Search
mod Tests
use os_edf.Prelude.{
  ℕ, zero, suc, ◌+◌, ◌-◌, ◌*◌, ◌/◌, ◌%◌, ◌≡◌, Bool, true, false, not, ◌&&◌, ◌||◌, ltb, leb, ◌==◌,
  if◌then◌else◌,
}
use os_edf.Prelude.Int.{ℤ, pos, negsuc, sub_ℕ}
use os_edf.Prelude.Run.{Run, ok, out_of_fuel, ◌>>=◌}

abbrev pub Memory : Type 0
Memory = ℕ → ℕ

-- `*p = v`
abbrev pub write : Memory → ℕ → ℕ → Memory
write m p v q = if p == q then v else m q

pub strlen_loop : ℕ → Memory → ℕ → ℕ → Run ℕ
strlen_loop zero m s cnt = out_of_fuel
strlen_loop (suc fuel) m s cnt =
    let rest = strlen_loop fuel m (s + 1) (cnt + 1) in if not (m s == 0) then rest else ok cnt

pub strlen : ℕ → Memory → ℕ → Run ℕ
unfolding strlen_loop
strlen fuel m s = strlen_loop fuel m s 0

-- `left` is len - cnt.
pub strnlen_loop : ℕ → Memory → ℕ → ℕ → ℕ
strnlen_loop zero m s cnt = cnt
strnlen_loop (suc left) m s cnt =
    let rest = strnlen_loop left m (s + 1) (cnt + 1) in if not (m s == 0) then rest else cnt

pub strnlen : Memory → ℕ → ℕ → ℕ
unfolding strnlen_loop
strnlen m s len = strnlen_loop len m s 0

-- __strcpy: `lodsb; stosb` until the byte is 0
pub strcpy : ℕ → Memory → ℕ → ℕ → Run Memory
strcpy zero m p src = out_of_fuel
strcpy (suc fuel) m p src =
    let c = m src in
    let m' = write m p c in
    let rest = strcpy fuel m' (p + 1) (src + 1) in if not (c == 0) then rest else ok m'

pub strncpy : ℕ → Memory → ℕ → ℕ → Memory
strncpy zero m p src = m
strncpy (suc len) m p src =
    strncpy len (write m p (m src)) (p + 1) (if not (m src == 0) then src + 1 else src)

-- __strcmp: `sbbl` and `orb $1` leave -1 where the first byte is below the second, and else 1.
pub strcmp : ℕ → Memory → ℕ → ℕ → Run ℤ
strcmp zero m s1 s2 = out_of_fuel
strcmp (suc fuel) m s1 s2 =
    let rest = strcmp fuel m (s1 + 1) (s2 + 1) in
    if not (m s1 == m s2)
    then ok (if ltb (m s1) (m s2) then negsuc 0 else pos 1)
    else if not (m s1 == 0)
    then rest
    else ok (pos 0)

pub strncmp : Memory → ℕ → ℕ → ℕ → ℤ
strncmp m s1 s2 zero = pos 0
strncmp m s1 s2 (suc n) =
    let rest = strncmp m (s1 + 1) (s2 + 1) n in
    if not (m s1 == 0) && (m s1 == m s2) then rest else sub_ℕ (m s1) (m s2)

-- NULL is 0.
pub strchr : ℕ → Memory → ℕ → ℕ → Run ℕ
strchr zero m s c = out_of_fuel
strchr (suc fuel) m s c =
    let rest = strchr fuel m (s + 1) c in
    if not (m s == 0) then (if m s == c then ok s else rest) else ok 0

pub strfind : ℕ → Memory → ℕ → ℕ → Run ℕ
strfind zero m s c = out_of_fuel
strfind (suc fuel) m s c =
    let rest = strfind fuel m (s + 1) c in
    if not (m s == 0) then (if m s == c then ok s else rest) else ok s

-- __memset: `rep; stosb`
pub memset : Memory → ℕ → ℕ → ℕ → Memory
memset m p c zero = m
memset m p c (suc n) = memset (write m p c) (p + 1) c n

-- `rep; movsb`, n times, upwards
pub rep_movsb : Memory → ℕ → ℕ → ℕ → Memory
rep_movsb m d s zero = m
rep_movsb m d s (suc n) = rep_movsb (write m d (m s)) (d + 1) (s + 1) n

-- `std; rep; movsb; cld`, n times, downwards from the last bytes
pub rep_movsb_down : Memory → ℕ → ℕ → ℕ → Memory
rep_movsb_down m d s zero = m
rep_movsb_down m d s (suc n) = rep_movsb_down (write m (d + n) (m (s + n))) d s n

-- `movsl`: four bytes are read, then written.
abbrev pub movsl : Memory → ℕ → ℕ → Memory
movsl m d s =
    write (write (write (write m d (m s)) (d + 1) (m (s + 1))) (d + 2) (m (s + 2))) (d + 3)
      (m (s + 3))

-- `rep; movsl`, n times
pub rep_movsl : Memory → ℕ → ℕ → ℕ → Memory
rep_movsl m d s zero = m
rep_movsl m d s (suc n) = rep_movsl (movsl m d s) (d + 4) (s + 4) n

-- __memcpy: n / 4 times four bytes, then the n & 3 bytes that are left
pub memcpy : Memory → ℕ → ℕ → ℕ → Memory
memcpy m d s n = rep_movsb (rep_movsl m d s (n / 4)) (d + 4 * (n / 4)) (s + 4 * (n / 4)) (n % 4)

-- __memmove
pub memmove : Memory → ℕ → ℕ → ℕ → Memory
unfolding memcpy
memmove m d s n = if ltb d s then memcpy m d s n else rep_movsb_down m d s n

pub memcmp : Memory → ℕ → ℕ → ℕ → ℤ
memcmp m s1 s2 zero = pos 0
memcmp m s1 s2 (suc n) =
    let rest = memcmp m (s1 + 1) (s2 + 1) n in
    if not (m s1 == m s2) then sub_ℕ (m s1) (m s2) else rest
