-- ===== src/Printf/Buffer.antt =====
-- vsnprintf: the buffer gets as much of the text as fits, a NUL, and nothing behind it.
use os_edf.Prelude.{
  ℕ, zero, suc, ◌+◌, ◌-◌, ◌%◌, ◌^◌, ◌≤◌, ◌<◌, ◌≡◌, ◌≢◌, refl, sym, ap, ◌∙◌, ◌⊎◌, inl, true, false,
  ◌||◌, List, [], ◌∷◌, ltb, ◌==◌, if◌then◌else◌, length, take, arith,
}
use os_edf.Prelude.Int.{ℤ, pos, negsuc}
use os_edf.Prelude.Run.{Run, ok, ◌>>=◌, Ends, ends}
use os_edf.CString.{Memory, write}
use os_edf.Printf.{vprintfmt}

pub record Sprintbuf : Type 0 where
  pub buf : ℕ
  pub ebuf : ℕ
  pub cnt : ℕ

pub sprintputch : ℕ → Sprintbuf × Memory → Sprintbuf × Memory
sprintputch ch (b, m) =
    if ltb b.buf b.ebuf
    then (record b { cnt = b.cnt + 1; buf = b.buf + 1 }, write m b.buf (ch % 2 ^ 8))
    else (record b { cnt = b.cnt + 1 }, m)

-- The calls of putch one after the other
pub put_all : List ℕ → Sprintbuf × Memory → Sprintbuf × Memory
unfolding sprintputch
put_all [] s = s
put_all (ch ∷ cs) s = put_all cs (sprintputch ch s)

-- The buffer does not overlap the format and the strings, so that the text is that of m.
pub vsnprintf : (ℕ → ℕ) → ℕ → ℕ → ℕ → Memory → ℕ → ℕ → ℕ → List ℕ → Run (ℤ × Memory)
unfolding put_all
vsnprintf error_string null_text error_text fuel m str size fmt args =
    let b : Sprintbuf = record { buf = str; ebuf = (str + size + 0xffffffff) % 2 ^ 32; cnt = 0 } in
    let print : Run (ℤ × Memory) = do
      cs ← vprintfmt error_string null_text error_text fuel m fmt args
      let (b', m') = put_all cs (b, m)
      ok (pos b'.cnt, write m' b'.buf 0)
    in if str == 0 || ltb b.ebuf b.buf then ok (negsuc 2, m) else print

-- The characters at p, each cut to a byte
abbrev pub Stands : Memory → ℕ → List ℕ → Type 0
Stands m p [] = Unit
Stands m p (c ∷ cs) = (m p ≡ c % 2 ^ 8) × Stands m (p + 1) cs

-- With n bytes left for characters
record Put (n : ℕ) (cs : List ℕ) (b : Sprintbuf) (m : Memory) (r : Sprintbuf × Memory)
    : Type 0 where
  counted : r.0.cnt ≡ b.cnt + length cs
  reached : r.0.buf ≡ b.buf + length (take n cs)
  inside : length (take n cs) ≤ n
  text : Stands r.1 b.buf (take n cs)
  outside : (q : ℕ) → (q < b.buf) ⊎ (b.buf + length (take n cs) ≤ q) → r.1 q ≡ m q

put_all-Put :
    (n : ℕ) (cs : List ℕ) (b : Sprintbuf) (m : Memory)
    → b.buf + n ≡ b.ebuf
    → Put n cs b m (put_all cs (b, m))
unfolding put_all sprintputch
put_all-Put zero [] b m e = record {
  counted = omega arith;
  reached = omega arith;
  inside = omega arith;
  text = tt;
  outside = λ q h. refl;
}
put_all-Put (suc n) [] b m e = record {
  counted = omega arith;
  reached = omega arith;
  inside = omega arith;
  text = tt;
  outside = λ q h. refl;
}
put_all-Put zero (c ∷ cs) b m e =
    let full : ltb b.buf b.ebuf ≡ false = ground arith in
    let rest = put_all-Put zero cs (record b { cnt = b.cnt + 1 }) m e in
    rw full (record {
      counted = omega (arith, rest.counted);
      reached = rest.reached;
      inside = omega arith;
      text = tt;
      outside = rest.outside;
    })
put_all-Put (suc n) (c ∷ cs) b m e =
    let room : ltb b.buf b.ebuf ≡ true = ground arith in
    let rest =
      put_all-Put n cs (record b { cnt = b.cnt + 1; buf = b.buf + 1 }) (write m b.buf (c % 2 ^ 8))
        (omega (arith, e)) in
    rw room (record {
      counted = omega (arith, rest.counted);
      reached = omega (arith, rest.reached);
      inside = omega (arith, rest.inside);
      text = (rest.outside b.buf (inl (omega arith)) ∙ ground arith, rest.text);
      outside = λ q h. rest.outside q (ground arith) ∙ ground arith;
    })

-- What vsnprintf leaves of the text cs
pub record Filled (size str : ℕ) (cs : List ℕ) (m : Memory) (r : ℤ × Memory) : Type 0 where
  pub value : r.0 ≡ pos (length cs)
  pub text : Stands r.1 str (take (size - 1) cs)
  pub ended : r.1 (str + length (take (size - 1) cs)) ≡ 0
  pub inside : str + length (take (size - 1) cs) < str + size
  pub outside : (q : ℕ) → (q < str) ⊎ (str + size ≤ q) → r.1 q ≡ m q

Stands-write :
    (m : Memory) (p q v : ℕ) (cs : List ℕ)
    → p + length cs ≤ q
    → Stands m p cs
    → Stands (write m q v) p cs
Stands-write m p q v [] h s = tt
Stands-write m p q v (c ∷ cs) h s =
    (ground (arith, s.0), Stands-write m (p + 1) q v cs (omega (arith, h)) s.1)

-- If vprintfmt makes the text cs of the format, with its strings outside the buffer, the buffer
-- is not NULL, its size is positive and it ends within the 32-bit address space, vsnprintf ends:
-- it returns the length of cs, the first size - 1 characters of cs, cut to bytes, stand in the
-- buffer with a NUL behind them and inside it, and no byte outside the buffer changes.
pub vsnprintf-Filled :
    (error_string : ℕ → ℕ) (null_text error_text fuel : ℕ) (m : Memory) (str size fmt : ℕ)
    (args : List ℕ) (cs : List ℕ)
    → str ≢ 0
    → 0 < size
    → str + size ≤ 2 ^ 32
    → vprintfmt error_string null_text error_text fuel m fmt args ≡ ok cs
    → Ends
        (Filled size str cs m)
        (vsnprintf error_string null_text error_text fuel m str size fmt args)
unfolding vsnprintf
vsnprintf-Filled error_string null_text error_text fuel m str size fmt args cs real some_room
      in_space printed =
    let last : (str + size + 0xffffffff) % 2 ^ 32 ≡ str + (size - 1) =
      omega (arith, some_room, in_space) in
    let valid : (str == 0 || ltb ((str + size + 0xffffffff) % 2 ^ 32) str) ≡ false =
      ground (arith, last) in
    let b : Sprintbuf = record { buf = str; ebuf = (str + size + 0xffffffff) % 2 ^ 32; cnt = 0 } in
    let p = put_all-Put (size - 1) cs b m (sym last) in
    let m' = (put_all cs (b, m)).1 in
    let at = (put_all cs (b, m)).0.buf in
    let there : at ≡ str + length (take (size - 1) cs) = p.reached in
    rw (valid, printed)
      (ends (record {
        value = ap (λ (x : ℕ). pos x) (omega (arith, p.counted));
        text = Stands-write m' str at 0 (take (size - 1) cs) (omega (arith, there)) p.text;
        ended = ground (arith, there);
        inside = omega (arith, p.inside, some_room);
        outside = λ q h.
            let beyond : at ≢ q = omega (arith, there, p.inside, h, some_room) in
            let old = p.outside q (omega (arith, p.inside, h, some_room)) in ground (arith, old);
      }))

-- A buffer that is NULL, has no byte or goes past the end of the address space is refused with
-- -E_INVAL, whatever the format, and no byte changes.
vsnprintf-refused :
    (error_string : ℕ → ℕ) (null_text error_text fuel : ℕ) (m : Memory) (str size fmt : ℕ)
    (args : List ℕ)
    → str < 2 ^ 32
    → size < 2 ^ 32
    → (str ≡ 0) ⊎ ((size ≡ 0) ⊎ (2 ^ 32 < str + size))
    → vsnprintf error_string null_text error_text fuel m str size fmt args ≡ ok (negsuc 2, m)
unfolding vsnprintf
vsnprintf-refused error_string null_text error_text fuel m str size fmt args h k why =
    let e : (str == 0 || ltb ((str + size + 0xffffffff) % 2 ^ 32) str) ≡ true = ground arith in
    rw e refl
