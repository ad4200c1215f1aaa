-- ===== src/Frames/Bits.antt =====
-- The bits of a | b
use os_edf.Prelude.{ℕ, zero, suc, ◌+◌, ◌*◌, ◌/◌, ◌%◌, ◌^◌, ◌<◌, ◌≡◌, ap, ◌∙◌, ◌||◌, ◌==◌, arith}
use os_edf.Frames.{or_bits, word_or}

or_bits-zero : (n a : ℕ) → a < 2 ^ n → or_bits n a 0 ≡ a
unfolding or_bits
or_bits-zero zero a h = omega (arith, h)
or_bits-zero (suc n) a h =
    let rest = or_bits-zero n (a / 2) (omega (arith, h)) in ground (arith, rest)

-- The bits from the fourth on are those of the shifted words.
or_bits-div16 : (n a b : ℕ) → or_bits (4 + n) a b / 16 ≡ or_bits n (a / 16) (b / 16)
unfolding or_bits
or_bits-div16 n a b =
    let ea : a / 2 / 2 / 2 / 2 ≡ a / 16 = omega arith in
    let eb : b / 2 / 2 / 2 / 2 ≡ b / 16 = omega arith in
    let shifted =
      ap (λ x. or_bits n x (b / 2 / 2 / 2 / 2)) ea ∙ ap (λ y. or_bits n (a / 16) y) eb in
    ground (arith, shifted)

word_or-div4096 : (a b : ℕ) → word_or a b / 4096 ≡ or_bits 20 (a / 4096) (b / 4096)
word_or-div4096 a b =
    let one = or_bits-div16 28 a b in
    let two = or_bits-div16 24 (a / 16) (b / 16) in
    let three = or_bits-div16 20 (a / 16 / 16) (b / 16 / 16) in
    let ea : a / 16 / 16 / 16 ≡ a / 4096 = omega arith in
    let eb : b / 16 / 16 / 16 ≡ b / 4096 = omega arith in
    let shifted =
      ap (λ x. or_bits 20 x (b / 16 / 16 / 16)) ea ∙ ap (λ y. or_bits 20 (a / 4096) y) eb in
    let whole : word_or a b / 4096 ≡ word_or a b / 16 / 16 / 16 = omega arith in
    whole ∙ ap (λ x. x / 16 / 16) one ∙ ap (λ x. x / 16) two ∙ three ∙ shifted

-- The address of an entry, and its lowest flags
pub word_or-page :
    (page flags : ℕ) → page < 2 ^ 20 → flags < 4096 → word_or (page * 4096) flags / 4096 ≡ page
word_or-page page flags h g =
    let high = word_or-div4096 (page * 4096) flags in
    let p : page * 4096 / 4096 ≡ page = omega arith in
    let f : flags / 4096 ≡ 0 = omega (arith, g) in
    high
    ∙ ap (λ x. or_bits 20 x (flags / 4096)) p
    ∙ ap (λ y. or_bits 20 page y) f
    ∙ or_bits-zero 20 page h

or_bits-bit0 : (n a b : ℕ) → (or_bits (1 + n) a b % 2 == 1) ≡ ((a % 2 == 1) || (b % 2 == 1))
unfolding or_bits
or_bits-bit0 n a b = ground arith

pub word_or-bit0 : (a b : ℕ) → (word_or a b % 2 == 1) ≡ ((a % 2 == 1) || (b % 2 == 1))
word_or-bit0 a b = or_bits-bit0 31 a b

or_bits-bit1 :
    (n a b : ℕ) → (or_bits (2 + n) a b / 2 % 2 == 1) ≡ ((a / 2 % 2 == 1) || (b / 2 % 2 == 1))
unfolding or_bits
or_bits-bit1 n a b = ground arith

pub word_or-bit1 : (a b : ℕ) → (word_or a b / 2 % 2 == 1) ≡ ((a / 2 % 2 == 1) || (b / 2 % 2 == 1))
word_or-bit1 a b = or_bits-bit1 30 a b

or_bits-bit2 :
    (n a b : ℕ) → (or_bits (3 + n) a b / 4 % 2 == 1) ≡ ((a / 4 % 2 == 1) || (b / 4 % 2 == 1))
unfolding or_bits
or_bits-bit2 n a b = ground arith

pub word_or-bit2 : (a b : ℕ) → (word_or a b / 4 % 2 == 1) ≡ ((a / 4 % 2 == 1) || (b / 4 % 2 == 1))
word_or-bit2 a b = or_bits-bit2 29 a b

-- A page-table entry is made of an address, the flag PTE_P and the permission.
pub entry-page :
    (page perm : ℕ)
    → page < 2 ^ 20
    → perm < 4096
    → word_or (word_or (page * 4096) 1) perm / 4096 ≡ page
entry-page page perm h g =
    let high = word_or-div4096 (word_or (page * 4096) 1) perm in
    let p = word_or-page page 1 h (omega arith) in
    let f : perm / 4096 ≡ 0 = omega (arith, g) in
    high
    ∙ ap (λ x. or_bits 20 x (perm / 4096)) p
    ∙ ap (λ y. or_bits 20 page y) f
    ∙ or_bits-zero 20 page h
