-- ===== src/Swap/Around.antt =====
-- The offsets of the swap space in the order of the search, and what it has seen of them
use os_edf.Prelude.{
  ℕ, ◌+◌, ◌-◌, ◌≤◌, ◌<◌, ◌≡◌, ◌≢◌, sym, ap, ◌∙◌, inl, inr, Bool-cases, true, false, ◌&&◌, leb, ◌==◌,
  if◌then◌else◌, arith,
}
use os_edf.Frames.{PhysicalMemory}
use os_edf.Swap.{swap_unused}

-- The steps from `start` to an offset, around the offsets 1 to limit - 1
abbrev pub steps : ℕ → ℕ → ℕ → ℕ
steps start limit x = if leb start x then x - start else (x + limit) - (1 + start)

-- What the search has seen: no unused offset, and with `zero_one` 0 no free one either
pub record Seen (start next zero_one : ℕ) (m : PhysicalMemory) : Type 0 where
  pub unused :
      (x : ℕ)
      → 1 ≤ x
      → x < m.max_swap_offset
      → steps start m.max_swap_offset x < steps start m.max_swap_offset next
      → m.mem_map x ≢ swap_unused
  pub no_zero :
      zero_one ≡ 0
      → (x : ℕ) → 1 ≤ x
      → x < m.max_swap_offset
      → steps start m.max_swap_offset x < steps start m.max_swap_offset next
      → m.mem_map x ≢ 0

-- Where the search stands
abbrev pub InRange : ℕ → PhysicalMemory → Type 0
InRange x m = (1 ≤ x) × (x < m.max_swap_offset)

-- What the search finds: an unused offset, or one without references, or neither, and then there is none
pub record Searched (m : PhysicalMemory) (r : ℕ × ℕ × ℕ) : Type 0 where
  pub next_in : InRange r.0 m
  pub empty_one : r.1 ≢ 0 → InRange r.1 m × (m.mem_map r.1 ≡ swap_unused)
  pub zero_one : r.2 ≢ 0 → InRange r.2 m × (m.mem_map r.2 ≡ 0)
  pub no_empty : r.1 ≡ 0 → (x : ℕ) → InRange x m → m.mem_map x ≢ swap_unused
  pub no_zero : r.1 ≡ 0 → r.2 ≡ 0 → (x : ℕ) → InRange x m → m.mem_map x ≢ 0

abbrev pub wrap : ℕ → ℕ → ℕ
wrap limit next = if next + 1 == limit then 1 else next + 1

pub steps-wrap :
    (start limit next : ℕ)
    → 1 ≤ start
    → start < limit
    → 1 ≤ next
    → next < limit
    → ((wrap limit next == start) ≡ false)
    → steps start limit (wrap limit next) ≡ steps start limit next + 1
steps-wrap start limit next a b c d e = ground (arith, a, b, c, d, e)

pub steps-last :
    (start limit next x : ℕ)
    → 1 ≤ start
    → start < limit
    → 1 ≤ next
    → next < limit
    → 1 ≤ x
    → x < limit
    → (wrap limit next == start) ≡ true
    → steps start limit x ≤ steps start limit next
steps-last start limit next x a b c d f g e = ground (arith, a, b, c, d, e, f, g)

steps-inj :
    (start limit next x : ℕ)
    → 1 ≤ start
    → start < limit
    → 1 ≤ next
    → next < limit
    → 1 ≤ x
    → x < limit
    → steps start limit x ≡ steps start limit next
    → x ≡ next
steps-inj start limit next x a b c d f g e = ground (arith, a, b, c, d, e, f, g)

pub wrap-in :
    (limit next : ℕ)
    → 1 ≤ next
    → next < limit
    → 1 < limit
    → (1 ≤ wrap limit next) × (wrap limit next < limit)
wrap-in limit next a b c = (ground (arith, a, b), ground (arith, a, b, c))

pub steps-bound :
    (start limit x : ℕ)
    → 1 ≤ start
    → start < limit
    → 1 ≤ x
    → x < limit
    → steps start limit x + 1 < limit
steps-bound start limit x a b c d = ground (arith, a, b, c, d)

pub start-steps : (start limit : ℕ) → steps start limit start ≡ 0
start-steps start limit = ground arith

-- `zero_one` after one more offset
unfoldable pub next_zero : ℕ → ℕ → PhysicalMemory → ℕ
next_zero next zero_one m = if (m.mem_map next == 0) && (zero_one == 0) then next else zero_one

pub next_zero-found :
    (next zero_one : ℕ) (m : PhysicalMemory)
    → InRange next m
    → (zero_one ≢ 0 → InRange zero_one m × (m.mem_map zero_one ≡ 0))
    → next_zero next zero_one m ≢ 0
    → InRange (next_zero next zero_one m) m × (m.mem_map (next_zero next zero_one m) ≡ 0)
unfolding next_zero
next_zero-found next zero_one m here old n =
    elim (Bool-cases ((m.mem_map next == 0) && (zero_one == 0))) [
      | inl e ↦ rw e (here, ground (arith, e))
      | inr e ↦ rw e (old (rw e at n))
    ]

next_zero-none :
    (next zero_one : ℕ) (m : PhysicalMemory)
    → InRange next m
    → next_zero next zero_one m ≡ 0
    → (zero_one ≡ 0) × (m.mem_map next ≢ 0)
unfolding next_zero
next_zero-none next zero_one m here e =
    (ground (arith, e, here.0), λ z. absurd (ground (arith, e, z, here.0)))

-- One more offset is seen, up to any that is no further.
pub Seen-next :
    (start next x zero_one : ℕ) (m : PhysicalMemory)
    → InRange start m
    → InRange next m
    → Seen start next zero_one m
    → (m.mem_map next == swap_unused) ≡ false
    → InRange x m
    → steps start m.max_swap_offset x ≤ steps start m.max_swap_offset next
    → (m.mem_map x ≢ swap_unused) × (next_zero next zero_one m ≡ 0 → m.mem_map x ≢ 0)
Seen-next start next x zero_one m s n seen used x_in h = elim (Bool-cases (x == next)) [
  | inl e ↦
      let eq : x ≡ next = ground arith in
      let count = ap m.mem_map eq in
      (
        (λ u. absurd (ground (arith, used, count, u))),
        λ z u. (next_zero-none next zero_one m n z).1 (sym count ∙ u),
      )
  | inr e ↦
      let apart : x ≢ next = λ q. absurd (ground (arith, e, q)) in
      let below = strict start m next x s n x_in h apart in
      (
        seen.unused x x_in.0 x_in.1 below,
        λ z. seen.no_zero (next_zero-none next zero_one m n z).0 x x_in.0 x_in.1 below,
      )
]
  where
    strict :
        (start : ℕ) (m : PhysicalMemory) (next x : ℕ)
        → InRange start m
        → InRange next m
        → InRange x m
        → steps start m.max_swap_offset x ≤ steps start m.max_swap_offset next
        → x ≢ next
        → steps start m.max_swap_offset x < steps start m.max_swap_offset next
    strict start m next x s n x_in h apart =
        elim (Bool-cases (steps start m.max_swap_offset x == steps start m.max_swap_offset next)) [
          | inl e ↦ absurd (
              apart (
                steps-inj start m.max_swap_offset next x s.0 s.1 n.0 n.1 x_in.0 x_in.1
                  (ground arith)))
          | inr e ↦ ground (arith, h, e)
        ]
