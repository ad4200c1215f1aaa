-- ===== src/Swap/Search.antt =====
-- The search of try_alloc_swap_entry goes once around the swap space.
use os_edf.Prelude.{
  ℕ, zero, suc, ◌+◌, ◌*◌, ◌≤◌, ◌<◌, ◌≡◌, ◌≢◌, refl, inl, inr, Bool-cases, true, false, not, ◌==◌,
  arith,
}
use os_edf.Prelude.Run.{Ends, ends, Ends-bind, Ends-if}
use os_edf.Frames.{PhysicalMemory}
use os_edf.Swap.{swap_unused, entry_loop, try_alloc_swap_entry}
use os_edf.Swap.Around.{
  steps, Seen, InRange, Searched, wrap, steps-wrap, steps-last, wrap-in, steps-bound, start-steps,
  next_zero, next_zero-found, Seen-next,
}

entry_loop-Searched :
    (fuel start next zero_one : ℕ) (m : PhysicalMemory)
    → InRange start m
    → InRange next m
    → (zero_one ≢ 0 → InRange zero_one m × (m.mem_map zero_one ≡ 0))
    → Seen start next zero_one m
    → m.max_swap_offset ≤ fuel + steps start m.max_swap_offset next + 1
    → Ends (Searched m) (entry_loop fuel next 0 zero_one start m)
unfolding entry_loop next_zero
entry_loop-Searched zero start next zero_one m s n z seen fuel =
    let b = steps-bound start m.max_swap_offset next s.0 s.1 n.0 n.1 in
    absurd (omega (arith, b, fuel))
entry_loop-Searched (suc fuel) start next zero_one m s n z seen enough =
    let limit = m.max_swap_offset in
    let next' = wrap-in limit next n.0 n.1 (omega (arith, s.0, s.1)) in
    elim (Bool-cases (m.mem_map next == swap_unused)) [
      | inl unused ↦
          let some_one : (next == 0) ≡ false = let a = n.0 in ground (arith, a) in
          rw (unused, some_one)
            (ends (record {
              next_in = next';
              empty_one = λ _. (n, ground (arith, unused));
              zero_one = next_zero-found next zero_one m n z;
              no_empty = λ e. absurd (let a = n.0 in omega (arith, a, e));
              no_zero = λ e. absurd (let a = n.0 in omega (arith, a, e));
            }))
      | inr used ↦ rw used (
          Ends-if (not (wrap limit next == start))
            (λ more.
              let on : (wrap limit next == start) ≡ false = ground (arith, more) in
              let up = steps-wrap start limit next s.0 s.1 n.0 n.1 on in
              entry_loop-Searched fuel start (wrap limit next) (next_zero next zero_one m) m s next'
                (next_zero-found next zero_one m n z)
                (record {
                  unused = λ x a b h.
                      (Seen-next start next x zero_one m s n seen used (a, b)
                        (omega (arith, h, up))).0;
                  no_zero = λ e x a b h.
                      (Seen-next start next x zero_one m s n seen used (a, b)
                          (omega (arith, h, up))).1
                        e;
                })
                (omega (arith, up, enough)))
            λ stop.
              let around : (wrap limit next == start) ≡ true = ground (arith, stop) in
              ends (record {
                next_in = next';
                empty_one = λ e. absurd (e refl);
                zero_one = next_zero-found next zero_one m n z;
                no_empty = λ e x i.
                    (Seen-next start next x zero_one m s n seen used i
                      (steps-last start limit next x s.0 s.1 n.0 n.1 i.0 i.1 around)).0;
                no_zero = λ e e' x i.
                    (Seen-next start next x zero_one m s n seen used i
                        (steps-last start limit next x s.0 s.1 n.0 n.1 i.0 i.1 around)).1
                      e';
              }))
    ]

-- The search from any offset of the swap space ends, and finds what there is.
pub search-Searched :
    (m : PhysicalMemory)
    → 1 ≤ m.next
    → m.next < m.max_swap_offset
    → Ends (Searched m) (entry_loop m.max_swap_offset m.next 0 0 m.next m)
search-Searched m a b =
    entry_loop-Searched m.max_swap_offset m.next m.next 0 m (a, b) (a, b) (λ e. absurd (e refl))
      (record {
        unused =
            λ x i j h. absurd (let z = start-steps m.next m.max_swap_offset in omega (arith, h, z));
        no_zero = λ e x i j h.
            absurd (let z = start-steps m.next m.max_swap_offset in omega (arith, h, z));
      })
      (omega arith)

-- How try_alloc_swap_entry ends where an offset is unused
pub record Unused (m : PhysicalMemory) (r : ℕ × PhysicalMemory) : Type 0 where
  pub offset : ℕ
  pub entry : r.0 ≡ offset * 256
  pub offset_in : InRange offset m
  pub count : m.mem_map offset ≡ swap_unused
  pub state : r.1 ≡ record m { next = r.1.next }
  pub next_in : InRange r.1.next m

-- If some offset of the swap space is unused and the search starts inside the space,
-- try_alloc_swap_entry ends within as many rounds as there are offsets: it returns the entry of
-- an unused offset of the space, and only its static variable changes, which stays inside the
-- space.
pub try_alloc_swap_entry-Unused :
    (x : ℕ) (m : PhysicalMemory)
    → 1 ≤ m.next
    → m.next < m.max_swap_offset
    → InRange x m
    → m.mem_map x ≡ swap_unused
    → Ends (Unused m) (try_alloc_swap_entry m)
unfolding try_alloc_swap_entry
try_alloc_swap_entry-Unused x m a b x_in unused = Ends-bind (search-Searched m a b) λ r s.
    let found : (r.1 == 0) ≡ false = elim (Bool-cases (r.1 == 0)) [
      | inl none_found ↦ absurd (s.no_empty (ground (arith, none_found)) x x_in unused)
      | inr e ↦ e
    ] in
    let f = s.empty_one (λ z. absurd (ground (arith, found, z))) in
    rw found (
      ends (record {
        offset = r.1;
        entry = refl;
        offset_in = f.0;
        count = f.1;
        state = refl;
        next_in = s.next_in;
      }))

-- Where every offset has references, there is no entry.
pub try_alloc_swap_entry-full :
    (m : PhysicalMemory)
    → 1 ≤ m.next
    → m.next < m.max_swap_offset
    → ((x : ℕ) → InRange x m → (m.mem_map x ≢ swap_unused) × (m.mem_map x ≢ 0))
    → Ends (λ r. (r.0 ≡ 0) × (r.1.mem_map ≡ m.mem_map)) (try_alloc_swap_entry m)
unfolding try_alloc_swap_entry
try_alloc_swap_entry-full m a b full = Ends-bind (search-Searched m a b) λ r s.
    let no_empty : (r.1 == 0) ≡ true = elim (Bool-cases (r.1 == 0)) [
      | inl e ↦ e
      | inr e ↦
          let f = s.empty_one (λ z. absurd (ground (arith, e, z))) in absurd ((full r.1 f.0).0 f.1)
    ] in
    let no_zero : (r.2 == 0) ≡ true = elim (Bool-cases (r.2 == 0)) [
      | inl e ↦ e
      | inr e ↦
          let f = s.zero_one (λ z. absurd (ground (arith, e, z))) in absurd ((full r.2 f.0).1 f.1)
    ] in
    rw (no_empty, no_zero) (ends (refl, refl))
