-- ===== src/Sched/Timers.antt =====
-- The timer list of sched.c keeps each timer relative to the one before it. Seen from outside, a
-- timer has a time left, which adding and deleting other timers does not change.
mod Tests
use mathlib.Core.Option
use os_edf.Prelude.{
  ℕ, ◌+◌, ◌-◌, ◌%◌, ◌≤◌, ◌<◌, ◌≡◌, refl, ◌≢◌, ◌⊎◌, inr, List, [], ◌∷◌, arith, ltb, ◌==◌, true,
  false, not, ◌&&◌, if◌then◌else◌, Option, none, some,
}
use os_edf.Prelude.Run.{Ends, ends}
use os_edf.Kernel.{Kernel, Timer, u32_mod}
use os_edf.Sched.{member, insert_timer, add_timer, add_to_next, remove_timer, del_timer}

-- The ticks until timer j fires.
abbrev pub time_left : ℕ → List Timer → Option ℕ
time_left j [] = none
time_left j (t ∷ ts) =
    if t.id == j then some t.expires else Option.map (λ d. t.expires + d) (time_left j ts)

-- The ticks until the last timer fires.
abbrev pub horizon : List Timer → ℕ
horizon [] = 0
horizon (t ∷ ts) = t.expires + horizon ts

time_left-insert_self :
    (t : Timer) (ts : List Timer)
    → member t.id ts ≡ false
    → time_left t.id (insert_timer t ts) ≡ some t.expires
unfolding insert_timer member
time_left-insert_self t [] h = ground arith
time_left-insert_self t (n ∷ ns) h =
    ground (arith, time_left-insert_self (record t { expires = t.expires - n.expires }) ns)

time_left-insert_ne :
    (t : Timer) (ts : List Timer) (j : ℕ)
    → t.id ≢ j
    → time_left j (insert_timer t ts) ≡ time_left j ts
unfolding insert_timer
time_left-insert_ne t [] j h = ground arith
time_left-insert_ne t (n ∷ ns) j h =
    ground (arith, time_left-insert_ne (record t { expires = t.expires - n.expires }) ns j)

-- add_timer of a timer with a positive time and a process, which is not in the list, ends; the
-- timer then has exactly the time it asked for left, and every other timer has the time left
-- that it had.
pub add_timer-time_left :
    (t : Timer) (k : Kernel)
    → 0 < t.expires
    → t.proc ≢ 0
    → member t.id k.timer_list ≡ false
    → Ends
        (λ k'.
          (time_left t.id k'.timer_list ≡ some t.expires)
          × ((j : ℕ) → t.id ≢ j → time_left j k'.timer_list ≡ time_left j k.timer_list))
        (add_timer t k)
unfolding add_timer
add_timer-time_left t k pos real fresh =
    let guard : (ltb 0 t.expires && not (t.proc == 0)) ≡ true = ground arith in
    rw (guard, fresh)
      (ends (time_left-insert_self t k.timer_list fresh, time_left-insert_ne t k.timer_list))

time_left-add_to_next :
    (d : ℕ) (ts : List Timer) (j : ℕ)
    → d + horizon ts < u32_mod
    → time_left j (add_to_next d ts) ≡ Option.map (λ e. d + e) (time_left j ts)
unfolding add_to_next
time_left-add_to_next d [] j h = refl
time_left-add_to_next d (n ∷ ns) j h =
    let small : (n.expires + d) % u32_mod ≡ n.expires + d = omega arith in rw small (ground arith)

time_left-remove_ne :
    (t : ℕ) (ts : List Timer) (j : ℕ)
    → horizon ts < u32_mod
    → t ≢ j
    → time_left j (remove_timer t ts) ≡ time_left j ts
unfolding remove_timer
time_left-remove_ne t [] j h other = refl
time_left-remove_ne t (n ∷ ns) j h other =
    ground (
      arith,
      time_left-remove_ne t ns j (omega arith) other,
      time_left-add_to_next n.expires ns j h,
    )

time_left-absent : (t : ℕ) (ts : List Timer) → member t ts ≡ false → time_left t ts ≡ none
unfolding member
time_left-absent t [] h = refl
time_left-absent t (n ∷ ns) h = ground (arith, time_left-absent t ns)

-- Each timer stands in the list once.
abbrev pub Distinct : List Timer → Type 0
Distinct [] = Unit
Distinct (t ∷ ts) = (member t.id ts ≡ false) × Distinct ts

member-add_to_next : (t d : ℕ) (ts : List Timer) → member t (add_to_next d ts) ≡ member t ts
unfolding member add_to_next
member-add_to_next t d [] = refl
member-add_to_next t d (n ∷ ns) = refl

member-remove_self : (t : ℕ) (ts : List Timer) → Distinct ts → member t (remove_timer t ts) ≡ false
unfolding member remove_timer
member-remove_self t [] d = refl
member-remove_self t (n ∷ ns) d =
    ground (arith, member-remove_self t ns d.1, member-add_to_next t n.expires ns)

-- On a list whose timers are distinct and whose total time is below 2^32, del_timer removes the
-- timer, and every other timer has the time left that it had, also where the removed timer had
-- already expired.
pub del_timer-time_left :
    (t : ℕ) (k : Kernel)
    → Distinct k.timer_list
    → horizon k.timer_list < u32_mod
    → (time_left t (del_timer t k).timer_list ≡ none)
      × ((j : ℕ) → t ≢ j → time_left j (del_timer t k).timer_list ≡ time_left j k.timer_list)
unfolding del_timer
del_timer-time_left t k d h = (
  time_left-absent t (remove_timer t k.timer_list) (member-remove_self t k.timer_list d),
  λ j other. time_left-remove_ne t k.timer_list j h other,
)

horizon-remove :
    (t : ℕ) (ts : List Timer) → horizon ts < u32_mod → horizon (remove_timer t ts) ≤ horizon ts
unfolding remove_timer add_to_next
horizon-remove t [] h = omega arith
horizon-remove t (n ∷ []) h = ground arith
horizon-remove t (n ∷ m ∷ ns) h = ground (arith, horizon-remove t (m ∷ ns) (omega arith))

horizon-insert :
    (t : Timer) (ts : List Timer)
    → (horizon (insert_timer t ts) ≡ horizon ts) ⊎ (horizon (insert_timer t ts) ≡ t.expires)
unfolding insert_timer
horizon-insert t [] = inr (omega arith)
horizon-insert t (n ∷ ns) =
    ground (arith, horizon-insert (record t { expires = t.expires - n.expires }) ns)
