-- ===== src/Process/Pids/Fresh.antt =====
-- get_pid returns, and the pid is one that no process has.
use os_edf.Prelude.{
  ℕ, zero, suc, ◌+◌, ◌≤◌, ◌<◌, inl, List, ◌∷◌, arith, leb, ◌||◌, if◌then◌else◌, length,
}
use os_edf.Prelude.Int.{ℤ, pos}
use os_edf.Prelude.Run.{Run, ok, Ends, ends, Ends-if, Ends-map}
use os_edf.Process.Pids.{
  PidState, Walk, finished, again, walk, search_pid, get_pid, max_pid, max_process,
}
use os_edf.Process.Pids.Scan.{Outside, Free, Outside-narrow, distance, Walked, walk-Walked}
use os_edf.Process.Pids.Pigeonhole.{pigeonhole_max}

-- The static variables fit the processes: no pid lies strictly between the two.
abbrev pub Spaced : List ℤ → PidState → Type 0
Spaced pids st =
    (1 ≤ st.last_pid) × (st.next_safe ≤ max_pid) × Outside (suc st.last_pid) st.next_safe pids

-- A pid that none of the processes has, below MAX_PID.
abbrev pub Fresh : List ℤ → PidState → Type 0
Fresh pids st =
    (1 ≤ st.last_pid)
    × (st.last_pid < max_pid)
    × (st.last_pid < st.next_safe)
    × (st.next_safe ≤ max_pid)
    × Outside st.last_pid st.next_safe pids

search_pid-Fresh :
    (f fuel : ℕ) (pids : List ℤ) (l : ℕ)
    → 1 ≤ f
    → f < max_pid
    → Free f pids
    → 1 ≤ l
    → l < max_pid
    → distance f l < fuel
    → Ends (Fresh pids) (search_pid fuel pids l)
unfolding search_pid
search_pid-Fresh f zero pids l h g free p q e = absurd (omega arith)
search_pid-Fresh f (suc fuel) pids l h g free p q e =
    let walked = walk-Walked f pids l max_pid h g free p q (omega arith) in
    let next : Walk → Run PidState = λ w. elim w [
      | finished l' s' ↦ ok (record { last_pid = l'; next_safe = s' })
      | again l' ↦ search_pid fuel pids l'
    ] in
    let onwards : (w : Walk) → Walked f pids l max_pid w → Ends (Fresh pids) (next w) = λ w.
      elim w as (λ w. Walked f pids l max_pid w → Ends (Fresh pids) (next w)) [
        | finished l' s' ↦ λ o. ends (omega arith, omega arith, o.1, o.2, o.3)
        | again l' ↦ λ o. search_pid-Fresh f fuel pids l' h g free o.1 o.2 (omega arith)
      ] in
    onwards (walk pids l max_pid) walked

get_pid-Fresh :
    (fuel : ℕ) (pids : List ℤ) (st : PidState)
    → length pids ≤ max_process
    → max_pid ≤ fuel
    → Spaced pids st
    → Ends (Fresh pids) (get_pid fuel pids st)
unfolding get_pid
get_pid-Fresh fuel pids st few e spaced =
    let l = st.last_pid + 1 in
    let (f, low, high, free) = pigeonhole_max pids few in
    Ends-if (leb max_pid l || leb st.next_safe l)
      (λ yes.
        search_pid-Fresh f fuel pids (if leb max_pid l then 1 else l) low high free (ground arith)
          (ground arith) (ground arith))
      λ no. ends (
        omega arith,
        ground arith,
        ground arith,
        spaced.1,
        Outside-narrow pids (suc st.last_pid) st.next_safe l st.next_safe (omega arith)
            (omega arith) spaced.2,
      )

-- With at most MAX_PROCESS processes, static variables between which no process has its pid, and
-- fuel for MAX_PID walks: get_pid returns; its pid is below MAX_PID and no process has it; and
-- the variables fit the processes with the new pid added, so the next call has them in the same
-- condition.
pub get_pid-Spaced :
    (fuel : ℕ) (pids : List ℤ) (st : PidState)
    → length pids ≤ max_process
    → max_pid ≤ fuel
    → Spaced pids st
    → Ends
        (λ st'.
          (st'.last_pid < max_pid) × Free st'.last_pid pids × Spaced (pos st'.last_pid ∷ pids) st')
        (get_pid fuel pids st)
get_pid-Spaced fuel pids st few e spaced =
    Ends-map (get_pid-Fresh fuel pids st few e spaced) λ st' fresh. (
      fresh.1,
      Outside-narrow pids st'.last_pid st'.next_safe st'.last_pid (suc st'.last_pid) (omega arith)
          (omega arith) fresh.4,
      (
        fresh.0,
        fresh.3,
        (
          inl (omega arith),
          Outside-narrow pids st'.last_pid st'.next_safe (suc st'.last_pid) st'.next_safe
              (omega arith) (omega arith) fresh.4,
        ),
      ),
    )
