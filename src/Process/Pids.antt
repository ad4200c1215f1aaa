-- ===== src/Process/Pids.antt =====
-- get_pid of kern/process/proc.c: the search for a process number that no process has.
-- The processes are given as the pids along proc_list.
pub mod Scan
pub mod Fresh
pub mod Pigeonhole
mod Tests
use os_edf.Prelude.{
  ℕ, zero, suc, ◌+◌, ◌*◌, Bool, List, [], ◌∷◌, leb, not, ◌&&◌, ◌||◌, if◌then◌else◌,
}
use os_edf.Prelude.Int.{ℤ, pos, pos_part, ltz, eqz}
use os_edf.Prelude.Run.{Run, ok, out_of_fuel}

abbrev pub max_process : ℕ
max_process = 4096

abbrev pub max_pid : ℕ
max_pid = max_process * 2

-- The static variables of get_pid; both begin at MAX_PID.
pub record PidState : Type 0 where
  pub last_pid : ℕ
  pub next_safe : ℕ

abbrev pub initial_pids : PidState
initial_pids = record { last_pid = max_pid; next_safe = max_pid }

-- One walk along proc_list: to its end, or to the `goto repeat` with the last_pid there.
pub data Walk : Type 0 where
  finished : (last_pid next_safe : ℕ) → Walk
  again : (last_pid : ℕ) → Walk

pub walk : List ℤ → ℕ → ℕ → Walk
walk [] last_pid next_safe = finished last_pid next_safe
walk (pid ∷ pids) last_pid next_safe =
    let taken = eqz pid (pos last_pid) in
    let nearer = not taken && (ltz (pos last_pid) pid && ltz pid (pos next_safe)) in
    let rest =
      walk pids (if taken then last_pid + 1 else last_pid)
        (if nearer then pos_part pid else next_safe) in
    if taken && leb next_safe (last_pid + 1)
    then again (if leb max_pid (last_pid + 1) then 1 else last_pid + 1)
    else rest

-- From the label `inside` on.
pub search_pid : ℕ → List ℤ → ℕ → Run PidState
search_pid zero pids last_pid = out_of_fuel
search_pid (suc fuel) pids last_pid = elim (walk pids last_pid max_pid) [
  | finished l s ↦ ok (record { last_pid = l; next_safe = s })
  | again l ↦ search_pid fuel pids l
]

-- The new last_pid is what it returns.
pub get_pid : ℕ → List ℤ → PidState → Run PidState
get_pid fuel pids st =
    let l = st.last_pid + 1 in
    if leb max_pid l || leb st.next_safe l
    then search_pid fuel pids (if leb max_pid l then 1 else l)
    else ok (record st { last_pid = l })
