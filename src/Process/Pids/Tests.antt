-- ===== src/Process/Pids/Tests.antt =====
-- get_pid at a list of three processes, with the pids used up to the last one.
use os_edf.Prelude.{◌<◌, ◌≡◌, refl, List, [], ◌∷◌, arith, inl}
use os_edf.Prelude.Int.{ℤ, pos}
use os_edf.Prelude.Run.{ok, Ends}
use os_edf.Process.Pids.{walk, search_pid, get_pid, max_pid, initial_pids}
use os_edf.Process.Pids.Scan.{Free}
use os_edf.Process.Pids.Fresh.{Spaced, get_pid-Spaced}

abbrev three_pids : List ℤ
three_pids = pos 2 ∷ pos 1 ∷ pos 3 ∷ []

-- The numbers begin again at 1, and the walk passes 1, 2 and 3.
wraps : get_pid 8192 three_pids initial_pids ≡ ok (record { last_pid = 4; next_safe = max_pid })
unfolding get_pid search_pid walk
wraps = refl

get_pid-Spaced_example :
    Ends
      (λ st'.
        (st'.last_pid < max_pid)
        × Free st'.last_pid three_pids
        × Spaced (pos st'.last_pid ∷ three_pids) st')
      (get_pid 8192 three_pids (record { last_pid = 8191; next_safe = 8192 }))
get_pid-Spaced_example =
    get_pid-Spaced 8192 three_pids (record { last_pid = 8191; next_safe = 8192 }) (omega arith)
      (omega arith)
      (omega arith, omega arith, (inl (omega arith), (inl (omega arith), (inl (omega arith), tt))))
