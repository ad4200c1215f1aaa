-- ===== src/Sched/Timers/Tests.antt =====
-- The theorems on the timer list at a concrete list.
use os_edf.Prelude.{ℕ, ◌≡◌, refl, ◌≢◌, List, [], ◌∷◌, arith, none, some}
use os_edf.Prelude.Run.{Ends}
use os_edf.Kernel.{Kernel, Timer}
use os_edf.Sched.{add_timer, del_timer, member}
use os_edf.Sched.Timers.{time_left, add_timer-time_left, del_timer-time_left}
use os_edf.Sched.Samples.{kernel}

abbrev timers : List Timer
timers = record { id = 1; expires = 5; proc = 1 } ∷ record { id = 2; expires = 3; proc = 2 } ∷ []

abbrev timed : Kernel
timed = record kernel { timer_list = timers }

abbrev new_timer : Timer
new_timer = record { id = 4; expires = 6; proc = 3 }

add_timer-time_left_example :
    Ends
      (λ k.
        (time_left 4 k.timer_list ≡ some 6)
        × ((j : ℕ) → 4 ≢ j → time_left j k.timer_list ≡ time_left j timers))
      (add_timer new_timer timed)
unfolding member
add_timer-time_left_example = add_timer-time_left new_timer timed (omega arith) (omega arith) refl

del_timer-time_left_example :
    (time_left 1 (del_timer 1 timed).timer_list ≡ none)
    × ((j : ℕ) → 1 ≢ j → time_left j (del_timer 1 timed).timer_list ≡ time_left j timers)
unfolding member
del_timer-time_left_example = del_timer-time_left 1 timed (refl, (refl, tt)) (omega arith)
