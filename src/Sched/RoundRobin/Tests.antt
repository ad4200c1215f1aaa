-- ===== src/Sched/RoundRobin/Tests.antt =====
-- The theorems on the round robin classes at concrete queues.
use os_edf.Prelude.{◌≡◌, refl, [], ◌∷◌, arith, ◌==◌, if◌then◌else◌}
use os_edf.Prelude.Int.{pos}
use os_edf.Prelude.Run.{Ends}
use os_edf.Kernel.{Kernel, Proc, runnable}
use os_edf.Sched.{schedule}
use os_edf.Sched.RoundRobin.{rr_sched_class, is_in}
use os_edf.Sched.RoundRobin.Fifo.{IsQueue, schedule-rotates}
use os_edf.Sched.Samples.{proc_with, kernel}

abbrev rr_kernel : Kernel
rr_kernel = record kernel {
  rqs = λ i. record {
    run_list = if i == 0 then 1 ∷ 2 ∷ [] else [];
    proc_num = 2;
    max_time_slice = pos 8;
  };
}

rr_kernel-IsQueue : IsQueue (1 ∷ 2 ∷ []) rr_kernel
rr_kernel-IsQueue = record {
  list = refl;
  counted = refl;
  small = omega arith;
  slice = omega arith;
  alone = λ i h. ground arith;
}

schedule-rotates_example :
    Ends (λ k. IsQueue (2 ∷ 3 ∷ []) k × (k.current ≡ 1)) (schedule rr_sched_class rr_kernel)
unfolding is_in
schedule-rotates_example =
    schedule-rotates (2 ∷ []) 1 rr_kernel rr_kernel-IsQueue refl (omega arith) refl (omega arith)
      refl (omega arith) (omega arith)

-- A process that used up its slice on queue 2.
abbrev used_up : Proc
used_up = record (proc_with runnable (pos 7)) { rq = 2; time_slice = pos 0 }
