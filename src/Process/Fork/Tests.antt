-- ===== src/Process/Fork/Tests.antt =====
-- The theorems on fork with three processes, of which 3 runs, and a new process 4.
use os_edf.Prelude.{refl, [], ◌∷◌, arith, inl, ◌==◌, if◌then◌else◌}
use os_edf.Prelude.Int.{pos}
use os_edf.Prelude.Run.{Ends}
use os_edf.Sched.Samples.{kernel, kernel-EdfInv, not_among}
use os_edf.Sched.Edf.Schedule.{my_sched_class}
use os_edf.Process.{System}
use os_edf.Process.Pids.{initial_pids}
use os_edf.Process.Fork.{Resources, do_fork, do_fork_rt, clone_vm}
use os_edf.Process.Fork.Edf.{Forked, do_fork_rt-Forked}
use os_edf.Process.Fork.Refused.{Refused, do_fork-Refused}

abbrev system : System
system = record {
  kernel = kernel;
  proc_list = 3 ∷ 2 ∷ 1 ∷ [];
  nr_process = pos 3;
  pids = initial_pids;
  hash_list = λ i. if i == 1023 then 3 ∷ 2 ∷ 1 ∷ [] else [];
  groups = record { next = λ q. q; prev = λ q. q };
}

abbrev no_stack : Resources
no_stack = record { proc = 4; kstack = 0; new_mm = 5 }

do_fork-Refused_example : Ends (Refused 4 system) (do_fork my_sched_class clone_vm no_stack system)
do_fork-Refused_example =
    do_fork-Refused my_sched_class clone_vm 4 no_stack system refl (omega arith) (omega arith) refl
      refl refl

abbrev resources : Resources
resources = record { proc = 4; kstack = 6; new_mm = 5 }

do_fork_rt-Forked_example :
    Ends
      (Forked 2 4 (pos 9) system)
      (do_fork_rt my_sched_class clone_vm resources (pos 2) (pos 9) system)
do_fork_rt-Forked_example =
    do_fork_rt-Forked 2 clone_vm 4 resources (pos 2) (pos 9) system kernel-EdfInv (omega arith)
      (not_among 4 1 2 (omega arith) (omega arith)) refl (omega arith)
      (omega arith, (omega arith, (omega arith, tt)))
      (omega arith, omega arith, (inl (omega arith), (inl (omega arith), (inl (omega arith), tt))))
      (omega arith, omega arith, omega arith) (omega arith, omega arith) refl refl
