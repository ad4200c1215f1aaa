-- ===== src/Sched/Samples.antt =====
-- Concrete kernels for the examples.
use mathlib.Core.Logic.Or
use mathlib.Core.List.{Nodup-cons, Nodup-nil, mem-cons, mem-cons_of_mem, not-mem-nil}
use os_edf.Prelude.{ℕ, ◌≡◌, refl, ◌≢◌, [], ◌∷◌, Mem, arith, ◌==◌, true, false, if◌then◌else◌}
use os_edf.Prelude.Int.{ℤ, pos}
use os_edf.Kernel.{Kernel, Proc, Procs, ProcState, runnable, main_rq}
use os_edf.Sched.Edf.Entries.{Synced-cons}
use os_edf.Sched.Edf.Invariant.{EdfInv, waiting}
use os_edf.Heap.Samples.{entry, two_waiting, two_waiting-IsHeapOf}

abbrev pub proc_with : ProcState → ℤ → Proc
proc_with s deadline = record {
  state = s;
  pid = pos 1;
  runs = pos 0;
  kstack = 0;
  need_resched = false;
  parent = 0;
  mm = 0;
  flags = 0;
  exit_code = pos 0;
  wait_state = 0;
  cptr = 0;
  yptr = 0;
  optr = 0;
  rq = main_rq;
  time_slice = pos 4;
  is_rt = true;
  compute_time = pos 2;
  period_time = pos 9;
  ct = pos 0;
  pt = deadline;
}

-- Processes 1 and 2 wait with deadlines 3 and 5; process 3 runs with deadline 7.
abbrev pub procs : Procs
procs p =
    if p == 1
    then proc_with runnable (pos 3)
    else if p == 2
    then proc_with runnable (pos 5)
    else proc_with runnable (pos 7)

abbrev pub kernel : Kernel
kernel = record {
  procs = procs;
  current = 3;
  idleproc = 9;
  initproc = 3;
  rqs = λ i. record { run_list = []; proc_num = 2; max_time_slice = pos 8 };
  heap = two_waiting;
  timer_list = [];
}

pub not_among : (p a b : ℕ) → p ≢ a → p ≢ b → ¬ Mem p (a ∷ b ∷ [])
not_among p a b f g m =
    Or.elim (λ x y. absurd x) (mem-cons.0 m) f
      (λ n. Or.elim (λ x y. absurd x) (mem-cons.0 n) g not-mem-nil)

pub rq_all : (p : ℕ) → (procs p).rq ≡ main_rq
rq_all p = ground arith

pub kernel-EdfInv : EdfInv 2 kernel
kernel-EdfInv = record {
  heap = two_waiting-IsHeapOf;
  synced =
      Synced-cons procs (entry 2 5 ∷ []) (entry 1 3) refl
        (Synced-cons procs [] (entry 2 5) refl (λ e m. absurd (not-mem-nil m)));
  distinct = Nodup-cons.1 (
    λ m. not_among 1 2 2 (omega arith) (omega arith) (mem-cons_of_mem 2 m),
    Nodup-cons.1 (not-mem-nil, Nodup-nil),
  );
  counted = refl;
  queued = λ p m. (rq_all p, λ z. not_among 0 1 2 (omega arith) (omega arith) (rw z at m));
}

-- The running process does not wait.
pub running_out : ¬ Mem 3 (waiting kernel)
running_out = not_among 3 1 2 (omega arith) (omega arith)
