-- ===== src/Sched/Edf/Tests.antt =====
-- The theorems on the EDF class at concrete kernels.
use mathlib.Core.List.{Nodup-cons, Nodup-nil, mem-cons_of_mem, mem-cons_self, not-mem-nil}
use os_edf.Prelude.{
  ℕ, zero, suc, ◌≡◌, refl, inl, inr, [], ◌∷◌, Mem, arith, ◌==◌, if◌then◌else◌, replicate, get_or,
}
use os_edf.Prelude.Int.{pos, ◌-ℤ◌, ◌+ℤ◌}
use os_edf.Prelude.Run.{ok, panic, hang, Ends}
use os_edf.Heap.Cells.{blank}
use os_edf.Heap.Order.{IsOrdered}
use os_edf.Kernel.{Kernel, Proc, put_proc, runnable, sleeping, main_rq}
use os_edf.Sched.Edf.{tick_current, my_proc_tick}
use os_edf.Sched.Edf.Entries.{Synced-cons}
use os_edf.Sched.Edf.Invariant.{EdfInv, waiting}
use os_edf.Sched.Edf.{my_enqueue}
use os_edf.Sched.Edf.Invariant.{put_proc-EdfInv, Enqueued, my_enqueue-Enqueued}
use os_edf.Sched.Edf.Tick.{OnTime}
use os_edf.Sched.Edf.Ticking.{
  ProcTicked, my_proc_tick-ProcTicked, my_proc_tick-Late, my_proc_tick-alone,
}
use os_edf.Sched.Edf.Schedule.{
  my_sched_class, Scheduled, schedule_runnable, schedule_blocked, schedule_empty,
}
use os_edf.Sched.{schedule}
use os_edf.Heap.Samples.{entry, nobody, nobody-IsHeapOf}
use os_edf.Sched.Samples.{proc_with, procs, kernel, not_among, kernel-EdfInv, running_out}

schedule_runnable_example :
    Ends (Scheduled 2 (3 ∷ 1 ∷ 2 ∷ []) kernel) (schedule my_sched_class kernel)
schedule_runnable_example =
    schedule_runnable 2 kernel kernel-EdfInv (omega arith) refl running_out (omega arith)
      (omega arith)

abbrev asleep : Kernel
asleep = put_proc kernel 3 (λ q. proc_with sleeping (pos 7))

asleep-EdfInv : EdfInv 2 asleep
asleep-EdfInv =
    put_proc-EdfInv 2 3 kernel (λ q. proc_with sleeping (pos 7)) kernel-EdfInv running_out

schedule_blocked_example : Ends (Scheduled 1 (1 ∷ 2 ∷ []) asleep) (schedule my_sched_class asleep)
schedule_blocked_example = schedule_blocked 1 asleep asleep-EdfInv running_out (inl (λ e. cc))

abbrev alone : Kernel
alone = record kernel {
  procs = asleep.procs;
  heap = nobody;
  rqs = λ i. record { run_list = []; proc_num = 0; max_time_slice = pos 8 };
}

alone-EdfInv : EdfInv 0 alone
alone-EdfInv = record {
  heap = nobody-IsHeapOf;
  synced = λ e m. absurd (not-mem-nil m);
  distinct = Nodup-nil;
  counted = refl;
  queued = λ p m. absurd (not-mem-nil m);
}

schedule_empty_example : schedule my_sched_class alone ≡ panic
schedule_empty_example = schedule_empty alone alone-EdfInv (inl (λ e. cc))

abbrev ticked : Proc
ticked = record (proc_with runnable (pos 6)) { ct = pos 1 }

accounted : tick_current (procs 3) ≡ ok ticked
unfolding tick_current ◌-ℤ◌ ◌+ℤ◌
accounted = refl

all-OnTime : (r : ℕ) → Mem r (waiting kernel) → OnTime (procs r)
all-OnTime r m = inl (ground arith)

my_proc_tick-ProcTicked_example :
    Ends (ProcTicked 2 3 ticked kernel) (my_proc_tick main_rq 3 kernel)
my_proc_tick-ProcTicked_example =
    my_proc_tick-ProcTicked 1 3 ticked kernel kernel-EdfInv running_out accounted all-OnTime

-- Process 2 has one tick left and its work before it.
abbrev hurried : Kernel
hurried = record kernel {
  procs = λ p. if p == 2 then proc_with runnable (pos 1) else procs p;
  heap = record { entry = entry 2 1 ∷ entry 1 3 ∷ replicate 1022 blank; size = pos 2 };
}

hurried-EdfInv : EdfInv 2 hurried
hurried-EdfInv = record {
  heap = record { size = refl; within = omega arith; cells = refl; order = hurried-IsOrdered };
  synced =
      Synced-cons hurried.procs (entry 1 3 ∷ []) (entry 2 1) refl
        (Synced-cons hurried.procs [] (entry 1 3) refl (λ e m. absurd (not-mem-nil m)));
  distinct = Nodup-cons.1 (
    λ m. not_among 2 1 1 (omega arith) (omega arith) (mem-cons_of_mem 1 m),
    Nodup-cons.1 (not-mem-nil, Nodup-nil),
  );
  counted = refl;
  queued = λ p m. (ground arith, λ z. not_among 0 2 1 (omega arith) (omega arith) (rw z at m));
}
  where
    hurried-IsOrdered : IsOrdered 2 hurried.heap.entry
    hurried-IsOrdered zero p q = absurd (omega arith)
    hurried-IsOrdered (suc zero) p q = unfold get_or in omega arith
    hurried-IsOrdered (suc (suc c)) p q = absurd (omega arith)

my_proc_tick-Late_example : my_proc_tick main_rq 3 hurried ≡ panic
my_proc_tick-Late_example =
    my_proc_tick-Late 1 3 ticked hurried hurried-EdfInv
      (not_among 3 2 1 (omega arith) (omega arith)) accounted 2 mem-cons_self
      (inr (refl, omega arith))

my_proc_tick-alone_example : my_proc_tick main_rq 5 alone ≡ hang
my_proc_tick-alone_example = my_proc_tick-alone 5 ticked alone alone-EdfInv accounted

my_enqueue-Enqueued_example : Ends (Enqueued 2 4 kernel) (my_enqueue main_rq 4 kernel)
my_enqueue-Enqueued_example =
    my_enqueue-Enqueued 2 4 kernel kernel-EdfInv (omega arith)
      (not_among 4 1 2 (omega arith) (omega arith)) (omega arith)
