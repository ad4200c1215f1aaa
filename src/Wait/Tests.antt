-- ===== src/Wait/Tests.antt =====
-- The theorems on wait queues: 2 and 3 wait in queue 1 for the processes 1 and 2.
use os_edf.Prelude.{ℕ, ◌+◌, ◌%◌, ◌^◌, ◌≡◌, refl, [], ◌∷◌, ◌++◌, arith, true, ◌==◌, if◌then◌else◌}
use os_edf.Prelude.Run.{Ends}
use os_edf.Sched.Samples.{kernel}
use os_edf.Sched.RoundRobin.{rr_sched_class, refill}
use os_edf.Kernel.{Kernel, runnable, sleeping, main_rq, put_proc, put_rq}
use os_edf.Prelude.Int.{pos}
use os_edf.Links.{Links}
use os_edf.Wait.{Waits, wait_queue_add, wakeup_queue}
use os_edf.Wait.Fifo.{Queue, wait_queue_add-Queue, Wakes, wakeup_queue-Queue}

abbrev links : Links
links = record {
  next = λ q. if q == 1 then 2 else if q == 2 then 3 else if q == 3 then 1 else q;
  prev = λ q. if q == 1 then 3 else if q == 2 then 1 else if q == 3 then 2 else q;
}

abbrev waits : Waits
waits = record {
  kernel = kernel;
  links = links;
  proc = λ q. if q == 2 then 1 else 2;
  wakeup_flags = λ q. 0;
  wait_queue = λ q. 1;
}

waits-Queue : Queue 1 waits (2 ∷ 3 ∷ [])
waits-Queue = (
  (
    (refl, refl, (refl, refl, (refl, refl))),
    (omega arith, (omega arith, tt)),
    ((omega arith, tt), (tt, tt)),
  ),
  (omega arith, refl, (omega arith, refl, tt)),
)

wait_queue_add-Queue_example :
    Ends
      (λ w'. Queue 1 w' ((2 ∷ 3 ∷ []) ++ 4 ∷ []) × (w'.kernel ≡ kernel))
      (wait_queue_add 1 4 waits)
wait_queue_add-Queue_example =
    wait_queue_add-Queue 1 4 (2 ∷ 3 ∷ []) waits waits-Queue
      (omega arith, omega arith, (omega arith, (omega arith, tt))) refl (omega arith)

-- Nobody is in the run queues, and all processes sleep.
abbrev asleep : Kernel
asleep = record kernel {
  procs = λ p. record (kernel.procs p) { state = sleeping; wait_state = 7 };
  rqs = λ i. record { run_list = []; proc_num = 0; max_time_slice = pos 8 };
}

-- A process that is woken up over the round robin class
abbrev woken : ℕ → Kernel → Kernel
woken p k =
    let k₁ = put_proc k p (λ q. record q { state = runnable; wait_state = 0 }) in
    let k₂ =
      put_rq k₁ main_rq
        (λ r. record r { run_list = r.run_list ++ p ∷ []; proc_num = (r.proc_num + 1) % 2 ^ 32 }) in
    put_proc k₂ p (λ q. record (refill (pos 8) q) { rq = main_rq })

both-woken : Wakes rr_sched_class waits.proc (2 ∷ 3 ∷ []) asleep (woken 2 (woken 1 asleep))
unfolding os_edf.Sched.wakeup_proc os_edf.Sched.sched_class_enqueue
    os_edf.Sched.RoundRobin.rr_enqueue os_edf.Sched.RoundRobin.is_linked
    os_edf.Sched.RoundRobin.is_in
both-woken = (woken 1 asleep, refl, (woken 2 (woken 1 asleep), refl, refl))

wakeup_queue-Queue_example :
    Ends
      (λ w'. Queue 1 w' [] × (w'.kernel ≡ woken 2 (woken 1 asleep)))
      (wakeup_queue rr_sched_class 2 1 7 true (record waits { kernel = asleep }))
wakeup_queue-Queue_example =
    wakeup_queue-Queue rr_sched_class 2 1 7 (2 ∷ 3 ∷ []) (record waits { kernel = asleep })
      (woken 2 (woken 1 asleep)) waits-Queue (omega arith) both-woken
