-- ===== src/Sched.antt =====
-- kern/schedule/sched.h and sched.c: the scheduler core over a scheduling class.
-- Interrupts are off in each function, so a call is one step. `warn` prints only. `proc_run` also
-- loads the stack and page directory registers and switches stacks in assembly; what remains in C is
-- that `current` becomes the process.
pub mod Edf
pub mod Timers
pub mod RoundRobin
pub mod Samples
use os_edf.Prelude.{
  ℕ, zero, suc, ◌+◌, ◌-◌, ◌*◌, ◌^◌, ◌%◌, ◌≡◌, Bool, true, false, not, ◌&&◌, List, [], ◌∷◌, ltb,
  ◌==◌, if◌then◌else◌,
}
use os_edf.Prelude.Int.{ℤ, pos, ◌+ℤ◌}
use os_edf.Prelude.Run.{Run, ok, assert, ◌>>=◌, ◌>>◌}
use os_edf.Kernel.{
  Kernel, Proc, ProcState, RunQueue, Timer, sleeping, runnable, zombie, is_runnable, is_zombie,
  main_rq, put_proc, put_rq, is_interruptible, u32_mod,
}

-- struct sched_class: the policy behind the scheduler. The run queue is an address.
pub record SchedClass : Type 0 where
  pub init : ℕ → Kernel → Run Kernel
  pub enqueue : ℕ → ℕ → Kernel → Run Kernel
  pub dequeue : ℕ → ℕ → Kernel → Run Kernel
  pub pick_next : ℕ → Kernel → Run ℕ
  pub proc_tick : ℕ → ℕ → Kernel → Run Kernel

pub member : ℕ → List Timer → Bool
member t [] = false
member t (x ∷ xs) = if x.id == t then true else member t xs

-- The loop of add_timer: the new timer goes before the first that expires later, and each counts
-- from the one before it.
pub insert_timer : Timer → List Timer → List Timer
insert_timer t [] = t ∷ []
insert_timer t (n ∷ ns) =
    if ltb t.expires n.expires
    then t ∷ record n { expires = n.expires - t.expires } ∷ ns
    else n ∷ insert_timer (record t { expires = t.expires - n.expires }) ns

pub add_timer : Timer → Kernel → Run Kernel
add_timer t k = do
  assert (ltb 0 t.expires && not (t.proc == 0))
  assert (not (member t.id k.timer_list))
  ok (record k { timer_list = insert_timer t k.timer_list })

-- `next->expires += timer->expires`, if there is a timer behind
pub add_to_next : ℕ → List Timer → List Timer
add_to_next d [] = []
add_to_next d (n ∷ ns) = record n { expires = (n.expires + d) % u32_mod } ∷ ns

pub remove_timer : ℕ → List Timer → List Timer
remove_timer t [] = []
remove_timer t (x ∷ xs) =
    if x.id == t
    then (if not (x.expires == 0) then add_to_next x.expires xs else xs)
    else x ∷ remove_timer t xs

-- A timer that is in no list is left alone.
pub del_timer : ℕ → Kernel → Kernel
del_timer t k = record k { timer_list = remove_timer t k.timer_list }

pub proc_run : ℕ → Kernel → Kernel
proc_run p k = if not (p == k.current) then record k { current = p } else k

module _ (cls : SchedClass) where
  unfoldable pub sched_class_enqueue : ℕ → Kernel → Run Kernel
  sched_class_enqueue p k = if not (p == k.idleproc) then cls.enqueue main_rq p k else ok k

  pub sched_class_dequeue : ℕ → Kernel → Run Kernel
  sched_class_dequeue p k = cls.dequeue main_rq p k

  pub sched_class_pick_next : Kernel → Run ℕ
  sched_class_pick_next k = cls.pick_next main_rq k

  pub sched_class_proc_tick : ℕ → Kernel → Run Kernel
  sched_class_proc_tick p k =
      if not (p == k.idleproc)
      then cls.proc_tick main_rq p k
      else ok (put_proc k p (λ q. record q { need_resched = true }))

  -- The four queues in a ring, with slices 8, 16, 32 and 64.
  pub sched_init : Kernel → Run Kernel
  sched_init k = cls.init main_rq (record k {
    timer_list = [];
    rqs = λ i. record (k.rqs i) { max_time_slice = pos (8 * 2 ^ i) };
  })

  unfoldable pub wakeup_proc : ℕ → Kernel → Run Kernel
  unfolding sched_class_enqueue
  wakeup_proc p k = do
    assert (not (is_zombie (k.procs p).state))
    let k' = put_proc k p (λ q. record q { state = runnable; wait_state = 0 })
    let woken : Run Kernel = if not (p == k.current) then sched_class_enqueue p k' else ok k'
    if not (is_runnable (k.procs p).state) then woken else ok k

  -- What schedule does once the class has chosen.
  pub switch_to_next : ℕ → Kernel → Kernel
  unfolding proc_run
  switch_to_next next k = proc_run next (put_proc k next (λ q. record q { runs = q.runs +ℤ pos 1 }))

  pub requeue_current : Kernel → Run Kernel
  unfolding sched_class_enqueue
  requeue_current k =
      if is_runnable (k.procs k.current).state then sched_class_enqueue k.current k else ok k

  pub take_next : ℕ → Kernel → Run Kernel
  unfolding sched_class_dequeue
  take_next next k = if not (next == 0) then sched_class_dequeue next k else ok k

  -- From the choice of the next process on; without one it is the idle process.
  pub pick_and_switch : Kernel → Run Kernel
  unfolding sched_class_pick_next take_next
  pick_and_switch k = do
    next ← sched_class_pick_next k
    k' ← take_next next k
    ok (switch_to_next (if next == 0 then k'.idleproc else next) k')

  pub schedule : Kernel → Run Kernel
  schedule k = do
    k' ← requeue_current (put_proc k k.current (λ q. record q { need_resched = false }))
    pick_and_switch k'

  -- `while (timer->expires == 0)`: the timers that are due, from the head of the list.
  pub expire_timers : List Timer → Kernel → Run Kernel
  expire_timers [] k = ok k
  expire_timers (t ∷ ts) k =
      let due : Run Kernel = do
        let wait_state = (k.procs t.proc).wait_state
        assert (if not (wait_state == 0) then is_interruptible wait_state else true)
        k' ← wakeup_proc t.proc k
        expire_timers ts (del_timer t.id k')
      in if t.expires == 0 then due else ok k

  pub tick_timers : List Timer → Kernel → Run Kernel
  tick_timers [] k = ok k
  tick_timers (t ∷ ts) k = do
    assert (not (t.expires == 0))
    let t' = record t { expires = t.expires - 1 }
    expire_timers (t' ∷ ts) (record k { timer_list = t' ∷ ts })

  pub run_timer_list : Kernel → Run Kernel
  unfolding sched_class_proc_tick
  run_timer_list k = do k' ← tick_timers k.timer_list k; sched_class_proc_tick k'.current k'
