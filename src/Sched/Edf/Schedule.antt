-- ===== src/Sched/Edf/Schedule.antt =====
-- The scheduler core over the EDF class: schedule() runs a process with the earliest deadline.
use mathlib.Core.List.{Nodup-cons}
use mathlib.Core.List.Perm
use os_edf.Prelude.{
  ℕ, ◌+◌, ◌<◌, ◌≡◌, refl, ◌≢◌, ◌⊎◌, inl, inr, List, ◌∷◌, Mem, Perm, arith, ◌∙◌, ap, ◌==◌, true,
  false, Bool-cases,
}
use os_edf.Prelude.Int.{pos, ◌+ℤ◌}
use os_edf.Prelude.Run.{ok, panic, Ends, ends, Ends-map, Ends-bind}
use os_edf.Heap.{max_heap_size}
use os_edf.Heap.Contract.{heap_empty-size}
use os_edf.Kernel.{Kernel, Procs, put_proc, runnable, is_runnable}
use os_edf.Sched.{SchedClass, requeue_current, pick_and_switch, schedule, switch_to_next}
use os_edf.Sched.Edf.{my_init, my_enqueue, my_dequeue, my_pick_next, my_proc_tick}
use os_edf.Sched.Edf.Invariant.{
  EdfInv, waiting, IsEarliest, put_proc-EdfInv, my_enqueue-Enqueued, my_pick_next-IsEarliest,
  my_dequeue-Dequeued,
}

-- The class that sched_init installs.
abbrev pub my_sched_class : SchedClass
my_sched_class = record {
  init = my_init;
  enqueue = my_enqueue;
  dequeue = my_dequeue;
  pick_next = my_pick_next;
  proc_tick = my_proc_tick;
}

-- The process that runs next has the earliest deadline of those that waited; the others still wait.
pub record Switched (n : ℕ) (k k' : Kernel) : Type 0 where
  pub valid : EdfInv n k'
  pub earliest : IsEarliest k.procs (waiting k) k'.current
  pub rest : Perm (k'.current ∷ waiting k') (waiting k)
  pub deadlines : (q : ℕ) → (k'.procs q).pt ≡ (k.procs q).pt

-- Counting a run of a process that does not wait, and running it, leave the queue alone.
switch_to_next-EdfInv :
    (n p : ℕ) (k : Kernel)
    → EdfInv n k
    → ¬ Mem p (waiting k)
    → EdfInv n (switch_to_next my_sched_class p k)
      × ((switch_to_next my_sched_class p k).current ≡ p)
      × (waiting (switch_to_next my_sched_class p k) ≡ waiting k)
      × ((q : ℕ) → ((switch_to_next my_sched_class p k).procs q).pt ≡ (k.procs q).pt)
unfolding switch_to_next
switch_to_next-EdfInv n p k v out =
    let u = put_proc-EdfInv n p k (λ q. record q { runs = q.runs +ℤ pos 1 }) v out in
    elim (Bool-cases (p == k.current)) [
      | inl same ↦ rw same (u, ground arith, refl, λ q. ground arith)
      | inr other ↦ rw other (
        record {
          heap = u.heap;
          synced = u.synced;
          distinct = u.distinct;
          counted = u.counted;
          queued = u.queued;
        },
        refl,
        refl,
        λ q. ground arith,
      )
    ]

pub pick_and_switch-Switched :
    (n : ℕ) (k : Kernel) → EdfInv (n + 1) k → Ends (Switched n k) (pick_and_switch my_sched_class k)
unfolding pick_and_switch
pick_and_switch-Switched n k v = Ends-bind (my_pick_next-IsEarliest n k v) λ p ((m, least), top).
    let real : (p == 0) ≡ false = let nz = (v.queued p m).1 in ground arith in
    rw real (
      Ends-bind (my_dequeue-Dequeued n p k v (v.queued p m).0) λ k' u.
        let removed : Perm (p ∷ waiting k') (waiting k) = rw top u.removed in
        let out = (Nodup-cons.0 (Perm.nodup (Perm.symm removed) v.distinct)).0 in
        let (valid, current, same, pts) = switch_to_next-EdfInv n p k' u.valid out in
        ends (record {
          valid = valid;
          earliest = rw current (m, least);
          rest = rw (current, same) removed;
          deadlines = λ q. pts q ∙ ap (λ (f : Procs). (f q).pt) u.others.0;
        }))

IsEarliest-transfer :
    (ps qs : Procs) {l m : List ℕ} {p : ℕ}
    → Perm l m
    → ((q : ℕ) → (qs q).pt ≡ (ps q).pt)
    → IsEarliest qs l p
    → IsEarliest ps m p
IsEarliest-transfer ps qs {l} {m} {p} same pts (mem, least) =
    ((Perm.mem_iff same).0 mem, λ q mq. rw (← pts p, ← pts q) (least q ((Perm.mem_iff same).1 mq)))

-- After schedule() the processes `l` were ready, the one that runs has the earliest deadline of
-- them, and exactly the others wait.
pub record Scheduled (n : ℕ) (l : List ℕ) (k k' : Kernel) : Type 0 where
  pub valid : EdfInv n k'
  pub earliest : IsEarliest k.procs l k'.current
  pub rest : Perm (k'.current ∷ waiting k') l

-- What keeps the current process out of the queue.
abbrev pub IsBlocked : Kernel → Type 0
IsBlocked k = ((k.procs k.current).state ≢ runnable) ⊎ (k.current ≡ k.idleproc)

module _ (n : ℕ) (k : Kernel) where
  abbrev unmarked : Kernel
  unmarked = put_proc k k.current (λ q. record q { need_resched = false })

  unmarked-pt : (q : ℕ) → (unmarked.procs q).pt ≡ (k.procs q).pt
  unmarked-pt q = ground arith

  requeue_blocked : IsBlocked k → requeue_current my_sched_class unmarked ≡ ok unmarked
  unfolding requeue_current
  requeue_blocked blocked = ground arith

  -- Over the EDF class, with n processes waiting in a valid queue with room for one more, and a
  -- current process that is runnable, not the idle process, not NULL and not waiting: schedule()
  -- ends, the process that runs then has the smallest deadline pt of the old current process and
  -- those that waited, exactly the others wait, and the queue is valid again.
  pub schedule_runnable :
      EdfInv n k
      → n < max_heap_size
      → (k.procs k.current).state ≡ runnable
      → ¬ Mem k.current (waiting k)
      → k.current ≢ k.idleproc
      → k.current ≢ 0
      → Ends (Scheduled n (k.current ∷ waiting k) k) (schedule my_sched_class k)
  unfolding schedule requeue_current
  schedule_runnable v room ready out busy real =
      let v₀ = put_proc-EdfInv n k.current k (λ q. record q { need_resched = false }) v out in
      let state : is_runnable (unmarked.procs k.current).state ≡ true = ground arith in
      let idle : (k.current == k.idleproc) ≡ false = ground arith in
      rw (state, idle)
        (Ends-bind (my_enqueue-Enqueued n k.current unmarked v₀ room out real) λ k₁ u.
          Ends-map (pick_and_switch-Switched n k₁ u.valid) λ k' s. record {
            valid = s.valid;
            earliest =
                IsEarliest-transfer k.procs k₁.procs u.added (λ q. rw (u.others q) (ground arith))
                  s.earliest;
            rest = Perm.trans s.rest u.added;
          })

  -- Over the EDF class, with n + 1 processes waiting in a valid queue and a current process that
  -- does not wait there and is either not runnable or the idle process: schedule() ends, the
  -- process that runs then has the smallest deadline of those that waited, exactly the others
  -- wait, and the queue is valid again.
  pub schedule_blocked :
      EdfInv (n + 1) k
      → ¬ Mem k.current (waiting k)
      → IsBlocked k
      → Ends (Scheduled n (waiting k) k) (schedule my_sched_class k)
  unfolding schedule
  schedule_blocked v out blocked =
      let v₀ = put_proc-EdfInv (n + 1) k.current k (λ q. record q { need_resched = false }) v out in
      rw (requeue_blocked blocked) (
        Ends-map (pick_and_switch-Switched n unmarked v₀) λ k' s. record {
          valid = s.valid;
          earliest =
              IsEarliest-transfer k.procs unmarked.procs (Perm.refl (waiting k)) unmarked-pt
                s.earliest;
          rest = s.rest;
        })

-- Over the EDF class, with nobody waiting and a current process that is not runnable or is the
-- idle process, schedule() panics: the idle process is never chosen.
pub schedule_empty : (k : Kernel) → EdfInv 0 k → IsBlocked k → schedule my_sched_class k ≡ panic
unfolding schedule pick_and_switch my_pick_next
schedule_empty k v blocked = rw (requeue_blocked 0 k blocked, heap_empty-size 0 k.heap v.heap)
