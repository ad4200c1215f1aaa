-- ===== src/Sched/RoundRobin.antt =====
-- kern/schedule/sched_RR.c and sched_MLFQ.c: the round robin class, and the multi-level feedback
-- queue that stacks four of it. `run_link` is in a list exactly if the process is in a `run_list`.
pub mod Fifo
pub mod Feedback
mod Tests
use os_edf.Prelude.{
  ℕ, zero, suc, ◌+◌, ◌-◌, ◌%◌, ◌≡◌, Bool, true, false, not, ◌&&◌, ◌||◌, List, [], ◌∷◌, ◌++◌, ltb,
  ◌==◌, if◌then◌else◌,
}
use os_edf.Prelude.Int.{ℤ, pos, ◌+ℤ◌, ◌-ℤ◌, ltz, eqz}
use os_edf.Prelude.Run.{Run, ok, panic, assert, ◌>>=◌, ◌>>◌}
use os_edf.Kernel.{Kernel, Proc, RunQueue, put_proc, put_rq, rq_at, u32_mod, main_rq}
use os_edf.Sched.{SchedClass}

unfoldable pub is_in : ℕ → List ℕ → Bool
is_in p [] = false
is_in p (q ∷ l) = if q == p then true else is_in p l

-- !list_empty(&(proc->run_link)): the process is in one of the four lists.
unfoldable pub is_linked : ℕ → Kernel → Bool
unfolding is_in
is_linked p k =
    is_in p (k.rqs 0).run_list
    || is_in p (k.rqs 1).run_list
    || is_in p (k.rqs 2).run_list
    || is_in p (k.rqs 3).run_list

pub unlink : ℕ → List ℕ → List ℕ
unlink p [] = []
unlink p (q ∷ l) = if q == p then l else q ∷ unlink p l

-- list_del_init(&(proc->run_link)): out of the list that it is in.
pub unlink_all : ℕ → Kernel → Kernel
unfolding unlink
unlink_all p k = record k { rqs = λ i. record (k.rqs i) { run_list = unlink p (k.rqs i).run_list } }

pub rr_init : ℕ → Kernel → Run Kernel
rr_init rq k = ok (put_rq k rq (λ r. record r { run_list = []; proc_num = 0 }))

-- A process with no slice left, or with more than the queue grants, gets a full one.
pub refill : ℤ → Proc → Proc
refill max q =
    if eqz q.time_slice (pos 0) || ltz max q.time_slice then record q { time_slice = max } else q

unfoldable pub rr_enqueue : ℕ → ℕ → Kernel → Run Kernel
unfolding is_linked refill
rr_enqueue rq p k = do
  assert (not (is_linked p k))
  let k₁ =
      put_rq k rq
        (λ r. record r { run_list = r.run_list ++ p ∷ []; proc_num = (r.proc_num + 1) % u32_mod })
  ok (put_proc k₁ p (λ q. record (refill (rq_at k rq).max_time_slice q) { rq = rq }))

pub rr_dequeue : ℕ → ℕ → Kernel → Run Kernel
unfolding is_linked unlink_all
rr_dequeue rq p k = do
  assert (is_linked p k && ((k.procs p).rq == rq))
  ok (
      put_rq (unlink_all p k) rq
        (λ r. record r { proc_num = (r.proc_num + u32_mod - 1) % u32_mod }))

pub first_of_list : List ℕ → ℕ
first_of_list [] = 0
first_of_list (p ∷ l) = p

pub rr_pick_next : ℕ → Kernel → Run ℕ
unfolding first_of_list
rr_pick_next rq k = ok (first_of_list (rq_at k rq).run_list)

abbrev pub spend : ℤ → ℤ
spend t = if ltz (pos 0) t then t -ℤ pos 1 else t

pub rr_proc_tick : ℕ → ℕ → Kernel → Run Kernel
rr_proc_tick rq p k = ok (
    put_proc k p (λ q.
      let t = spend q.time_slice in
      record q { time_slice = t; need_resched = if eqz t (pos 0) then true else q.need_resched }))

abbrev pub rr_sched_class : SchedClass
rr_sched_class = record {
  init = rr_init;
  enqueue = rr_enqueue;
  dequeue = rr_dequeue;
  pick_next = rr_pick_next;
  proc_tick = rr_proc_tick;
}

-- The queue behind in the ring of four that sched_init links.
abbrev pub next_rq : ℕ → ℕ
next_rq rq = if rq == 4 then 1 else rq + 1

-- The do-while over the ring from `rq`, as its four rounds.
pub mlfq_init : ℕ → Kernel → Run Kernel
unfolding rr_init
mlfq_init rq k = do
  k₁ ← rr_init rq k
  k₂ ← rr_init (next_rq rq) k₁
  k₃ ← rr_init (next_rq (next_rq rq)) k₂
  rr_init (next_rq (next_rq (next_rq rq))) k₃

-- The queue that a process goes to: the next one down if it used up its slice, the last at most.
pub mlfq_target : ℕ → Proc → ℕ
mlfq_target rq q =
    if not (q.rq == 0) && eqz q.time_slice (pos 0)
    then (if next_rq q.rq == rq then q.rq else next_rq q.rq)
    else rq

pub mlfq_enqueue : ℕ → ℕ → Kernel → Run Kernel
unfolding is_linked mlfq_target
mlfq_enqueue rq p k = do assert (not (is_linked p k)); rr_enqueue (mlfq_target rq (k.procs p)) p k

pub mlfq_dequeue : ℕ → ℕ → Kernel → Run Kernel
unfolding is_linked
mlfq_dequeue rq p k = do assert (is_linked p k); rr_dequeue (k.procs p).rq p k

-- The do-while over the ring, with the rounds left.
pub mlfq_pick_loop : ℕ → ℕ → Kernel → Run ℕ
mlfq_pick_loop zero rq k = ok 0
mlfq_pick_loop (suc rounds) rq k =
    let rest = mlfq_pick_loop rounds (next_rq rq) k in
    do next ← rr_pick_next rq k; if not (next == 0) then ok next else rest

pub mlfq_pick_next : ℕ → Kernel → Run ℕ
unfolding mlfq_pick_loop
mlfq_pick_next rq k = mlfq_pick_loop 4 rq k

pub mlfq_proc_tick : ℕ → ℕ → Kernel → Run Kernel
mlfq_proc_tick rq p k = rr_proc_tick (k.procs p).rq p k

abbrev pub mlfq_sched_class : SchedClass
mlfq_sched_class = record {
  init = mlfq_init;
  enqueue = mlfq_enqueue;
  dequeue = mlfq_dequeue;
  pick_next = mlfq_pick_next;
  proc_tick = mlfq_proc_tick;
}
