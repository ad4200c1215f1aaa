-- ===== src/Sched/Edf.antt =====
-- kern/schedule/sched_MY.c: earliest deadline first. The class keeps the waiting processes in the
-- heap, each with its deadline `pt`, which a tick lowers in the heap and in the process at once.
pub mod Entries
pub mod Tick
pub mod Invariant
pub mod Ticking
pub mod Schedule
mod Tests
use os_edf.Prelude.{
  ℕ, zero, suc, ◌+◌, ◌-◌, ◌%◌, Bool, true, false, not, ◌&&◌, List, [], ◌∷◌, ◌==◌, if◌then◌else◌,
}
use os_edf.Prelude.Int.{ℤ, pos, pos_part, ◌+ℤ◌, ◌-ℤ◌, ltz, eqz}
use os_edf.Prelude.Run.{Run, ok, panic, fault, assert, ◌>>=◌, ◌>>◌}
use os_edf.Heap.{Entry, Heap, heap_init, heap_empty, heap_push, heap_pop, heap_gettop}
use os_edf.Kernel.{Kernel, Proc, Procs, modify, put_proc, put_rq, u32_mod}

pub my_init : ℕ → Kernel → Run Kernel
my_init rq k =
    ok (put_rq (record k { heap = heap_init k.heap }) rq (λ r. record r { proc_num = 0 }))

-- The first lines of MY_enqueue.
pub note_enqueued : ℕ → ℕ → Kernel → Kernel
note_enqueued rq p k =
    put_rq (put_proc k p (λ q. record q { rq = rq })) rq
      (λ r. record r { proc_num = (r.proc_num + 1) % u32_mod })

pub my_enqueue : ℕ → ℕ → Kernel → Run Kernel
unfolding note_enqueued
my_enqueue rq p k = do
  let k' = note_enqueued rq p k
  h ← heap_push k'.heap (record { proc = p; x = (k'.procs p).pt })
  ok (record k' { heap = h })

-- The process taken out is the one on top of the heap, whatever `proc` is.
pub my_dequeue : ℕ → ℕ → Kernel → Run Kernel
my_dequeue rq p k = do
  assert (not (heap_empty k.heap) && ((k.procs p).rq == rq))
  let k' = put_rq k rq (λ r. record r { proc_num = (r.proc_num + u32_mod - 1) % u32_mod })
  (e, h) ← heap_pop k'.heap
  ok (record k' { heap = h })

pub my_pick_next : ℕ → Kernel → Run ℕ
my_pick_next rq k = if heap_empty k.heap then panic else do e ← heap_gettop k.heap; ok e.proc

pub heap_exist_earlier_deadline : Heap → ℤ → Run Bool
heap_exist_earlier_deadline h deadline = do e ← heap_gettop h; ok (ltz e.x deadline)

abbrev pub lower : ℤ → ℤ
lower x = x -ℤ pos 1

-- The check behind a lowered deadline: unfinished at 0, or below 0.
abbrev pub check_deadline : Proc → Run (Unit {0})
check_deadline q =
    if eqz q.pt (pos 0) && ltz q.ct q.compute_time
    then panic
    else (if ltz q.pt (pos 0) then panic else ok tt)

-- The loop of tick_decrease_pt_heap over the first n entries.
pub tick_entries : ℕ → List Entry → Procs → Run (List Entry × Procs)
tick_entries zero a ps = ok (a, ps)
tick_entries (suc n) [] ps = fault
tick_entries (suc n) (e ∷ a) ps = do
  let qs = modify ps e.proc (λ q. record q { pt = lower q.pt })
  check_deadline (qs e.proc)
  (b, rs) ← tick_entries n a qs
  ok (record e { x = lower e.x } ∷ b, rs)

pub tick_decrease_pt_heap : Kernel → Run Kernel
tick_decrease_pt_heap k = do
  (b, ps) ← tick_entries (pos_part k.heap.size) k.heap.entry k.procs
  ok (record k { procs = ps; heap = record (k.heap) { entry = b } })

-- One tick of the process that runs: its computation, its deadline, and the end of its job.
pub run_one_tick : Proc → Proc
run_one_tick q =
    if ltz q.ct q.compute_time then record q { ct = q.ct +ℤ pos 1; pt = lower q.pt } else q

pub end_job : Proc → Proc
end_job q =
    if eqz q.ct q.compute_time
    then record q { need_resched = true; ct = pos 0; pt = q.pt +ℤ q.period_time }
    else q

pub tick_rt : Proc → Run Proc
unfolding run_one_tick end_job
tick_rt q =
    let q' = run_one_tick q in
    if eqz q'.pt (pos 0) && ltz q'.ct q'.compute_time then panic else ok (end_job q')

unfoldable pub tick_current : Proc → Run Proc
unfolding tick_rt
tick_current q = if not q.is_rt then ok (record q { need_resched = true }) else tick_rt q

pub my_proc_tick : ℕ → ℕ → Kernel → Run Kernel
my_proc_tick rq p k = do
  q ← tick_current (k.procs p)
  k₁ ← tick_decrease_pt_heap (put_proc k p (λ old. q))
  earlier ← heap_exist_earlier_deadline k₁.heap (k₁.procs p).pt
  ok (if earlier then put_proc k₁ p (λ r. record r { need_resched = true }) else k₁)

-- The older scans of the list of a run queue, which nothing calls any more.
pub rq_exist_earlier_deadline : Procs → List ℕ → ℤ → Bool
rq_exist_earlier_deadline ps [] deadline = false
rq_exist_earlier_deadline ps (p ∷ l) deadline =
    if (ps p).is_rt && ltz (ps p).pt deadline then true else rq_exist_earlier_deadline ps l deadline

pub tick_decrease_rt_pt : List ℕ → Procs → Run Procs
tick_decrease_rt_pt [] ps = ok ps
tick_decrease_rt_pt (p ∷ l) ps =
    let qs = modify ps p (λ q. record q { pt = lower q.pt }) in
    let rt : Run Procs = do check_deadline (qs p); tick_decrease_rt_pt l qs
    in let other = tick_decrease_rt_pt l ps in if (ps p).is_rt then rt else other
