-- ===== src/Sched/Edf/Invariant.antt =====
-- The invariant of the EDF class, and what each of its operations does to it.
use mathlib.Core.Logic.Or
use mathlib.Core.Logic.{∥∥₁_elim}
use mathlib.Core.List.{
  Nodup, Nodup-cons, mem-cons, mem-cons_of_mem, mem-map_of_mem, exists_of_mem-map,
}
use mathlib.Core.List.Perm
use native.Mathlib.Bridge.{le_prop}
use os_edf.Prelude.{ℕ, ◌+◌, ◌<◌, ◌≡◌, refl, ◌≢◌, List, ◌∷◌, Mem, Perm, arith, ◌∙◌, ap, false}
use os_edf.Prelude.Int.{◌≤ℤ◌}
use os_edf.Prelude.Run.{Ends, ends, Ends-map, Ends-bind}
use os_edf.Heap.{Entry, live, max_heap_size, heap_empty, heap_gettop}
use os_edf.Heap.Cells.{at}
use os_edf.Heap.Contract.{IsHeapOf, heap_push-IsHeapOf, heap_empty-size, heap_gettop-least}
use os_edf.Heap.Pop.{heap_pop-Popped}
use os_edf.Kernel.{Kernel, Proc, Procs, modify, main_rq, put_proc}
use os_edf.Sched.Edf.{my_enqueue, my_dequeue, my_pick_next, note_enqueued}
use os_edf.Sched.Edf.Entries.{procs_of, Synced, Synced-perm, Synced-cons, Synced-agree}

-- The processes in the heap.
abbrev pub waiting : Kernel → List ℕ
waiting k = procs_of (live k.heap)

-- n processes wait, each once, under its present deadline and with its queue noted.
pub record EdfInv (n : ℕ) (k : Kernel) : Type 0 where
  pub heap : IsHeapOf n k.heap
  pub synced : Synced k.procs (live k.heap)
  pub distinct : Nodup (waiting k)
  pub counted : (k.rqs 0).proc_num ≡ n
  pub queued : (p : ℕ) → Mem p (waiting k) → ((k.procs p).rq ≡ main_rq) × (p ≢ 0)

queued_prop : {a b : ℕ} → IsProp ((a ≡ main_rq) × (b ≢ 0))
queued_prop = hlevel

-- A write to a process that does not wait leaves the invariant.
pub put_proc-EdfInv :
    (n p : ℕ) (k : Kernel) (f : Proc → Proc)
    → EdfInv n k
    → ¬ Mem p (waiting k)
    → EdfInv n (put_proc k p f)
put_proc-EdfInv n p k f v out =
    let kept : (q : ℕ) → Mem q (waiting k) → modify k.procs p f q ≡ k.procs q =
      λ q m. let other : p ≢ q = λ e. out (rw e m) in ground arith in
    record {
      heap = v.heap;
      synced =
          Synced-agree k.procs (modify k.procs p f) (live k.heap)
            (λ q m. ap (λ (r : Proc). r.pt) (kept q m)) v.synced;
      distinct = v.distinct;
      counted = v.counted;
      queued = λ q m. (ap (λ (r : Proc). r.rq) (kept q m) ∙ (v.queued q m).0, (v.queued q m).1);
    }

-- What enqueueing `p` changes.
pub record Enqueued (n p : ℕ) (k k' : Kernel) : Type 0 where
  pub valid : EdfInv (n + 1) k'
  pub added : Perm (waiting k') (p ∷ waiting k)
  pub others : (q : ℕ) → k'.procs q ≡ modify k.procs p (λ r. record r { rq = main_rq }) q
  pub same : (k'.current ≡ k.current) × (k'.idleproc ≡ k.idleproc)

-- MY_enqueue of a process that is not NULL and does not wait, on a valid queue of n processes
-- with room, ends with a valid queue of n + 1: the process waits besides the old ones, it has
-- the run queue noted, and no other process record, nor current nor idleproc, changes.
pub my_enqueue-Enqueued :
    (n p : ℕ) (k : Kernel)
    → EdfInv n k
    → n < max_heap_size
    → ¬ Mem p (waiting k)
    → p ≢ 0
    → Ends (Enqueued n p k) (my_enqueue main_rq p k)
unfolding my_enqueue note_enqueued
my_enqueue-Enqueued n p k v room fresh real =
    let ps = modify k.procs p (λ r. record r { rq = main_rq }) in
    let elm : Entry = record { proc = p; x = (ps p).pt } in
    let pt_kept : (q : ℕ) → Mem q (waiting k) → (ps q).pt ≡ (k.procs q).pt = λ q m. ground arith in
    Ends-bind (heap_push-IsHeapOf n k.heap elm v.heap room) λ h (valid, same). ends (record {
      valid = record {
        heap = valid;
        synced = Synced-perm ps same (
            Synced-cons ps (live k.heap) elm refl
              (Synced-agree k.procs ps (live k.heap) (λ q. pt_kept q) v.synced));
        distinct = Perm.nodup (Perm.symm (Perm.map _ same)) (Nodup-cons.1 (fresh, v.distinct));
        counted = omega (arith, v.counted);
        queued = λ q m.
            Or.elim queued_prop (mem-cons.0 ((Perm.mem_iff (Perm.map _ same)).0 m))
              (λ new. rw new (ground arith, real))
              (λ old. (ground (arith, v.queued q old), (v.queued q old).1));
      };
      added = Perm.map _ same;
      others = λ q. refl;
      same = (refl, refl);
    })

-- The process that the class picks has the earliest deadline of those that wait.
abbrev pub IsEarliest : Procs → List ℕ → ℕ → Type 0
IsEarliest ps l p = Mem p l × ((q : ℕ) → Mem q l → (ps p).pt ≤ℤ (ps q).pt)

-- The entry on top, with the deadline of its process.
abbrev pub IsTop : Kernel → Entry → Type 0
IsTop k e =
    IsEarliest k.procs (waiting k) e.proc
    × ((k.procs e.proc).pt ≡ e.x)
    × (e.proc ≡ (at k.heap.entry 0).proc)

pub heap_gettop-IsTop :
    (n : ℕ) (k : Kernel) → EdfInv (n + 1) k → Ends (IsTop k) (heap_gettop k.heap)
heap_gettop-IsTop n k v = Ends-map (heap_gettop-least n k.heap v.heap) λ e (top, m, least). (
  (
    mem-map_of_mem _ m,
    λ q mq.
        ∥∥₁_elim (exists_of_mem-map mq) le_prop
          (λ (f, mf, same). rw (← same, v.synced e m, v.synced f mf) (least f mf)),
  ),
  v.synced e m,
  ap (λ (t : Entry). t.proc) top,
)

pub my_pick_next-IsEarliest :
    (n : ℕ) (k : Kernel)
    → EdfInv (n + 1) k
    → Ends
        (λ p. IsEarliest k.procs (waiting k) p × (p ≡ (at k.heap.entry 0).proc))
        (my_pick_next main_rq k)
unfolding my_pick_next
my_pick_next-IsEarliest n k v =
    let busy : heap_empty k.heap ≡ false = heap_empty-size (n + 1) k.heap v.heap ∙ ground arith in
    rw busy
      (Ends-bind (heap_gettop-IsTop n k v) λ e (earliest, at_deadline, top). ends (earliest, top))

-- The reverse of Enqueued: the process on top has left.
pub record Dequeued (n : ℕ) (k k' : Kernel) : Type 0 where
  pub valid : EdfInv n k'
  pub removed : Perm ((at k.heap.entry 0).proc ∷ waiting k') (waiting k)
  pub others : (k'.procs ≡ k.procs) × (k'.current ≡ k.current) × (k'.idleproc ≡ k.idleproc)

pub my_dequeue-Dequeued :
    (n p : ℕ) (k : Kernel)
    → EdfInv (n + 1) k
    → (k.procs p).rq ≡ main_rq
    → Ends (Dequeued n k) (my_dequeue main_rq p k)
unfolding my_dequeue
my_dequeue-Dequeued n p k v e =
    let busy : heap_empty k.heap ≡ false = heap_empty-size (n + 1) k.heap v.heap ∙ ground arith in
    rw (busy, e)
      (Ends-bind (heap_pop-Popped n k.heap v.heap) λ (t, h) u.
        let same = Perm.map (λ (f : Entry). f.proc) u.same in
        let gone = Nodup-cons.0 (Perm.nodup (Perm.symm same) v.distinct) in
        ends (record {
          valid = record {
            heap = u.valid;
            synced = λ f m. v.synced f ((Perm.mem_iff u.same).0 (mem-cons_of_mem t m));
            distinct = gone.1;
            counted = omega (arith, v.counted, v.heap.within);
            queued = λ q m. v.queued q ((Perm.mem_iff same).0 (mem-cons_of_mem t.proc m));
          };
          removed = rw (← u.top) same;
          others = (refl, refl, refl);
        }))
