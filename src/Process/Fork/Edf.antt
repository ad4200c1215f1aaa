-- ===== src/Process/Fork/Edf.antt =====
-- do_forkRT over the EDF class: the child waits in the heap under its first deadline.
use os_edf.Prelude.{
  ℕ, ◌+◌, ◌≡◌, ◌≢◌, ◌≤◌, ◌<◌, refl, sym, ap, subst, ◌∙◌, ◌∷◌, Mem, Perm, Bool-cases, inl, inr, true,
  false, some, arith, length, ◌==◌,
}
use os_edf.Prelude.Int.{ℤ, pos, lez}
use os_edf.Prelude.Run.{Ends, ends, Ends-bind, Ends-map}
use mathlib.Core.List.{Nodup}
use os_edf.Heap.{max_heap_size, live}
use os_edf.Heap.Contract.{IsHeapOf}
use os_edf.Kernel.{Kernel, Proc, RunQueue, put_proc, runnable, uninit}
use os_edf.Sched.{wakeup_proc, sched_class_enqueue}
use os_edf.Sched.Edf.Entries.{procs_of, Synced, Synced-agree}
use os_edf.Sched.Edf.Schedule.{my_sched_class}
use os_edf.Sched.Edf.Invariant.{EdfInv, waiting, my_enqueue-Enqueued}
use os_edf.Links.Chain.{NotIn}
use os_edf.Process.{System, alloc_proc, pids_of}
use os_edf.Process.Pids.{max_process}
use os_edf.Process.Pids.Fresh.{Spaced}
use os_edf.Process.Fork.{
  Resources, clone_vm, flag_set, new_child, copy_mm, fork_body, fork_rt_fields, do_fork_rt,
}
use os_edf.Process.Fork.Publish.{Quiet, Quiet-trans, put_proc-Quiet, publish-Published, map-pid}

-- Writes that leave the deadlines and queues of the waiting processes leave the queue valid.
Quiet-EdfInv :
    (n p : ℕ) (k k' : Kernel) → EdfInv n k → ¬ Mem p (waiting k) → Quiet p k k' → EdfInv n k'
Quiet-EdfInv n p k k' v out quiet =
    let same : waiting k' ≡ waiting k = ap (λ h. procs_of (live h)) quiet.heap in
    let apart : (q : ℕ) → Mem q (waiting k) → p ≢ q = λ q m e. out (rw e m) in
    record {
      heap = subst (λ h. IsHeapOf n h) (sym quiet.heap) v.heap;
      synced =
          subst (λ h. Synced k'.procs (live h)) (sym quiet.heap)
            (Synced-agree k.procs k'.procs (live k.heap) (λ q m. (quiet.others q (apart q m)).0)
              v.synced);
      distinct = subst Nodup (sym same) v.distinct;
      counted = ap (λ (r : ℕ → RunQueue). (r 0).proc_num) quiet.rqs ∙ v.counted;
      queued = λ q m.
          let m' = subst (λ l. Mem q l) same m in
          ((quiet.others q (apart q m')).1 ∙ (v.queued q m').0, (v.queued q m').1);
    }

-- Waking a new process up queues it.
wakeup-Enqueued :
    (n p : ℕ) (k : Kernel)
    → EdfInv n k
    → n < max_heap_size
    → ¬ Mem p (waiting k)
    → p ≢ 0
    → p ≢ k.current
    → p ≢ k.idleproc
    → (k.procs p).state ≡ uninit
    → Ends
        (λ k'.
          EdfInv (n + 1) k'
          × Perm (waiting k') (p ∷ waiting k)
          × ((k'.procs p).pt ≡ (k.procs p).pt))
        (wakeup_proc my_sched_class p k)
unfolding wakeup_proc sched_class_enqueue
wakeup-Enqueued n p k v room out real apart not_idle new =
    let off : (p == k.current) ≡ false = ground arith in
    let busy : (p == k.idleproc) ≡ false = ground arith in
    let wake : Proc → Proc = λ q. record q { state = runnable; wait_state = 0 } in
    let k₁ = put_proc k p wake in
    let v₁ = Quiet-EdfInv n p k k₁ v out (put_proc-Quiet p k wake) in
    rw new rw off rw busy (
      Ends-map (my_enqueue-Enqueued n p k₁ v₁ room out real)
        λ k' e. (e.valid, e.added, ap (λ (q : Proc). q.pt) (e.others p) ∙ ground arith))

-- A child that new_child has made, with the fields of do_forkRT
record Made (p : ℕ) (pt : ℤ) (s s' : System) : Type 0 where
  quiet : Quiet p s.kernel s'.kernel
  child : ((s'.kernel.procs p).pt ≡ pt) × ((s'.kernel.procs p).state ≡ uninit)
  others : (q : ℕ) → p ≢ q → (s'.kernel.procs q).pid ≡ (s.kernel.procs q).pid
  kept : (s'.proc_list ≡ s.proc_list) × (s'.pids ≡ s.pids)

new_child-Made :
    (ct pt : ℤ) (t p : ℕ) (s : System)
    → p ≢ s.kernel.current
    → (s.kernel.procs s.kernel.current).wait_state ≡ 0
    → (s.kernel.procs s.kernel.current).time_slice ≡ pos t
    → Ends (Made p pt s) (new_child (fork_rt_fields ct pt) p s)
unfolding new_child alloc_proc
new_child-Made ct pt t p s apart awake slice =
    let off : (p == s.kernel.current) ≡ false = ground arith in
    let sane : lez (pos 0) (pos t) ≡ true = ground arith in
    rw off rw (awake, slice) rw sane
      (ends (record {
        quiet = record {
          heap = refl;
          rqs = refl;
          same = (refl, refl);
          others = λ q h. (ground arith, ground arith);
        };
        child = (ground arith, ground arith);
        others = λ q h. ground arith;
        kept = (refl, refl);
      }))

-- What the next steps of do_forkRT write to the child leaves it as it was made.
Made-child :
    (p : ℕ) (pt : ℤ) (s s' : System) (f : Proc → Proc)
    → ((q : Proc) → ((f q).pt ≡ q.pt) × ((f q).state ≡ q.state))
    → Made p pt s s'
    → Made p pt s (record s' { kernel = put_proc s'.kernel p f })
Made-child p pt s s' f same v = record {
  quiet = Quiet-trans v.quiet (put_proc-Quiet p s'.kernel f);
  child = (
    ground (arith, (same (s'.kernel.procs p)).0, v.child.0),
    ground (arith, (same (s'.kernel.procs p)).1, v.child.1),
  );
  others = λ q h. ground (arith, v.others q h);
  kept = v.kept;
}

Made-pids :
    (p : ℕ) (pt : ℤ) (s s' : System) → NotIn p s.proc_list → Made p pt s s' → pids_of s' ≡ pids_of s
Made-pids p pt s s' new v =
    rw v.kept.0 (map-pid s.kernel.procs s'.kernel.procs p s.proc_list v.others new)

copy_mm-some :
    (clone_flags : ℕ) (r : Resources) (q : Proc)
    → r.new_mm ≢ 0
    → (mm : ℕ) × (copy_mm clone_flags r q ≡ some mm)
unfolding copy_mm
copy_mm-some clone_flags r q h = elim (Bool-cases (q.mm == 0)) [
  | inl kernel_thread ↦ (0, rw kernel_thread refl)
  | inr other ↦ elim (Bool-cases (flag_set clone_flags clone_vm)) [
    | inl shared ↦ (q.mm, rw other rw shared refl)
    | inr duplicated ↦
        let real : (r.new_mm == 0) ≡ false = ground arith in
        (r.new_mm, rw other rw duplicated rw real refl)
  ]
]

-- The child waits under its first deadline, besides those that waited.
pub record Forked (n p : ℕ) (pt : ℤ) (s : System) (r : System × ℤ) : Type 0 where
  pub valid : EdfInv (n + 1) r.0.kernel
  pub added : Perm (waiting r.0.kernel) (p ∷ waiting s.kernel)
  pub deadline : (r.0.kernel.procs p).pt ≡ pt
  pub listed : r.0.proc_list ≡ p ∷ s.proc_list

-- Over the EDF class, with n processes waiting in a valid queue with room, the process count and
-- list below the limit, a new process that is not NULL, not current, not idle, neither listed
-- nor waiting, memory for its stack and its mm, pid variables that fit, and a current process
-- that waits for nothing and has the time slice t: do_forkRT ends; the child waits besides the
-- others in a valid queue of n + 1, its deadline is the given period, and it heads proc_list.
pub do_fork_rt-Forked :
    (n clone_flags t : ℕ) (r : Resources) (ct pt : ℤ) (s : System)
    → EdfInv n s.kernel
    → n < max_heap_size
    → ¬ Mem r.proc (waiting s.kernel)
    → lez (pos max_process) s.nr_process ≡ false
    → length s.proc_list ≤ max_process
    → NotIn r.proc s.proc_list
    → Spaced (pids_of s) s.pids
    → (r.proc ≢ 0) × (r.kstack ≢ 0) × (r.new_mm ≢ 0)
    → (r.proc ≢ s.kernel.current) × (r.proc ≢ s.kernel.idleproc)
    → (s.kernel.procs s.kernel.current).wait_state ≡ 0
    → (s.kernel.procs s.kernel.current).time_slice ≡ pos t
    → Ends (Forked n r.proc pt s) (do_fork_rt my_sched_class clone_flags r ct pt s)
unfolding do_fork_rt fork_body
do_fork_rt-Forked n clone_flags t r ct pt s v room out free few new spaced given apart awake slice =
    let p = r.proc in
    let first : (r.proc == 0) ≡ false = let real = given.0 in ground arith in
    let stack : (r.kstack == 0) ≡ false = let real = given.1 in ground arith in
    rw free rw first (
      Ends-bind (new_child-Made ct pt t p s apart.0 awake slice) λ s₁ made.
        let on_stack : Proc → Proc = λ q. record q { kstack = r.kstack } in
        let k = put_proc s₁.kernel p on_stack in
        let (mm, copied) = copy_mm-some clone_flags r (k.procs k.current) given.2 in
        let with_mm : Proc → Proc = λ q. record q { mm = mm } in
        let s₂ = record s₁ { kernel = put_proc k p with_mm } in
        let made₂ =
          Made-child p pt s (record s₁ { kernel = k }) with_mm (λ q. (refl, refl))
            (Made-child p pt s s₁ on_stack (λ q. (refl, refl)) made) in
        let spaced₂ =
          subst (λ l. Spaced l s₂.pids) (sym (Made-pids p pt s s₂ new made₂))
            (subst (λ st. Spaced (pids_of s) st) (sym made.kept.1) spaced) in
        rw stack rw copied (
          Ends-bind
            (publish-Published clone_flags p s₂ (subst (λ l. NotIn p l) (sym made.kept.0) new)
              (subst (λ l. length l ≤ max_process) (sym made.kept.0) few) spaced₂)
            λ s₃ done.
              let quiet = Quiet-trans made₂.quiet done.quiet in
              let same : waiting s₃.kernel ≡ waiting s.kernel =
                ap (λ h. procs_of (live h)) quiet.heap in
              let woken =
                wakeup-Enqueued n p s₃.kernel (Quiet-EdfInv n p s.kernel s₃.kernel v out quiet) room
                  (λ m. out (subst (λ l. Mem p l) same m)) given.0 (λ e. apart.0 (e ∙ quiet.same.0))
                  (λ e. apart.1 (e ∙ quiet.same.1)) (done.child.1 ∙ made₂.child.1) in
              Ends-bind woken λ k' w. ends (record {
                valid = w.0;
                added = subst (λ l. Perm (waiting k') (p ∷ l)) same w.1;
                deadline = w.2 ∙ done.child.0 ∙ made₂.child.0;
                listed = done.listed ∙ ap (λ l. p ∷ l) made.kept.0;
              })))
