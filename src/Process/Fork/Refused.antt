-- ===== src/Process/Fork/Refused.antt =====
-- A fork that finds no memory for the stack of the child.
use os_edf.Prelude.{ℕ, ◌≡◌, ◌≢◌, ◌-◌, ◌/◌, refl, ◌∙◌, true, false, arith, ◌==◌}
use os_edf.Prelude.Int.{ℤ, pos, negsuc, ◌-ℤ◌, lez}
use os_edf.Prelude.Run.{Ends, ends, Ends-bind}
use os_edf.Kernel.{Proc, Procs, modify}
use os_edf.Sched.{SchedClass}
use os_edf.Process.{System, alloc_proc}
use os_edf.Process.Pids.{max_process}
use os_edf.Process.Fork.{Resources, new_child, fork_body, do_fork}

-- What remains of the refused fork: the process set is as it was.
pub record Refused (t : ℕ) (s : System) (r : System × ℤ) : Type 0 where
  pub no_memory : r.1 ≡ negsuc 3
  pub listed : (r.0.proc_list ≡ s.proc_list) × (r.0.nr_process ≡ s.nr_process)
  pub numbered : (r.0.pids ≡ s.pids) × (r.0.hash_list ≡ s.hash_list)
  pub slice : (r.0.kernel.procs s.kernel.current).time_slice ≡ pos (t - t / 2)

-- Of the writes to the child and the parent only the one to the parent's time slice counts.
shared :
    (ps : Procs) (p c : ℕ) (f g : Proc → Proc) (v : ℤ → ℤ) (e : Proc → Proc)
    → p ≢ c
    → (modify
        (modify (modify (modify ps p f) p g) c (λ q. record q { time_slice = v q.time_slice }))
        p
        e
        c).time_slice
      ≡ v (ps c).time_slice
shared ps p c f g v e apart = ground arith

halved : (t : ℕ) → (pos t -ℤ pos (t / 2)) ≡ pos (t - t / 2)
unfolding ◌-ℤ◌
halved t = ground arith

new_child-Shared :
    (fields : Proc → Proc) (t p : ℕ) (s : System)
    → p ≢ s.kernel.current
    → (s.kernel.procs s.kernel.current).wait_state ≡ 0
    → (s.kernel.procs s.kernel.current).time_slice ≡ pos t
    → Ends (λ s₁. Refused t s (s₁, negsuc 3)) (new_child fields p s)
unfolding new_child
new_child-Shared fields t p s apart awake slice =
    let off : (p == s.kernel.current) ≡ false = ground arith in
    let sane : lez (pos 0) (pos t) ≡ true = ground arith in
    let half : ((s.kernel.procs s.kernel.current).time_slice -ℤ pos (t / 2)) ≡ pos (t - t / 2) =
      rw slice (halved t) in
    let child : Proc → Proc =
      λ q. record (alloc_proc (s.kernel.procs p)) { parent = s.kernel.current } in
    let kept =
      shared s.kernel.procs p s.kernel.current child (λ q. record q { time_slice = pos (t / 2) })
        (λ x. x -ℤ pos (t / 2)) fields apart in
    rw off rw (awake, slice) rw sane
      (ends (record {
        no_memory = refl;
        listed = (refl, refl);
        numbered = (refl, refl);
        slice = kept ∙ half;
      }))

-- If there is room for a process and memory for its structure, but none for its stack, and the
-- current process waits for nothing and has the time slice t: do_fork returns -E_NO_MEM with the
-- process list, count, pids and hash table as they were, and the current process is left with t
-- - t / 2, its child's half being lost.
pub do_fork-Refused :
    (cls : SchedClass) (clone_flags t : ℕ) (r : Resources) (s : System)
    → lez (pos max_process) s.nr_process ≡ false
    → r.proc ≢ 0
    → r.proc ≢ s.kernel.current
    → r.kstack ≡ 0
    → (s.kernel.procs s.kernel.current).wait_state ≡ 0
    → (s.kernel.procs s.kernel.current).time_slice ≡ pos t
    → Ends (Refused t s) (do_fork cls clone_flags r s)
unfolding do_fork fork_body
do_fork-Refused cls clone_flags t r s room real apart none awake slice =
    let first : (r.proc == 0) ≡ false = ground arith in
    rw room rw first (
      Ends-bind (new_child-Shared _ t r.proc s apart awake slice)
        λ s₁ v. let stack : (r.kstack == 0) ≡ true = ground arith in rw stack (ends v))
