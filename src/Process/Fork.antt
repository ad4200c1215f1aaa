-- ===== src/Process/Fork.antt =====
-- do_fork, do_forkRT, do_kill and do_yield of kern/process/proc.c, over a scheduling class.
pub mod Publish
pub mod Refused
pub mod Edf
mod Tests
use os_edf.Prelude.{
  ℕ, zero, suc, ◌+◌, ◌-◌, ◌*◌, ◌/◌, ◌%◌, ◌^◌, Bool, true, false, not, ◌&&◌, List, [], ◌∷◌, Option,
  none, some, ◌==◌, if◌then◌else◌,
}
use os_edf.Prelude.Int.{ℤ, pos, negsuc, pos_part, ◌-ℤ◌, ltz, lez}
use os_edf.Prelude.Run.{Run, ok, assert, ◌>>=◌, ◌>>◌}
use os_edf.Kernel.{Kernel, Proc, put_proc, is_interruptible}
use os_edf.Sched.{SchedClass, wakeup_proc}
use os_edf.Links.{list_init, list_add_before}
use os_edf.Process.{System, alloc_proc, set_links, hash_proc, find_proc, pids_of}
use os_edf.Process.Pids.{PidState, max_process, max_pid, get_pid}

abbrev pub clone_vm : ℕ
clone_vm = 0x100

abbrev pub clone_thread : ℕ
clone_thread = 0x200

-- flags & bit, for a bit that is a power of 2
abbrev pub flag_set : ℕ → ℕ → Bool
flag_set flags bit = (flags / bit) % 2 == 1

-- What kmalloc, alloc_pages and mm_create with what follows it give to a fork: an address, or 0.
pub record Resources : Type 0 where
  pub proc : ℕ
  pub kstack : ℕ
  pub new_mm : ℕ

-- The mm of the child, or nothing where there is no memory.
pub copy_mm : ℕ → Resources → Proc → Option ℕ
copy_mm clone_flags r current =
    if current.mm == 0
    then some 0
    else (if flag_set clone_flags clone_vm
        then some current.mm
        else (if r.new_mm == 0 then none else some r.new_mm))

-- do_fork and do_forkRT differ in what they write to the child's fields of the deadlines.
abbrev pub fork_fields : Proc → Proc
fork_fields q = record q { is_rt = false; pt = pos 7000 }

abbrev pub fork_rt_fields : ℤ → ℤ → Proc → Proc
fork_rt_fields ct pt q = record q {
  is_rt = true;
  compute_time = ct;
  period_time = pt;
  ct = pos 0;
  pt = pt;
}

-- From `proc->parent = current` to the fields of the deadlines: the two share the time slice.
pub new_child : (Proc → Proc) → ℕ → System → Run System
unfolding alloc_proc
new_child fields p s = do
  let k = s.kernel
  let child = record (alloc_proc (k.procs p)) { parent = k.current }
  let k₁ = put_proc k p (λ q. child)
  assert ((k₁.procs k.current).wait_state == 0)
  assert (lez (pos 0) (k₁.procs k.current).time_slice)
  let half = pos (pos_part (k₁.procs k.current).time_slice / 2)
  let k₂ = put_proc k₁ p (λ q. record q { time_slice = half })
  let k₃ = put_proc k₂ k.current (λ q. record q { time_slice = q.time_slice -ℤ half })
  ok (record s { kernel = put_proc k₃ p fields; groups = list_init p s.groups })

-- The part with interrupts off: the pid, the hash table, the links and the thread group.
pub publish : ℕ → ℕ → System → Run System
publish clone_flags p s = do
  st ← get_pid max_pid (pids_of s) s.pids
  let s₁ = record s {
    pids = st;
    kernel = put_proc s.kernel p (λ q. record q { pid = pos st.last_pid });
  }
  let s₂ = set_links p (hash_proc p s₁)
  ok (
      if flag_set clone_flags clone_thread
      then record s₂ { groups = list_add_before s₂.kernel.current p s₂.groups }
      else s₂)

module _ (cls : SchedClass) where
  -- It returns the system and the result; an error is its negated code.
  pub fork_body : (Proc → Proc) → ℕ → Resources → System → Run (System × ℤ)
  unfolding copy_mm publish
  fork_body fields clone_flags r s =
      if lez (pos max_process) s.nr_process
      then ok (s, negsuc 4)
      else (if r.proc == 0 then ok (s, negsuc 3) else (do
        s₁ ← new_child fields r.proc s
        let no_memory : Run (System × ℤ) = ok (s₁, negsuc 3)
        let k = put_proc s₁.kernel r.proc (λ q. record q { kstack = r.kstack })
        let go_on : ℕ → Run (System × ℤ) = λ mm. do
          s₂ ←
              publish clone_flags r.proc
                (record s₁ { kernel = put_proc k r.proc (λ q. record q { mm = mm }) })
          k' ← wakeup_proc cls r.proc s₂.kernel
          ok (record s₂ { kernel = k' }, (k'.procs r.proc).pid)
        let copied : Run (System × ℤ) = elim (copy_mm clone_flags r (k.procs k.current)) [
          | none ↦ ok (record s₁ { kernel = k }, negsuc 3)
          | some mm ↦ go_on mm
        ]
        if r.kstack == 0 then no_memory else copied))

  pub do_fork : ℕ → Resources → System → Run (System × ℤ)
  do_fork clone_flags r s = fork_body fork_fields clone_flags r s

  pub do_fork_rt : ℕ → Resources → ℤ → ℤ → System → Run (System × ℤ)
  do_fork_rt clone_flags r ct pt s = fork_body (fork_rt_fields ct pt) clone_flags r s

  -- __do_kill; PF_EXITING is the lowest bit.
  pub kill_proc : ℕ → ℤ → Kernel → Run (Kernel × ℤ)
  kill_proc p error_code k =
      let k₁ = put_proc k p (λ q. record q { flags = q.flags + 1; exit_code = error_code }) in
      let woken : Run (Kernel × ℤ) = do k' ← wakeup_proc cls p k₁; ok (k', pos 0)
      in if not (flag_set (k.procs p).flags 1)
        then (if is_interruptible (k₁.procs p).wait_state then woken else ok (k₁, pos 0))
        else ok (k, negsuc 8)

  pub do_kill : ℤ → ℤ → System → Run (System × ℤ)
  unfolding kill_proc
  do_kill pid error_code s =
      let p = find_proc pid s in
      let found : Run (System × ℤ) = do
        (k, ret) ← kill_proc p error_code s.kernel
        ok (record s { kernel = k }, ret)
      in if not (p == 0) then found else ok (s, negsuc 2)

  pub do_yield : Kernel → Kernel
  do_yield k = put_proc k k.current (λ q. record q { need_resched = true })
