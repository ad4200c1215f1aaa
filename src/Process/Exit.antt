-- ===== src/Process/Exit.antt =====
-- do_exit, do_wait and do_sleep of kern/process/proc.c, over a scheduling class. The memory that an exit or a
-- wait gives back is not in the model, nor is the write to the user's code_store. The loops along a
-- ring of threads or a chain of children run on fuel. What follows schedule() in the code runs when
-- the process is chosen again, so the functions here end with it.
pub mod Adopt
mod Tests
use os_edf.Prelude.{
  ℕ, zero, suc, ◌+◌, Bool, true, false, not, ◌&&◌, ◌||◌, Option, none, some, ◌==◌, if◌then◌else◌,
}
use os_edf.Prelude.Int.{ℤ, pos, negsuc, eqz}
use os_edf.Prelude.Run.{Run, ok, panic, out_of_fuel, ◌>>=◌}
use os_edf.Kernel.{
  Kernel, Proc, Procs, ProcState, sleeping, Timer, zombie, is_zombie, modify, put_procs, put_proc,
  wt_child, wt_timer,
}
use os_edf.Sched.{SchedClass, wakeup_proc, schedule, add_timer, del_timer}
use os_edf.Links.{Links, list_empty, list_del_init}
use os_edf.Process.{System, set_family, unhash_proc, remove_links, find_proc}
use os_edf.Process.Fork.{kill_proc}

-- A thread group is a ring of processes.
abbrev pub next_thread : ℕ → System → ℕ
next_thread p s = s.groups.next p

pub de_thread : ℕ → System → System
de_thread p s =
    if not (list_empty p s.groups) then record s { groups = list_del_init p s.groups } else s

-- One round of the loop over the children: the first child p of current goes to the parent. Its
-- parent is written first here, which the writes that link it do not read.
pub adopt : ℕ → ℕ → ℕ → Procs → Procs
unfolding set_family
adopt current parent p ps =
    let ps₁ = modify ps current (λ q. record q { cptr = (ps p).optr }) in
    set_family p (modify ps₁ p (λ q. record q { parent = parent }))

-- How a pass of do_wait ends: with a zombie to reap, with children none of which is one, or without
pub data Waited : Type 0 where
  found : ℕ → Waited
  haskid : Waited
  nobody : Waited

-- The chain of children from the pointer c on, with what is known so far
pub scan_children : ℕ → Procs → ℕ → Waited → Run Waited
scan_children zero ps c kids = out_of_fuel
scan_children (suc fuel) ps c kids =
    let rest = scan_children fuel ps (ps c).optr haskid in
    if c == 0 then ok kids else (if is_zombie (ps c).state then ok (found c) else rest)

-- The children of the threads from cproc on
pub scan_threads : ℕ → ℕ → Waited → System → Run Waited
unfolding scan_children
scan_threads zero cproc kids s = out_of_fuel
scan_threads (suc fuel) cproc kids s = do
  w ← scan_children (suc fuel) s.kernel.procs (s.kernel.procs cproc).cptr kids
  let next = next_thread cproc s
  let rest : Waited → Run Waited = λ k. scan_threads fuel next k s
  elim w [
    | found p ↦ ok (found p)
    | haskid ↦ if next == s.kernel.current then ok haskid else rest haskid
    | nobody ↦ if next == s.kernel.current then ok nobody else rest nobody
  ]

-- Whether a thread from cproc on is the parent of the process p
pub scan_parent : ℕ → ℕ → ℕ → System → Run Waited
scan_parent zero cproc p s = out_of_fuel
scan_parent (suc fuel) cproc p s =
    let next = next_thread cproc s in
    let rest = scan_parent fuel next p s in
    let q = s.kernel.procs p in
    if q.parent == cproc
    then ok (if is_zombie q.state then found p else haskid)
    else (if next == s.kernel.current then ok nobody else rest)

-- From repeat to found
pub wait_pass : ℕ → ℤ → System → Run Waited
unfolding scan_threads scan_parent
wait_pass fuel pid s =
    let p = find_proc pid s in
    if eqz pid (pos 0)
    then scan_threads fuel s.kernel.current nobody s
    else (if p == 0 then ok nobody else scan_parent fuel s.kernel.current p s)

-- From found on: the system without the process, and its exit code
pub reap : ℕ → System → Run (System × ℤ)
reap p s =
    if (p == s.kernel.idleproc) || (p == s.kernel.initproc)
    then panic
    else ok (remove_links p (unhash_proc p s), (s.kernel.procs p).exit_code)

module _ (cls : SchedClass) where
  -- The threads of the parent that wait for a child wake up, from p on until `parent` comes again.
  pub wake_parents : ℕ → ℕ → ℕ → System → Run System
  wake_parents zero parent p s = out_of_fuel
  wake_parents (suc fuel) parent p s = do
    k ←
        if (s.kernel.procs p).wait_state == wt_child
        then wakeup_proc cls p s.kernel
        else ok s.kernel
    let s' = record s { kernel = k }
    let next = next_thread p s'
    let rest : Run System = wake_parents fuel parent next s'
    if next == parent then ok s' else rest

  -- while (current->cptr != NULL)
  pub adopt_loop : ℕ → ℕ → Kernel → Run Kernel
  unfolding adopt
  adopt_loop zero parent k = if (k.procs k.current).cptr == 0 then ok k else out_of_fuel
  adopt_loop (suc fuel) parent k =
      let p = (k.procs k.current).cptr in
      let k₁ = put_procs k (adopt k.current parent p k.procs) in
      let wakes = is_zombie (k₁.procs p).state && ((k₁.procs parent).wait_state == wt_child) in
      let body : Run Kernel = do
        k₂ ← if wakes then wakeup_proc cls parent k₁ else ok k₁
        adopt_loop fuel parent k₂
      in if p == 0 then ok k else body

  -- __do_exit
  pub exit_current : ℕ → System → Run System
  unfolding wake_parents adopt_loop de_thread
  exit_current fuel s =
      let me = s.kernel.current in
      let k = put_proc s.kernel me (λ q. record q { mm = 0; state = zombie }) in
      let parent = (k.procs me).parent in
      let body : Run System = do
        s₁ ← wake_parents fuel parent parent (record s { kernel = k })
        let next = next_thread me s₁
        let s₂ = de_thread me s₁
        k₃ ← adopt_loop fuel (if next == me then s₂.kernel.initproc else next) s₂.kernel
        k₄ ← schedule cls k₃
        ok (record s₂ { kernel = k₄ })
      in if (me == s.kernel.idleproc) || (me == s.kernel.initproc) then panic else body

  pub do_exit_thread : ℕ → ℤ → System → Run System
  unfolding exit_current
  do_exit_thread fuel error_code s = exit_current fuel (record s {
    kernel = put_proc s.kernel s.kernel.current (λ q. record q { exit_code = error_code });
  })

  -- The other threads of the group, from p on, are killed.
  pub kill_threads : ℕ → ℕ → ℤ → System → Run System
  kill_threads zero p error_code s = out_of_fuel
  kill_threads (suc fuel) p error_code s =
      let body : Run System = do
        (k, ret) ← kill_proc cls p error_code s.kernel
        let s' = record s { kernel = k }
        kill_threads fuel (next_thread p s') error_code s'
      in if p == s.kernel.current then ok s else body

  pub do_exit : ℕ → ℤ → System → Run System
  unfolding kill_threads do_exit_thread
  do_exit fuel error_code s = do
    s' ← kill_threads fuel (next_thread s.kernel.current s) error_code s
    do_exit_thread fuel error_code s'

  -- The process goes to sleep until a child exits.
  pub wait_for_child : System → Run System
  wait_for_child s = do
    k ← schedule cls (
        put_proc s.kernel s.kernel.current
          (λ q. record q { state = sleeping; wait_state = wt_child }))
    ok (record s { kernel = k })

  -- do_wait up to its result, or up to schedule(); there is no result in the second case.
  pub do_wait : ℕ → ℤ → System → Run (System × Option (ℤ × ℤ))
  unfolding wait_pass reap wait_for_child
  do_wait fuel pid s = do
    w ← wait_pass fuel pid s
    elim w [
      | found p ↦ do (s', exit_code) ← reap p s; ok (s', some (pos 0, exit_code))
      | haskid ↦ do s' ← wait_for_child s; ok (s', none)
      | nobody ↦ ok (s, some (negsuc 1, pos 0))
    ]

  -- do_sleep up to schedule(), with the timer at an address on the stack; del_timer comes behind it.
  pub do_sleep : ℕ → ℕ → Kernel → Run Kernel
  do_sleep timer time k =
      let me = k.current in
      let asleep = put_proc k me (λ q. record q { state = sleeping; wait_state = wt_timer }) in
      let body : Run Kernel = do
        k₁ ← add_timer (record { id = timer; expires = time; proc = me }) asleep
        schedule cls k₁
      in if time == 0 then ok k else body

  -- The rest of do_sleep, when the process runs again
  pub end_sleep : ℕ → Kernel → Kernel
  end_sleep timer k = del_timer timer k
