-- ===== src/Kernel.antt =====
-- kern/process/proc.h and the globals of kern/schedule: the process table and the state that the
-- scheduler keeps. A pointer is a number, 0 for NULL. Fields that no modelled code reads (context,
-- trap frame, name) are left out; the links of a list are the list's own, in the global that heads it.
use os_edf.Prelude.{ℕ, ◌-◌, ◌/◌, ◌%◌, ◌^◌, Bool, true, false, List, ◌==◌, if◌then◌else◌}
use os_edf.Prelude.Int.{ℤ}
use os_edf.Heap.{Heap}

pub data ProcState : Type 0 where
  uninit sleeping runnable zombie : ProcState

pub record Proc : Type 0 where
  pub state : ProcState
  pub pid : ℤ
  pub runs : ℤ
  pub kstack : ℕ
  pub need_resched : Bool
  pub parent : ℕ
  pub mm : ℕ
  pub flags : ℕ
  pub exit_code : ℤ
  pub wait_state : ℕ
  pub cptr : ℕ
  pub yptr : ℕ
  pub optr : ℕ
  pub rq : ℕ
  pub time_slice : ℤ
  pub is_rt : Bool
  pub compute_time : ℤ
  pub period_time : ℤ
  pub ct : ℤ
  pub pt : ℤ

abbrev pub is_runnable : ProcState → Bool
is_runnable runnable = true
is_runnable s = false

abbrev pub is_zombie : ProcState → Bool
is_zombie zombie = true
is_zombie s = false

abbrev pub Procs : Type 0
Procs = ℕ → Proc

-- Writes to the process that `p` points to.
abbrev pub modify : Procs → ℕ → (Proc → Proc) → Procs
modify procs p f q = if p == q then f (procs q) else procs q

abbrev pub u32_mod : ℕ
u32_mod = 2 ^ 32

-- WT_INTERRUPTED is the top bit of a wait state.
abbrev pub wt_interrupted : ℕ
wt_interrupted = 0x80000000

abbrev pub wt_child : ℕ
wt_child = 0x80000001

abbrev pub wt_timer : ℕ
wt_timer = 0x80000002

-- wait_state & WT_INTERRUPTED
abbrev pub is_interruptible : ℕ → Bool
is_interruptible wait_state = (wait_state / 2 ^ 31) % 2 == 1

-- struct run_queue; `run_list` holds the processes from the head on.
pub record RunQueue : Type 0 where
  pub run_list : List ℕ
  pub proc_num : ℕ
  pub max_time_slice : ℤ

-- timer_t with its address; `expires` counts from the timer before it in the list.
pub record Timer : Type 0 where
  pub id : ℕ
  pub expires : ℕ
  pub proc : ℕ

-- `rqs` is the array __rq, whose cell i has the address i + 1.
pub record Kernel : Type 0 where
  pub procs : Procs
  pub current : ℕ
  pub idleproc : ℕ
  pub initproc : ℕ
  pub rqs : ℕ → RunQueue
  pub heap : Heap
  pub timer_list : List Timer

abbrev pub put_procs : Kernel → Procs → Kernel
put_procs k ps = record k { procs = ps }

abbrev pub put_proc : Kernel → ℕ → (Proc → Proc) → Kernel
put_proc k p f = record k { procs = modify k.procs p f }

-- The static `rq` of sched.c points to __rq[0].
abbrev pub main_rq : ℕ
main_rq = 1

-- The run queue at an address, and a write to it.
abbrev pub rq_at : Kernel → ℕ → RunQueue
rq_at k rq = k.rqs (rq - 1)

abbrev pub put_rq : Kernel → ℕ → (RunQueue → RunQueue) → Kernel
put_rq k rq f = record k { rqs = λ i. if (rq - 1) == i then f (k.rqs i) else k.rqs i }
