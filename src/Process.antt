-- ===== src/Process.antt =====
-- kern/process/proc.c and proc.h, and libs/hash.c: the set of the processes and their family.
-- proc_list and a bucket of hash_list are the sequences of their processes from the head on; the
-- rings of the thread groups keep their links. Trap frames, contexts, names and page directories
-- are not in the model.
pub mod Pids
pub mod Family
pub mod Fork
pub mod Exit
use os_edf.Prelude.{
  ℕ, zero, suc, ◌+◌, ◌-◌, ◌*◌, ◌/◌, ◌%◌, ◌^◌, Bool, true, false, not, ◌&&◌, List, [], ◌∷◌, map, ltb,
  ◌==◌, if◌then◌else◌,
}
use os_edf.Prelude.Int.{ℤ, pos, negsuc, ◌+ℤ◌, ◌-ℤ◌, ltz, eqz}
use os_edf.Kernel.{Kernel, Proc, Procs, ProcState, uninit, modify, put_procs, put_proc}
use os_edf.Links.{Links}
use os_edf.Process.Pids.{PidState, max_pid}

pub record System : Type 0 where
  pub kernel : Kernel
  pub proc_list : List ℕ
  pub nr_process : ℤ
  pub pids : PidState
  pub hash_list : ℕ → List ℕ
  pub groups : Links

-- libs/hash.c; for bits up to 32
pub hash32 : ℕ → ℕ → ℕ
hash32 val bits = ((val * 0x9e370001) % 2 ^ 32) / 2 ^ (32 - bits)

-- The conversion of int to uint32_t
abbrev pub u32_of : ℤ → ℕ
u32_of (pos n) = n % 2 ^ 32
u32_of (negsuc n) = 2 ^ 32 - 1 - n % 2 ^ 32

pub pid_hashfn : ℤ → ℕ
unfolding hash32
pid_hashfn pid = hash32 (u32_of pid) 10

-- The fields that alloc_proc sets in fresh memory; those of the deadlines and exit_code stay.
pub alloc_proc : Proc → Proc
alloc_proc q = record q {
  state = uninit;
  pid = negsuc 0;
  runs = pos 0;
  kstack = 0;
  need_resched = false;
  parent = 0;
  mm = 0;
  flags = 0;
  wait_state = 0;
  cptr = 0;
  optr = 0;
  yptr = 0;
  rq = 0;
  time_slice = pos 0;
}

-- `if (p != NULL) …` around a write to what p points to
abbrev pub modify_if : Procs → ℕ → (Proc → Proc) → Procs
modify_if ps p f = if not (p == 0) then modify ps p f else ps

-- The pointers of set_links: the process becomes its parent's youngest child.
pub set_family : ℕ → Procs → Procs
set_family p ps =
    let parent = (ps p).parent in
    let older = (ps parent).cptr in
    let ps₁ = modify ps p (λ q. record q { yptr = 0; optr = older }) in
    modify (modify_if ps₁ older (λ q. record q { yptr = p })) parent (λ q. record q { cptr = p })

pub set_links : ℕ → System → System
unfolding set_family
set_links p s = record s {
  proc_list = p ∷ s.proc_list;
  kernel = put_procs s.kernel (set_family p s.kernel.procs);
  nr_process = s.nr_process +ℤ pos 1;
}

-- The pointers of remove_links
pub remove_family : ℕ → Procs → Procs
remove_family p ps =
    let older = (ps p).optr in
    let ps₁ = modify_if ps older (λ q. record q { yptr = (ps p).yptr }) in
    let younger = (ps₁ p).yptr in
    if not (younger == 0)
    then modify ps₁ younger (λ q. record q { optr = (ps₁ p).optr })
    else modify ps₁ (ps₁ p).parent (λ q. record q { cptr = (ps₁ p).optr })

-- list_del of a process in a list
pub remove : ℕ → List ℕ → List ℕ
remove p [] = []
remove p (x ∷ xs) = let rest = remove p xs in if x == p then xs else x ∷ rest

pub remove_links : ℕ → System → System
unfolding remove_family remove
remove_links p s = record s {
  proc_list = remove p s.proc_list;
  kernel = put_procs s.kernel (remove_family p s.kernel.procs);
  nr_process = s.nr_process -ℤ pos 1;
}

pub hash_proc : ℕ → System → System
unfolding pid_hashfn
hash_proc p s =
    let bucket = pid_hashfn (s.kernel.procs p).pid in
    record s { hash_list = λ i. if bucket == i then p ∷ s.hash_list i else s.hash_list i }

-- The entry is in one bucket; taking it out of every list finds it there.
pub unhash_proc : ℕ → System → System
unfolding remove
unhash_proc p s = record s { hash_list = λ i. remove p (s.hash_list i) }

pub find_in : Procs → ℤ → List ℕ → ℕ
find_in ps pid [] = 0
find_in ps pid (p ∷ l) = if eqz (ps p).pid pid then p else find_in ps pid l

pub find_proc : ℤ → System → ℕ
unfolding find_in pid_hashfn
find_proc pid s =
    if ltz (pos 0) pid && ltz pid (pos max_pid)
    then find_in s.kernel.procs pid (s.hash_list (pid_hashfn pid))
    else 0

-- The pids along proc_list
abbrev pub pids_of : System → List ℤ
pids_of s = map (λ p. (s.kernel.procs p).pid) s.proc_list
