-- ===== src/Process/Family/Tests.antt =====
-- The theorems on the family at process 5 with the children 2 and 1, and a new process 3.
use os_edf.Prelude.{ℕ, refl, [], ◌∷◌, arith, ◌==◌, if◌then◌else◌}
use os_edf.Prelude.Int.{pos}
use os_edf.Kernel.{Proc, Procs, runnable}
use os_edf.Sched.Samples.{proc_with}
use os_edf.Process.{remove_family}
use os_edf.Process.Family.{Children}
use os_edf.Process.Family.Leave.{remove_family-Children}

abbrev member_with : ℕ → ℕ → ℕ → ℕ → Proc
member_with parent cptr yptr optr = record (proc_with runnable (pos 9)) {
  parent = parent;
  cptr = cptr;
  yptr = yptr;
  optr = optr;
}

abbrev family : Procs
family q =
    if q == 5
    then member_with 0 2 0 0
    else if q == 2
    then member_with 5 0 0 1
    else if q == 1
    then member_with 5 0 2 0
    else member_with 5 0 0 0

family-Children : Children family 5 (2 ∷ 1 ∷ [])
family-Children =
    ((refl, omega arith, refl, (refl, omega arith, refl, refl)), ((omega arith, tt), (tt, tt)))

remove_family-Children_example : Children (remove_family 1 family) 5 (2 ∷ [])
remove_family-Children_example = remove_family-Children family 1 (2 ∷ []) [] family-Children
