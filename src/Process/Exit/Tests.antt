-- ===== src/Process/Exit/Tests.antt =====
-- The theorem on a process 5 that exits with the children 2 and 1, while process 9 has none.
use os_edf.Prelude.{ℕ, ◌≡◌, refl, [], ◌∷◌, arith, ◌==◌, if◌then◌else◌}
use os_edf.Prelude.Int.{pos}
use os_edf.Kernel.{Proc, Procs, runnable}
use os_edf.Sched.Samples.{proc_with}
use os_edf.Process.Family.{Children}
use os_edf.Process.Exit.{adopt}
use os_edf.Process.Exit.Adopt.{Kids, adopt-Children}

abbrev member_with : ℕ → ℕ → ℕ → ℕ → Proc
member_with parent cptr yptr optr = record (proc_with runnable (pos 9)) {
  parent = parent;
  cptr = cptr;
  yptr = yptr;
  optr = optr;
}

abbrev family : Procs
family q =
    if q == 5
    then member_with 9 2 0 0
    else (if q == 2
        then member_with 5 0 0 1
        else (if q == 1 then member_with 5 0 2 0 else member_with 0 0 0 0))

adopt-Children_example :
    Kids (adopt 5 9 2 family) (adopt 5 9 2 family 5).cptr (1 ∷ [])
    × Children (adopt 5 9 2 family) 9 (2 ∷ [])
    × ((adopt 5 9 2 family 2).parent ≡ 9)
adopt-Children_example =
    adopt-Children 5 9 2 family (1 ∷ []) [] (omega arith) (omega arith) (omega arith, tt) tt
      (refl, omega arith, (refl, omega arith, refl)) (refl, tt)
