-- ===== src/Process/Pids/Pigeonhole.antt =====
-- With fewer processes than pids some pid is free.
use os_edf.Prelude.{
  ℕ, zero, suc, ◌≤◌, ◌<◌, ◌≡◌, inl, inr, List, [], ◌∷◌, Bool, true, false, arith, if◌then◌else◌,
  Bool-cases, length, subst,
}
use os_edf.Prelude.Int.{ℤ, pos, eqz}
use os_edf.Process.Pids.{max_pid, max_process}
use os_edf.Process.Pids.Scan.{Free}

remove_all : ℕ → List ℤ → List ℤ
remove_all n [] = []
remove_all n (pid ∷ pids) =
    let rest = remove_all n pids in if eqz pid (pos n) then rest else pid ∷ rest

has_pid : ℕ → List ℤ → Bool
has_pid n [] = false
has_pid n (pid ∷ pids) = if eqz pid (pos n) then true else has_pid n pids

length-remove_all : (n : ℕ) (pids : List ℤ) → length (remove_all n pids) ≤ length pids
unfolding remove_all
length-remove_all n [] = omega arith
length-remove_all n (pid ∷ pids) = ground (arith, length-remove_all n pids)

length-remove_all_less :
    (n : ℕ) (pids : List ℤ) → has_pid n pids ≡ true → length (remove_all n pids) < length pids
unfolding remove_all has_pid
length-remove_all_less n [] h = absurd (ground arith)
length-remove_all_less n (pid ∷ pids) h =
    ground (arith, length-remove_all n pids, length-remove_all_less n pids)

Free-has_pid : (n : ℕ) (pids : List ℤ) → has_pid n pids ≡ false → Free n pids
unfolding has_pid
Free-has_pid n [] h = tt
Free-has_pid n (pid ∷ pids) h = (ground arith, Free-has_pid n pids (ground arith))

Free-remove_all : (f n : ℕ) (pids : List ℤ) → f < n → Free f (remove_all n pids) → Free f pids
unfolding remove_all
Free-remove_all f n [] h free = tt
Free-remove_all f n (pid ∷ pids) h free = elim (Bool-cases (eqz pid (pos n))) [
  | inl same ↦
      let rest : Free f (remove_all n pids) =
        subst (λ b. Free f (if b then remove_all n pids else pid ∷ remove_all n pids)) same free in
      (ground arith, Free-remove_all f n pids h rest)
  | inr other ↦
      let kept : Free f (pid ∷ remove_all n pids) =
        subst (λ b. Free f (if b then remove_all n pids else pid ∷ remove_all n pids)) other free in
      (kept.0, Free-remove_all f n pids h kept.1)
]

pub pigeonhole :
    (n : ℕ) (pids : List ℤ) → length pids < n → (f : ℕ) × (1 ≤ f) × (f ≤ n) × Free f pids
pigeonhole zero pids h = absurd (omega arith)
pigeonhole (suc n) pids h = elim (Bool-cases (has_pid (suc n) pids)) [
  | inl taken ↦
      let less = length-remove_all_less (suc n) pids taken in
      let (f, low, high, free) = pigeonhole n (remove_all (suc n) pids) (omega arith) in
      (f, low, omega arith, Free-remove_all f (suc n) pids (omega arith) free)
  | inr free ↦ (suc n, omega arith, omega arith, Free-has_pid (suc n) pids free)
]

pub pigeonhole_max :
    (pids : List ℤ) → length pids ≤ max_process → (f : ℕ) × (1 ≤ f) × (f < max_pid) × Free f pids
pigeonhole_max pids h =
    let (f, low, high, free) = pigeonhole (suc max_process) pids (omega arith) in
    (f, low, omega arith, free)
