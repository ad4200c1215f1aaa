-- ===== src/Process/Pids/Scan.antt =====
-- One walk along the process list: the interval that it leaves is free, or it makes progress.
use os_edf.Prelude.{
  ℕ, suc, ◌+◌, ◌-◌, ◌≤◌, ◌<◌, ◌≡◌, ◌⊎◌, inl, inr, List, [], ◌∷◌, false, arith, leb, not, ◌&&◌,
  if◌then◌else◌, Bool-cases,
}
use os_edf.Prelude.Int.{ℤ, pos, negsuc, ◌≤ℤ◌, ◌<ℤ◌, ltz, eqz}
use os_edf.Process.Pids.{Walk, finished, again, walk, max_pid}

-- No process has a pid from l on and below s.
abbrev pub Outside : ℕ → ℕ → List ℤ → Type 0
Outside l s [] = Unit
Outside l s (pid ∷ pids) = ((pid <ℤ pos l) ⊎ (pos s ≤ℤ pid)) × Outside l s pids

abbrev pub Free : ℕ → List ℤ → Type 0
Free f pids = Outside f (suc f) pids

pub Outside-narrow :
    (pids : List ℤ) (l s l' s' : ℕ) → l ≤ l' → s' ≤ s → Outside l s pids → Outside l' s' pids
Outside-narrow [] l s l' s' h g o = tt
Outside-narrow (pid ∷ pids) l s l' s' h g o = (omega arith, Outside-narrow pids l s l' s' h g o.1)

-- How many steps last_pid is before f, round the circle from 1 to MAX_PID - 1.
abbrev pub distance : ℕ → ℕ → ℕ
distance f l = if leb l f then f - l else max_pid + f - l

abbrev pub Walked : ℕ → List ℤ → ℕ → ℕ → Walk → Type 0
Walked f pids l s (finished l' s') = (l ≤ l') × (l' < s') × (s' ≤ s) × Outside l' s' pids
Walked f pids l s (again l') = (distance f l' < distance f l) × (1 ≤ l') × (l' < max_pid)

-- A walk that went on with a smaller interval, outside of which stands the pid before it.
Walked-more :
    (f : ℕ) (pid : ℤ) (pids : List ℤ) (l s l' s' : ℕ) (w : Walk)
    → l ≤ l'
    → s' ≤ s
    → distance f l' ≤ distance f l
    → (pid <ℤ pos l') ⊎ (pos s' ≤ℤ pid)
    → Walked f pids l' s' w
    → Walked f (pid ∷ pids) l s w
Walked-more f pid pids l s l' s' (finished l'' s'') h g d o w =
    (omega arith, w.1, omega arith, (omega arith, w.3))
Walked-more f pid pids l s l' s' (again l'') h g d o w = (omega arith, w.1, w.2)

pub walk-Walked :
    (f : ℕ) (pids : List ℤ) (l s : ℕ)
    → 1 ≤ f
    → f < max_pid
    → Free f pids
    → 1 ≤ l
    → l < s
    → s ≤ max_pid
    → Walked f pids l s (walk pids l s)
unfolding walk
walk-Walked f [] l s h g free p q r = (omega arith, q, omega arith, tt)
walk-Walked f (pos n ∷ pids) l s h g free p q r =
    elim (Bool-cases (eqz (pos n) (pos l) && leb s (l + 1))) [
      | inl full ↦ rw full (ground arith)
      | inr room ↦
          let l' = if eqz (pos n) (pos l) then l + 1 else l in
          let s' =
            if not (eqz (pos n) (pos l)) && (ltz (pos l) (pos n) && ltz (pos n) (pos s))
            then n
            else s in
          let low : (l ≤ l') × (distance f l' ≤ distance f l) = (ground arith, ground arith) in
          let high : (l' < s') × (s' ≤ s) = (ground arith, ground arith) in
          let apart : (pos n <ℤ pos l') ⊎ (pos s' ≤ℤ pos n) = ground arith in
          rw room (
            Walked-more f (pos n) pids l s l' s' (walk pids l' s') low.0 high.1 low.1 apart
              (walk-Walked f pids l' s' h g free.1 (omega arith) high.0 (omega arith)))
    ]
walk-Walked f (negsuc n ∷ pids) l s h g free p q r =
    let rest = walk-Walked f pids l s h g free.1 p q r in
    let other : eqz (negsuc n) (pos l) ≡ false = ground arith in
    let below : ltz (pos l) (negsuc n) ≡ false = ground arith in
    rw other rw below (
      Walked-more f (negsuc n) pids l s l s (walk pids l s) (omega arith) (omega arith)
        (omega arith) (omega arith) rest)
