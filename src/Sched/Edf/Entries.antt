-- ===== src/Sched/Edf/Entries.antt =====
-- The heap's entries and the processes that they stand for.
use mathlib.Core.Logic.Or
use mathlib.Core.List.{Nodup, Nodup-cons, mem-cons, mem-map_of_mem}
use mathlib.Core.List.Perm
use os_edf.Prelude.{ℕ, ◌≡◌, ◌≢◌, List, ◌∷◌, map, Mem, Perm, ◌∙◌}
use os_edf.Prelude.Int.{ℤ}
use os_edf.Heap.{Entry}
use os_edf.Kernel.{Procs}

pub ℤ-set : IsSet ℤ
ℤ-set = hlevel

abbrev pub procs_of : List Entry → List ℕ
procs_of = map (λ e. e.proc)

-- Each entry has the deadline of its process.
abbrev pub Synced : Procs → List Entry → Type 0
Synced ps es = (e : Entry) → Mem e es → (ps e.proc).pt ≡ e.x

pub Synced-perm : (ps : Procs) {xs ys : List Entry} → Perm xs ys → Synced ps ys → Synced ps xs
Synced-perm ps p s e m = s e ((Perm.mem_iff p).0 m)

pub Synced-cons :
    (ps : Procs) (xs : List Entry) (e : Entry)
    → (ps e.proc).pt ≡ e.x
    → Synced ps xs
    → Synced ps (e ∷ xs)
Synced-cons ps xs e h s f m = Or.elim (ℤ-set _ _) (mem-cons.0 m) (λ e'. rw e' h) (s f)

pub Synced-agree :
    (ps qs : Procs) (xs : List Entry)
    → ((p : ℕ) → Mem p (procs_of xs) → (qs p).pt ≡ (ps p).pt)
    → Synced ps xs
    → Synced qs xs
Synced-agree ps qs xs h s e m = h e.proc (mem-map_of_mem _ m) ∙ s e m

-- A process that stands behind its own entry stands behind no other.
pub ne-of-mem : {p : ℕ} {l : List ℕ} (q : ℕ) → Nodup (p ∷ l) → Mem q l → p ≢ q
ne-of-mem q d m e = (Nodup-cons.0 d).0 (rw e m)
