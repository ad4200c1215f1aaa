-- ===== src/Sched/Edf/Tick.antt =====
-- A tick over the heap: every waiting deadline comes one nearer, or the kernel panics.
use mathlib.Core.Logic.Or
use mathlib.Core.List.{
  Nodup, Nodup-cons, mem-cons, mem-cons_self, mem-cons_of_mem, not-mem-nil, mem-map_of_mem,
}
use os_edf.Prelude.{
  ℕ, zero, suc, ◌≤◌, ◌<◌, ◌≡◌, refl, ◌≢◌, ◌⊎◌, inl, inr, List, [], ◌∷◌, map, Mem, arith, ◌∙◌, ap,
  sym, length, take, get_or,
}
use os_edf.Prelude.Int.{pos, ◌-ℤ◌, ◌<ℤ◌, ◌≤ℤ◌}
use os_edf.Prelude.Run.{Run, ok, panic, Ends, ends, Ends-bind}
use os_edf.Heap.{Entry}
use os_edf.Heap.Cells.{key}
use os_edf.Kernel.{Proc, Procs, modify}
use os_edf.Sched.Edf.{tick_entries, check_deadline, lower}
use os_edf.Sched.Edf.Entries.{procs_of, ne-of-mem}

-- After one more tick the deadline is not over, nor reached with work left.
abbrev pub OnTime : Proc → Type 0
OnTime q = (pos 1 <ℤ q.pt) ⊎ ((q.pt ≡ pos 1) × (q.compute_time ≤ℤ q.ct))

abbrev pub Late : Proc → Type 0
Late q = (q.pt ≤ℤ pos 0) ⊎ ((q.pt ≡ pos 1) × (q.ct <ℤ q.compute_time))

pub Proc-set : IsSet Proc
Proc-set = hlevel

abbrev pub lowered : Proc → Proc
lowered q = record q { pt = lower q.pt }

abbrev pub lowered_entry : Entry → Entry
lowered_entry e = record e { x = lower e.x }

check_deadline-OnTime : (q : Proc) → OnTime q → check_deadline (lowered q) ≡ ok tt
unfolding ◌-ℤ◌
check_deadline-OnTime q h = ground arith

check_deadline-Late : (q : Proc) → Late q → check_deadline (lowered q) ≡ panic
unfolding ◌-ℤ◌
check_deadline-Late q h = ground arith

-- What the loop over the first n entries leaves.
pub record Ticked (n : ℕ) (a : List Entry) (ps : Procs) (r : List Entry × Procs) : Type 0 where
  pub entries : take n r.0 ≡ map lowered_entry (take n a)
  pub cells : length r.0 ≡ length a
  pub keys : (i : ℕ) → i < n → key r.0 i ≡ lower (key a i)
  pub waiting : (e : Entry) → Mem e (take n a) → r.1 e.proc ≡ lowered (ps e.proc)
  pub others : (p : ℕ) → ¬ Mem p (procs_of (take n a)) → r.1 p ≡ ps p

pub tick_entries-Ticked :
    (n : ℕ) (a : List Entry) (ps : Procs)
    → n ≤ length a
    → Nodup (procs_of (take n a))
    → ((e : Entry) → Mem e (take n a) → OnTime (ps e.proc))
    → Ends (Ticked n a ps) (tick_entries n a ps)
unfolding tick_entries get_or
tick_entries-Ticked zero a ps h d t = ends (record {
  entries = refl;
  cells = refl;
  keys = λ i p. absurd (omega arith);
  waiting = λ e m. absurd (not-mem-nil m);
  others = λ p m. refl;
})
tick_entries-Ticked (suc n) [] ps h d t = absurd (omega arith)
tick_entries-Ticked (suc n) (e ∷ a) ps h d t =
    let qs = modify ps e.proc lowered in
    let fresh = (Nodup-cons.0 d).0 in
    let kept : (p : ℕ) → e.proc ≢ p → qs p ≡ ps p = λ p other. ground arith in
    let here : qs e.proc ≡ lowered (ps e.proc) = ground arith in
    rw (here, check_deadline-OnTime (ps e.proc) (t e mem-cons_self))
      (Ends-bind
        (tick_entries-Ticked n a qs (omega arith) (Nodup-cons.0 d).1 (λ f m.
          rw (kept f.proc (ne-of-mem f.proc d (mem-map_of_mem _ m))) (t f (mem-cons_of_mem e m))))
        λ r u. ends (record {
          entries = ap (◌∷◌ (lowered_entry e)) u.entries;
          cells = ap suc u.cells;
          keys = elim [ zero ↦ λ p. refl | suc i ↦ λ p. u.keys i (omega arith) ];
          waiting = λ f m.
              Or.elim (Proc-set _ _) (mem-cons.0 m) (λ same. rw same (u.others e.proc fresh ∙ here))
                (λ rest.
                  u.waiting f rest
                  ∙ ap lowered (kept f.proc (ne-of-mem f.proc d (mem-map_of_mem _ rest))));
          others = λ p m.
              u.others p (λ rest. m (mem-cons_of_mem e.proc rest))
              ∙ kept p (λ same. m (mem-cons.1 (Or.inl (sym same))));
        }))

check_deadline-cases : (q : Proc) → (check_deadline q ≡ ok tt) ⊎ (check_deadline q ≡ panic)
check_deadline-cases q = ground arith

Ticks-set : IsSet (Run (List Entry × Procs))
Ticks-set = hlevel

-- A late process anywhere among the first n makes the kernel panic.
pub tick_entries-Late :
    (n : ℕ) (a : List Entry) (ps : Procs) (late : Entry)
    → Nodup (procs_of (take n a))
    → Mem late (take n a)
    → Late (ps late.proc)
    → tick_entries n a ps ≡ panic
unfolding tick_entries
tick_entries-Late zero a ps late d m h = absurd (not-mem-nil m)
tick_entries-Late (suc n) [] ps late d m h = absurd (not-mem-nil m)
tick_entries-Late (suc n) (e ∷ a) ps late d m h =
    let qs = modify ps e.proc lowered in
    let here : qs e.proc ≡ lowered (ps e.proc) = ground arith in
    Or.elim (Ticks-set _ _) (mem-cons.0 m)
      (λ same. rw (here, check_deadline-Late (ps e.proc) (rw (← same) h)))
      (λ rest.
        let other : e.proc ≢ late.proc = ne-of-mem late.proc d (mem-map_of_mem _ rest) in
        let kept : qs late.proc ≡ ps late.proc = ground arith in
        elim (check_deadline-cases (qs e.proc)) [
          | inl fine ↦ rw (fine, tick_entries-Late n a qs late (Nodup-cons.0 d).1 rest (rw kept h))
          | inr over ↦ rw over
        ])
