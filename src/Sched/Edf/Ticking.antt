-- ===== src/Sched/Edf/Ticking.antt =====
-- MY_proc_tick keeps the invariant: every deadline comes nearer, and an earlier one is noticed.
use mathlib.Core.Logic.{∥∥₁_elim}
use mathlib.Core.List.{mem-map_of_mem, exists_of_mem-map}
use os_edf.Prelude.{
  ℕ, ◌+◌, ◌<◌, ◌≡◌, refl, sym, subst, ◌≢◌, inl, inr, List, [], ◌∷◌, map, Mem, arith, ◌∙◌, ap, take,
  true, Bool-cases,
}
use os_edf.Prelude.Int.{ℤ, pos, ◌<ℤ◌, -ℤ_parts, pos_part, ltz}
use os_edf.Prelude.Run.{Run, ok, panic, hang, Ends, ends, Ends-bind}
use os_edf.Heap.{Entry, live, get_father}
use os_edf.Heap.Cells.{key}
use os_edf.Heap.Order.{IsOrdered}
use os_edf.Kernel.{Kernel, Proc, Procs, modify, main_rq, put_proc}
use os_edf.Heap.Contract.{heap_gettop-empty}
use os_edf.Sched.Edf.{
  tick_entries, my_proc_tick, tick_decrease_pt_heap, tick_current, lower,
  heap_exist_earlier_deadline,
}
use os_edf.Sched.Edf.Entries.{ℤ-set, procs_of, Synced}
use os_edf.Sched.Edf.Tick.{
  OnTime, Late, Proc-set, tick_entries-Late, lowered, lowered_entry, tick_entries-Ticked,
}
use os_edf.Sched.Edf.Invariant.{EdfInv, waiting, put_proc-EdfInv, IsTop, heap_gettop-IsTop}

lowered-order :
    (n : ℕ) (a b : List Entry)
    → ((i : ℕ) → i < n → key b i ≡ lower (key a i))
    → IsOrdered n a
    → IsOrdered n b
lowered-order n a b keys order c p q =
    rw (keys c q, keys (get_father c) (omega arith))
      (omega
        (arith, order c p q, -ℤ_parts (key a c) (pos 1), -ℤ_parts (key a (get_father c)) (pos 1)))

procs_of-lowered : (xs : List Entry) → procs_of (map lowered_entry xs) ≡ procs_of xs
procs_of-lowered [] = refl
procs_of-lowered (e ∷ xs) = ap (◌∷◌ e.proc) (procs_of-lowered xs)

lowered-Synced :
    (ps qs : Procs) (xs : List Entry)
    → Synced ps xs
    → ((e : Entry) → Mem e xs → qs e.proc ≡ lowered (ps e.proc))
    → Synced qs (map lowered_entry xs)
lowered-Synced ps qs xs s h e m =
    ∥∥₁_elim (exists_of_mem-map m) (ℤ-set _ _) (λ (f, mf, same). rw (← same, h f mf, s f mf))

-- A tick of the heap: the same processes wait, and each deadline is one nearer.
pub record HeapTicked (n : ℕ) (k k' : Kernel) : Type 0 where
  pub valid : EdfInv n k'
  pub same : waiting k' ≡ waiting k
  pub nearer : (p : ℕ) → Mem p (waiting k) → k'.procs p ≡ lowered (k.procs p)
  pub others : (p : ℕ) → ¬ Mem p (waiting k) → k'.procs p ≡ k.procs p
  pub running : k'.current ≡ k.current

pub tick_decrease_pt_heap-HeapTicked :
    (n : ℕ) (k : Kernel)
    → EdfInv n k
    → ((p : ℕ) → Mem p (waiting k) → OnTime (k.procs p))
    → Ends (HeapTicked n k) (tick_decrease_pt_heap k)
unfolding tick_decrease_pt_heap
tick_decrease_pt_heap-HeapTicked n k v t =
    let size : pos_part k.heap.size ≡ n = ap pos_part v.heap.size in
    rw size (
      Ends-bind
        (tick_entries-Ticked n k.heap.entry k.procs (omega (arith, v.heap.within, v.heap.cells))
          (rw size at v.distinct)
          (λ e m. t e.proc (mem-map_of_mem (λ (f : Entry). f.proc) {a = e} (rw size m))))
        λ (b, ps) u.
          let list : take (pos_part k.heap.size) b ≡ map lowered_entry (live k.heap) =
            rw size u.entries in
          let same = ap procs_of list ∙ procs_of-lowered (live k.heap) in
          let nearer : (e : Entry) → Mem e (live k.heap) → ps e.proc ≡ lowered (k.procs e.proc) =
            λ e m. u.waiting e (rw size at m) in
          let by_proc : (p : ℕ) → Mem p (waiting k) → ps p ≡ lowered (k.procs p) = λ p m.
            ∥∥₁_elim (exists_of_mem-map m) (Proc-set _ _)
              (λ (e, me, is_p). rw (← is_p) (nearer e me)) in
          ends (record {
            valid = record {
              heap = record {
                size = v.heap.size;
                within = v.heap.within;
                cells = u.cells ∙ v.heap.cells;
                order = lowered-order n k.heap.entry b u.keys v.heap.order;
              };
              synced = rw list (lowered-Synced k.procs ps (live k.heap) v.synced nearer);
              distinct = rw same v.distinct;
              counted = v.counted;
              queued = λ p m.
                  let m' = rw same at m in
                  (ap (λ (q : Proc). q.rq) (by_proc p m') ∙ (v.queued p m').0, (v.queued p m').1);
            };
            same = same;
            nearer = by_proc;
            others = λ p m. u.others p (λ m'. m (rw size m'));
            running = refl;
          }))

earlier_deadline :
    (n : ℕ) (k : Kernel)
    → EdfInv (n + 1) k
    → (deadline : ℤ)
    → Ends
        (λ b. (e : Entry) × IsTop k e × (b ≡ ltz e.x deadline))
        (heap_exist_earlier_deadline k.heap deadline)
unfolding heap_exist_earlier_deadline
earlier_deadline n k v deadline = Ends-bind (heap_gettop-IsTop n k v) λ e top. ends (e, top, refl)

Kernels-set : IsSet (Run Kernel)
Kernels-set = hlevel

-- What a tick of the running process `p`, which becomes `q` by its own accounting, leaves.
pub record ProcTicked (n p : ℕ) (q : Proc) (k k' : Kernel) : Type 0 where
  pub valid : EdfInv n k'
  pub same : waiting k' ≡ waiting k
  pub nearer : (r : ℕ) → Mem r (waiting k) → k'.procs r ≡ lowered (k.procs r)
  pub deadline : (k'.procs p).pt ≡ q.pt
  pub preempted :
      (r : ℕ)
      → Mem r (waiting k)
      → (k'.procs r).pt <ℤ (k'.procs p).pt
      → (k'.procs p).need_resched ≡ true

module _ (n p : ℕ) (q : Proc) (k : Kernel) (v : EdfInv (n + 1) k) (out : ¬ Mem p (waiting k))
    (accounted : tick_current (k.procs p) ≡ ok q) where
  -- With n + 1 processes waiting in a valid queue, p not among them, the accounting of p's own
  -- tick not panicking, and every waiting process on time: MY_proc_tick ends, the same processes
  -- wait in a valid queue, each with its pt one lower and nothing else changed, p keeps the pt
  -- of its own accounting, and p has need_resched set if a waiting process has a smaller pt.
  pub my_proc_tick-ProcTicked :
      ((r : ℕ) → Mem r (waiting k) → OnTime (k.procs r))
      → Ends (ProcTicked (n + 1) p q k) (my_proc_tick main_rq p k)
  unfolding my_proc_tick
  my_proc_tick-ProcTicked t =
      let k₀ = put_proc k p (λ old. q) in
      let kept : (r : ℕ) → Mem r (waiting k) → k₀.procs r ≡ k.procs r =
        λ r m. let other : p ≢ r = λ e. out (rw e m) in ground arith in
      rw accounted (
        Ends-bind
          (tick_decrease_pt_heap-HeapTicked (n + 1) k₀
            (put_proc-EdfInv (n + 1) p k (λ old. q) v out) (λ r m. rw (kept r m) (t r m)))
          λ k₁ u.
            Ends-bind (earlier_deadline n k₁ u.valid (k₁.procs p).pt)
              λ b (e, ((m, least), at_deadline, top), is_b).
                let gone : ¬ Mem p (waiting k₁) = λ m. out (rw u.same at m) in
                let own : k₁.procs p ≡ q = u.others p out ∙ ground arith in
                let same_as : (r : ℕ) → Mem r (waiting k) → k₁.procs r ≡ lowered (k.procs r) =
                  λ r m. u.nearer r m ∙ ap lowered (kept r m) in
                elim (Bool-cases b) [
                  | inl earlier ↦ rw earlier (
                      ends (record {
                        valid =
                            put_proc-EdfInv (n + 1) p k₁ (λ r. record r { need_resched = true })
                              u.valid gone;
                        same = u.same;
                        nearer = λ r m.
                            let other : p ≢ r = λ e. out (rw e m) in ground (arith, same_as r m);
                        deadline = ground (arith, own);
                        preempted = λ r m h. ground arith;
                      }))
                  | inr later ↦ rw later (
                      ends (record {
                        valid = u.valid;
                        same = u.same;
                        nearer = same_as;
                        deadline = ap (λ (r : Proc). r.pt) own;
                        preempted = λ r m h.
                            absurd (ground (arith, is_b, least r (rw u.same m), at_deadline));
                      }))
                ])

  Late-entry :
      (e : Entry) → Mem e (live k.heap) → Late (k.procs e.proc) → my_proc_tick main_rq p k ≡ panic
  unfolding my_proc_tick tick_decrease_pt_heap
  Late-entry e m h =
      let other : p ≢ e.proc = λ same. out (rw same (mem-map_of_mem (λ (f : Entry). f.proc) m)) in
      let ps = modify k.procs p (λ old. q) in
      let kept : ps e.proc ≡ k.procs e.proc = ground arith in
      rw (
        accounted,
        tick_entries-Late (pos_part k.heap.size) k.heap.entry ps e v.distinct m (rw kept h),
      )

  -- With n + 1 processes waiting in a valid queue, p not among them and the accounting of p's
  -- own tick not panicking: if some waiting process is late, that is its pt is at most 0, or is
  -- 1 with computation left, MY_proc_tick panics, wherever in the heap the process stands and
  -- whether or not it is a real-time process.
  pub my_proc_tick-Late :
      (late : ℕ) → Mem late (waiting k) → Late (k.procs late) → my_proc_tick main_rq p k ≡ panic
  my_proc_tick-Late late m h =
      ∥∥₁_elim (exists_of_mem-map m) (Kernels-set _ _)
        λ (e, me, is_late). Late-entry e me (subst (λ (r : ℕ). Late (k.procs r)) (sym is_late) h)

-- With nobody waiting, if the accounting of p's own tick does not panic, MY_proc_tick never
-- returns: it asks for the top of the empty heap.
pub my_proc_tick-alone :
    (p : ℕ) (q : Proc) (k : Kernel)
    → EdfInv 0 k
    → tick_current (k.procs p) ≡ ok q
    → my_proc_tick main_rq p k ≡ hang
unfolding my_proc_tick tick_decrease_pt_heap heap_exist_earlier_deadline tick_entries
my_proc_tick-alone p q k v accounted =
    let size : pos_part k.heap.size ≡ 0 = ap pos_part v.heap.size in
    rw (accounted, size, heap_gettop-empty k.heap v.heap)
