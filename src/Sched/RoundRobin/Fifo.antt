-- ===== src/Sched/RoundRobin/Fifo.antt =====
-- The round robin class is a queue: last in at the end, first out at the head.
use os_edf.Prelude.{
  ℕ, ◌+◌, ◌^◌, ◌<◌, ◌≡◌, refl, ◌≢◌, inl, inr, List, [], ◌∷◌, ◌++◌, arith, ◌∙◌, ap, ◌==◌, true,
  false, Bool-cases, length, length-append,
}
use os_edf.Prelude.Int.{ℤ, pos, ◌≤ℤ◌, ◌<ℤ◌}
use os_edf.Prelude.Run.{ok, Ends, ends, Ends-bind}
use os_edf.Kernel.{Kernel, Proc, main_rq, is_runnable, runnable, put_proc}
use os_edf.Sched.{schedule, requeue_current, pick_and_switch, switch_to_next}
use os_edf.Sched.RoundRobin.{
  is_in, is_linked, unlink, rr_enqueue, rr_dequeue, rr_pick_next, rr_sched_class, refill,
}

-- The main queue holds the list `l`, of less than 2^31 processes, its counter is the length and its
-- longest time slice is positive; the other run lists are empty.
pub record IsQueue (l : List ℕ) (k : Kernel) : Type 0 where
  pub list : (k.rqs 0).run_list ≡ l
  pub counted : (k.rqs 0).proc_num ≡ length l
  pub small : length l < 2 ^ 31
  pub slice : pos 0 <ℤ (k.rqs 0).max_time_slice
  pub alone : (i : ℕ) → 0 < i → (k.rqs i).run_list ≡ []

abbrev pub Granted : ℤ → Proc → Type 0
Granted max q = (pos 0 <ℤ q.time_slice) × (q.time_slice ≤ℤ max)

is_linked-is_in : (l : List ℕ) (p : ℕ) (k : Kernel) → IsQueue l k → is_linked p k ≡ is_in p l
unfolding is_linked
is_linked-is_in l p k v =
    rw (v.list, v.alone 1 (omega arith), v.alone 2 (omega arith), v.alone 3 (omega arith))
      (ground arith)

refill-Granted :
    (max : ℤ) (q : Proc) → pos 0 <ℤ max → pos 0 ≤ℤ q.time_slice → Granted max (refill max q)
unfolding refill
refill-Granted max q h t = ground arith

-- Enqueueing a process that is in no list puts it at the end with a slice within the bounds.
pub rr_enqueue-IsQueue :
    (l : List ℕ) (p : ℕ) (k : Kernel)
    → IsQueue l k
    → is_in p l ≡ false
    → length l + 1 < 2 ^ 31
    → pos 0 ≤ℤ (k.procs p).time_slice
    → Ends
        (λ k'.
          IsQueue (l ++ p ∷ []) k'
          × Granted (k.rqs 0).max_time_slice (k'.procs p)
          × ((k'.procs p).rq ≡ main_rq)
          × ((q : ℕ) → p ≢ q → k'.procs q ≡ k.procs q))
        (rr_enqueue main_rq p k)
unfolding rr_enqueue
rr_enqueue-IsQueue l p k v fresh room t =
    let granted = refill-Granted (k.rqs 0).max_time_slice (k.procs p) v.slice t in
    let free = is_linked-is_in l p k v ∙ fresh in
    let size = length-append l (p ∷ []) in
    rw free (
      ends (
        record {
          list = ap (λ (m : List ℕ). m ++ p ∷ []) v.list;
          counted = omega (arith, v.counted, size);
          small = omega (arith, size);
          slice = v.slice;
          alone = λ i h. ground (arith, v.alone i h);
        },
        ground (arith, granted),
        ground arith,
        λ q other. ground arith,
      ))

unlink-alone : (p i : ℕ) (k : Kernel) → (k.rqs i).run_list ≡ [] → unlink p (k.rqs i).run_list ≡ []
unfolding unlink
unlink-alone p i k e = rw e

-- Dequeueing the first process leaves the queue of the others.
pub rr_dequeue-IsQueue :
    (l : List ℕ) (p : ℕ) (k : Kernel)
    → IsQueue (p ∷ l) k
    → (k.procs p).rq ≡ main_rq
    → Ends
        (λ k'. IsQueue l k' × (k'.procs ≡ k.procs) × (k'.current ≡ k.current))
        (rr_dequeue main_rq p k)
unfolding rr_dequeue unlink is_in
rr_dequeue-IsQueue l p k v e =
    let held : is_linked p k ≡ true = is_linked-is_in (p ∷ l) p k v ∙ ground arith in
    rw (held, e)
      (ends (
        record {
          list = rw v.list (ground arith);
          counted = omega (arith, v.counted, v.small);
          small = omega (arith, v.small);
          slice = v.slice;
          alone = λ i h. ground (arith, unlink-alone p i k (v.alone i h));
        },
        refl,
        refl,
      ))

-- The process at the head is picked.
rr_pick_next-head :
    (l : List ℕ) (p : ℕ) (k : Kernel) → IsQueue (p ∷ l) k → rr_pick_next main_rq k ≡ ok p
unfolding rr_pick_next
rr_pick_next-head l p k v = rw v.list

switch-IsQueue :
    (l : List ℕ) (p : ℕ) (k : Kernel)
    → IsQueue l k
    → IsQueue l (switch_to_next rr_sched_class p k)
      × ((switch_to_next rr_sched_class p k).current ≡ p)
unfolding switch_to_next
switch-IsQueue l p k v = elim (Bool-cases (p == k.current)) [
  | inl same ↦ rw same (
    record {
      list = v.list;
      counted = v.counted;
      small = v.small;
      slice = v.slice;
      alone = v.alone;
    },
    ground arith,
  )
  | inr other ↦ rw other (
    record {
      list = v.list;
      counted = v.counted;
      small = v.small;
      slice = v.slice;
      alone = v.alone;
    },
    refl,
  )
]

pub pick_and_switch-head :
    (l : List ℕ) (p : ℕ) (k : Kernel)
    → IsQueue (p ∷ l) k
    → (k.procs p).rq ≡ main_rq
    → p ≢ 0
    → Ends (λ k'. IsQueue l k' × (k'.current ≡ p)) (pick_and_switch rr_sched_class k)
unfolding pick_and_switch
pick_and_switch-head l p k v e real =
    let busy : (p == 0) ≡ false = ground arith in
    rw (rr_pick_next-head l p k v, busy)
      (Ends-bind (rr_dequeue-IsQueue l p k v e) λ k' u. ends (switch-IsQueue l p k' u.0))

-- Over the round robin class, with the main queue holding p and then l and its counter saying
-- so, its longest time slice positive, all other run lists empty and the length of l plus 2
-- below 2^31, with p's queue noted and p not NULL, and a runnable current process that is not
-- the idle one, not queued and has a slice that is not negative: schedule() ends, p runs, the
-- main queue is l with the old current process at its end, its counter says so, and its longest
-- slice is positive and the other run lists are empty as before.
pub schedule-rotates :
    (l : List ℕ) (p : ℕ) (k : Kernel)
    → IsQueue (p ∷ l) k
    → (k.procs p).rq ≡ main_rq
    → p ≢ 0
    → (k.procs k.current).state ≡ runnable
    → k.current ≢ k.idleproc
    → is_in k.current (p ∷ l) ≡ false
    → length l + 2 < 2 ^ 31
    → pos 0 ≤ℤ (k.procs k.current).time_slice
    → Ends (λ k'. IsQueue (l ++ k.current ∷ []) k' × (k'.current ≡ p)) (schedule rr_sched_class k)
unfolding schedule requeue_current is_in
schedule-rotates l p k v e real ready busy fresh room t =
    let k₀ = put_proc k k.current (λ q. record q { need_resched = false }) in
    let state : is_runnable (k₀.procs k.current).state ≡ true = ground arith in
    let idle : (k.current == k.idleproc) ≡ false = ground arith in
    let v₀ : IsQueue (p ∷ l) k₀ = record {
      list = v.list;
      counted = v.counted;
      small = v.small;
      slice = v.slice;
      alone = v.alone;
    } in
    let other : k.current ≢ p = λ same. ground (arith, fresh) in
    rw (state, idle)
      (Ends-bind (rr_enqueue-IsQueue (p ∷ l) k.current k₀ v₀ fresh (omega arith) (ground arith))
        λ k₁ u.
          pick_and_switch-head (l ++ k.current ∷ []) p k₁ u.0
            (ap (λ (q : Proc). q.rq) (u.3 p other) ∙ ground arith) real)
