-- ===== src/Sched/RoundRobin/Feedback.antt =====
-- The multi-level feedback queue: where a process goes, and which one is picked.
use os_edf.Prelude.{ℕ, zero, suc, ◌+◌, ◌≤◌, ◌<◌, ◌≡◌, true, ◌≢◌, ◌⊎◌, List, [], ◌∷◌, arith}
use os_edf.Prelude.Int.{ℤ, pos, eqz}
use os_edf.Prelude.Run.{ok}
use os_edf.Kernel.{Kernel, Proc, rq_at, main_rq}
use os_edf.Sched.RoundRobin.{mlfq_target, mlfq_pick_next, rr_pick_next}

zero_of_test : (t : ℤ) → eqz t (pos 0) ≡ true → t ≡ pos 0
zero_of_test t h = ground arith

-- For a process whose queue is NULL or one of the four, MLFQ_enqueue on the first queue sends it
-- to the first queue if it is new or has slice left, one queue down if it used its slice up on
-- the first three, and back to the last queue if it used its slice up there.
pub mlfq_target_lem :
    (q : Proc)
    → q.rq ≤ 4
    → ((q.rq ≡ 0) ⊎ (q.time_slice ≢ pos 0) → mlfq_target main_rq q ≡ 1)
      × (0 < q.rq → q.rq < 4 → q.time_slice ≡ pos 0 → mlfq_target main_rq q ≡ q.rq + 1)
      × (q.rq ≡ 4 → q.time_slice ≡ pos 0 → mlfq_target main_rq q ≡ 4)
unfolding mlfq_target
mlfq_target_lem q h =
    (λ c. ground (arith, zero_of_test q.time_slice), λ a b c. ground arith, λ a b. ground arith)

pick_head :
    (rq p : ℕ) (l : List ℕ) (k : Kernel) → (rq_at k rq).run_list ≡ p ∷ l → rr_pick_next rq k ≡ ok p
unfolding rr_pick_next
pick_head rq p l k e = rw e

pick_empty : (rq : ℕ) (k : Kernel) → (rq_at k rq).run_list ≡ [] → rr_pick_next rq k ≡ ok 0
unfolding rr_pick_next
pick_empty rq k e = rw e

-- If queue i of the four is the first that is not empty and its head p is not NULL,
-- MLFQ_pick_next returns p.
pub mlfq_pick_next-highest :
    (i p : ℕ) (l : List ℕ) (k : Kernel)
    → i < 4
    → (k.rqs i).run_list ≡ p ∷ l
    → p ≢ 0
    → ((j : ℕ) → j < i → (k.rqs j).run_list ≡ [])
    → mlfq_pick_next main_rq k ≡ ok p
unfolding mlfq_pick_next
mlfq_pick_next-highest zero p l k h e real empty = rw (pick_head main_rq p l k e) (ground arith)
mlfq_pick_next-highest (suc zero) p l k h e real empty =
    rw (pick_empty main_rq k (empty 0 (omega arith)), pick_head 2 p l k e) (ground arith)
mlfq_pick_next-highest (suc (suc zero)) p l k h e real empty =
    rw
      (
        pick_empty main_rq k (empty 0 (omega arith)),
        pick_empty 2 k (empty 1 (omega arith)),
        pick_head 3 p l k e,
      )
      (ground arith)
mlfq_pick_next-highest (suc (suc (suc zero))) p l k h e real empty =
    rw
      (
        pick_empty main_rq k (empty 0 (omega arith)),
        pick_empty 2 k (empty 1 (omega arith)),
        pick_empty 3 k (empty 2 (omega arith)),
        pick_head 4 p l k e,
      )
      (ground arith)
mlfq_pick_next-highest (suc (suc (suc (suc i)))) p l k h e real empty = absurd (omega arith)

-- Without a process in any queue nothing is picked.
pub mlfq_pick_next-none :
    (k : Kernel) → ((j : ℕ) → j < 4 → (k.rqs j).run_list ≡ []) → mlfq_pick_next main_rq k ≡ ok 0
unfolding mlfq_pick_next
mlfq_pick_next-none k empty = rw (
  pick_empty main_rq k (empty 0 (omega arith)),
  pick_empty 2 k (empty 1 (omega arith)),
  pick_empty 3 k (empty 2 (omega arith)),
  pick_empty 4 k (empty 3 (omega arith)),
)
