-- ===== src/Wait/Fifo.antt =====
-- A wait queue is a first-in first-out queue, and wakeup_queue wakes all that wait, in order.
use os_edf.Prelude.{
  ℕ, zero, suc, ◌≡◌, ◌≢◌, ◌≤◌, ◌<◌, refl, sym, ap, subst, ◌∙◌, List, [], ◌∷◌, ◌++◌, true, false,
  arith, length, ◌==◌,
}
use os_edf.Prelude.Run.{ok, Ends, ends, Ends-bind}
use os_edf.Kernel.{Kernel}
use os_edf.Links.{list_empty}
use os_edf.Links.Chain.{NotIn, Chain-next_start}
use os_edf.Links.Ring.{Ring, head_or, list_add_before-Ring, list_del_init-Ring}
use os_edf.Sched.{SchedClass, wakeup_proc}
use os_edf.Wait.{
  Waits, put, wait_queue_add, wait_queue_del, wait_queue_first, wakeup_wait, wake_and_remove,
  wakeup_queue,
}

-- The wait_t in xs, none of them NULL, stand in the queue in this order and know it.
abbrev pub Queued : ℕ → (ℕ → ℕ) → List ℕ → Type 0
Queued queue wait_queue [] = Unit
Queued queue wait_queue (x ∷ xs) = (x ≢ 0) × (wait_queue x ≡ queue) × Queued queue wait_queue xs

abbrev pub Queue : ℕ → Waits → List ℕ → Type 0
Queue queue w xs = Ring w.links queue xs × Queued queue w.wait_queue xs

wait_queue_first-head :
    (queue : ℕ) (w : Waits) (xs : List ℕ)
    → Queue queue w xs
    → wait_queue_first queue w ≡ head_or xs 0
unfolding wait_queue_first
wait_queue_first-head queue w [] v = let e = v.0.0.0 in ground arith
wait_queue_first-head queue w (x ∷ xs) v = let e = v.0.0.0 in let differs = v.0.1.0 in ground arith

-- Waking the processes of these wait_t in turn takes k to k'.
abbrev pub Wakes : SchedClass → (ℕ → ℕ) → List ℕ → Kernel → Kernel → Type 0
Wakes cls proc [] k k' = k' ≡ k
Wakes cls proc (x ∷ xs) k k' =
    (k₁ : Kernel) × (wakeup_proc cls (proc x) k ≡ ok k₁) × Wakes cls proc xs k₁ k'

-- The queue's first leaves it and is awake.
wakeup_wait-first :
    (cls : SchedClass) (queue x flags : ℕ) (xs : List ℕ) (w : Waits) (k : Kernel)
    → Queue queue w (x ∷ xs)
    → wakeup_proc cls (w.proc x) w.kernel ≡ ok k
    → Ends
        (λ w'. Queue queue w' xs × (w'.kernel ≡ k) × (w'.proc ≡ w.proc))
        (wakeup_wait cls queue x flags true w)
unfolding wakeup_wait wait_queue_del list_empty
wakeup_wait-first cls queue x flags xs w k v woken =
    let apart = Chain-next_start w.links x xs queue x v.0.0.2 (omega (arith, v.0.1.0)) v.0.2.0 in
    let linked : (w.links.next x == x) ≡ false = ground arith in
    let mine : (w.wait_queue x == queue) ≡ true = let e = v.1.1 in ground arith in
    let left = list_del_init-Ring w.links queue x [] xs v.0 in
    rw linked rw mine rw woken (ends ((left.0, v.1.2), refl, refl))

wake_and_remove-Queue :
    (cls : SchedClass) (fuel queue x flags : ℕ) (xs : List ℕ) (w : Waits) (k : Kernel)
    → Queue queue w (x ∷ xs)
    → length xs < fuel
    → Wakes cls w.proc (x ∷ xs) w.kernel k
    → Ends (λ w'. Queue queue w' [] × (w'.kernel ≡ k)) (wake_and_remove cls fuel queue x flags w)
unfolding wake_and_remove
wake_and_remove-Queue cls zero queue x flags xs w k v f woken = absurd (omega arith)
wake_and_remove-Queue cls (suc fuel) queue x flags [] w k v f woken =
    Ends-bind (wakeup_wait-first cls queue x flags [] w woken.0 v woken.1) λ w₁ u.
      let first : wait_queue_first queue w₁ ≡ 0 = wait_queue_first-head queue w₁ [] u.0 in
      rw first (ends (u.0, u.1 ∙ sym woken.2))
wake_and_remove-Queue cls (suc fuel) queue x flags (y ∷ ys) w k v f woken =
    Ends-bind (wakeup_wait-first cls queue x flags (y ∷ ys) w woken.0 v woken.1) λ w₁ u.
      let first : wait_queue_first queue w₁ ≡ y = wait_queue_first-head queue w₁ (y ∷ ys) u.0 in
      let more : (y == 0) ≡ false = let real = u.0.1.0 in ground arith in
      let rest : Wakes cls w₁.proc (y ∷ ys) w₁.kernel k =
        subst (λ j. Wakes cls w₁.proc (y ∷ ys) j k) (sym u.1)
          (subst (λ p. Wakes cls p (y ∷ ys) woken.0 k) (sym u.2) woken.2) in
      rw first rw more (wake_and_remove-Queue cls fuel queue y flags ys w₁ k u.0 (omega arith) rest)

-- On a valid wait queue, with fuel for its length and a kernel k that waking the processes of
-- its waits in their order comes to: wakeup_queue with del ends, leaves the queue empty and the
-- kernel at k, so each is woken exactly once, first in first out.
pub wakeup_queue-Queue :
    (cls : SchedClass) (fuel queue flags : ℕ) (xs : List ℕ) (w : Waits) (k : Kernel)
    → Queue queue w xs
    → length xs ≤ fuel
    → Wakes cls w.proc xs w.kernel k
    → Ends (λ w'. Queue queue w' [] × (w'.kernel ≡ k)) (wakeup_queue cls fuel queue flags true w)
unfolding wakeup_queue
wakeup_queue-Queue cls fuel queue flags [] w k v f woken =
    let first : wait_queue_first queue w ≡ 0 = wait_queue_first-head queue w [] v in
    rw first (ends (v, sym woken))
wakeup_queue-Queue cls fuel queue flags (x ∷ xs) w k v f woken =
    let first : wait_queue_first queue w ≡ x = wait_queue_first-head queue w (x ∷ xs) v in
    let some_wait : (x == 0) ≡ false = let real = v.1.0 in ground arith in
    rw first rw some_wait
      (wake_and_remove-Queue cls fuel queue x flags xs w k v (omega arith) woken)

Queued-put :
    (queue wait : ℕ) (f : ℕ → ℕ) (xs : List ℕ)
    → Queued queue f xs
    → Queued queue (put f wait queue) xs
Queued-put queue wait f [] v = tt
Queued-put queue wait f (x ∷ xs) v = (v.0, ground (arith, v.1), Queued-put queue wait f xs v.2)

Queued-append :
    (queue x : ℕ) (f : ℕ → ℕ) (xs : List ℕ)
    → Queued queue f xs
    → x ≢ 0
    → f x ≡ queue
    → Queued queue f (xs ++ x ∷ [])
Queued-append queue x f [] v real e = (real, e, tt)
Queued-append queue x f (y ∷ xs) v real e = (v.0, v.1, Queued-append queue x f xs v.2 real e)

append_nil : (xs : List ℕ) → xs ++ [] ≡ xs
append_nil [] = refl
append_nil (x ∷ xs) = ap (λ l. x ∷ l) (append_nil xs)

-- On a valid wait queue, wait_queue_add of a wait that is in no list, is not NULL, not the head
-- nor among the waits, and has a process, ends with a valid queue that has it at the end, and
-- the kernel as it was.
pub wait_queue_add-Queue :
    (queue wait : ℕ) (xs : List ℕ) (w : Waits)
    → Queue queue w xs
    → (wait ≢ 0) × (wait ≢ queue) × NotIn wait xs
    → w.links.next wait ≡ wait
    → w.proc wait ≢ 0
    → Ends
        (λ w'. Queue queue w' (xs ++ wait ∷ []) × (w'.kernel ≡ w.kernel))
        (wait_queue_add queue wait w)
unfolding wait_queue_add list_empty
wait_queue_add-Queue queue wait xs w v new alone real =
    let unlinked : (w.links.next wait == wait) ≡ true = ground arith in
    let known : (w.proc wait == 0) ≡ false = ground arith in
    let end : xs ≡ xs ++ [] = sym (append_nil xs) in
    let ring =
      list_add_before-Ring w.links queue wait xs [] new.1 (subst (λ l. NotIn wait l) end new.2)
        (subst (λ l. Ring w.links queue l) end v.0) in
    let queued =
      Queued-append queue wait (put w.wait_queue wait queue) xs
        (Queued-put queue wait w.wait_queue xs v.1) new.0 (ground arith) in
    rw unlinked rw known (ends ((ring, queued), refl))
