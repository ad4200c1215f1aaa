-- ===== src/Wait.antt =====
-- kern/sync/wait.c and wait.h: the queues of the processes that wait for an event.
-- A wait_t is the address of its wait_link and a queue that of its wait_head. Over a scheduling
-- class, since a wake-up puts the process into the ready queue.
pub mod Fifo
mod Tests
use os_edf.Prelude.{ℕ, zero, suc, Bool, true, false, not, ◌&&◌, ◌==◌, if◌then◌else◌}
use os_edf.Prelude.Run.{Run, ok, out_of_fuel, assert, ◌>>=◌, ◌>>◌}
use os_edf.Kernel.{Kernel, wt_interrupted}
use os_edf.Links.{Links, list_init, list_add_before, list_del_init, list_empty}
use os_edf.Sched.{SchedClass, wakeup_proc}

pub record Waits : Type 0 where
  pub kernel : Kernel
  pub links : Links
  pub proc : ℕ → ℕ
  pub wakeup_flags : ℕ → ℕ
  pub wait_queue : ℕ → ℕ

-- A write to the field of one wait_t
abbrev pub put : (ℕ → ℕ) → ℕ → ℕ → ℕ → ℕ
put f wait v q = if wait == q then v else f q

pub wait_init : ℕ → ℕ → Waits → Waits
wait_init wait proc w = record w {
  proc = put w.proc wait proc;
  wakeup_flags = put w.wakeup_flags wait wt_interrupted;
  links = list_init wait w.links;
}

pub wait_queue_init : ℕ → Waits → Waits
wait_queue_init queue w = record w { links = list_init queue w.links }

pub wait_queue_add : ℕ → ℕ → Waits → Run Waits
wait_queue_add queue wait w = do
  assert (list_empty wait w.links && not (w.proc wait == 0))
  ok (record w {
    wait_queue = put w.wait_queue wait queue;
    links = list_add_before queue wait w.links;
  })

pub wait_queue_del : ℕ → ℕ → Waits → Run Waits
wait_queue_del queue wait w = do
  assert (not (list_empty wait w.links) && (w.wait_queue wait == queue))
  ok (record w { links = list_del_init wait w.links })

pub wait_queue_next : ℕ → ℕ → Waits → Run ℕ
wait_queue_next queue wait w = do
  assert (not (list_empty wait w.links) && (w.wait_queue wait == queue))
  let le = w.links.next wait
  ok (if not (le == queue) then le else 0)

pub wait_queue_prev : ℕ → ℕ → Waits → Run ℕ
wait_queue_prev queue wait w = do
  assert (not (list_empty wait w.links) && (w.wait_queue wait == queue))
  let le = w.links.prev wait
  ok (if not (le == queue) then le else 0)

pub wait_queue_first : ℕ → Waits → ℕ
wait_queue_first queue w = let le = w.links.next queue in if not (le == queue) then le else 0

pub wait_queue_last : ℕ → Waits → ℕ
wait_queue_last queue w = let le = w.links.prev queue in if not (le == queue) then le else 0

pub wait_queue_empty : ℕ → Waits → Bool
wait_queue_empty queue w = list_empty queue w.links

pub wait_in_queue : ℕ → Waits → Bool
wait_in_queue wait w = not (list_empty wait w.links)

module _ (cls : SchedClass) where
  pub wakeup_wait : ℕ → ℕ → ℕ → Bool → Waits → Run Waits
  unfolding wait_queue_del
  wakeup_wait queue wait flags del w = do
    w₁ ← if del then wait_queue_del queue wait w else ok w
    let w₂ = record w₁ { wakeup_flags = put w₁.wakeup_flags wait flags }
    k ← wakeup_proc cls (w₂.proc wait) w₂.kernel
    ok (record w₂ { kernel = k })

  pub wakeup_first : ℕ → ℕ → Bool → Waits → Run Waits
  unfolding wait_queue_first
  wakeup_first queue flags del w =
      let wait = wait_queue_first queue w in
      if not (wait == 0) then wakeup_wait queue wait flags del w else ok w

  -- The two do-while loops
  pub wake_and_remove : ℕ → ℕ → ℕ → ℕ → Waits → Run Waits
  wake_and_remove zero queue wait flags w = out_of_fuel
  wake_and_remove (suc fuel) queue wait flags w = do
    w₁ ← wakeup_wait queue wait flags true w
    let next = wait_queue_first queue w₁
    let rest = wake_and_remove fuel queue next flags w₁
    if not (next == 0) then rest else ok w₁

  pub wake_and_keep : ℕ → ℕ → ℕ → ℕ → Waits → Run Waits
  wake_and_keep zero queue wait flags w = out_of_fuel
  wake_and_keep (suc fuel) queue wait flags w = do
    w₁ ← wakeup_wait queue wait flags false w
    next ← wait_queue_next queue wait w₁
    let rest = wake_and_keep fuel queue next flags w₁
    if not (next == 0) then rest else ok w₁

  pub wakeup_queue : ℕ → ℕ → ℕ → Bool → Waits → Run Waits
  unfolding wake_and_remove wake_and_keep
  wakeup_queue fuel queue flags del w =
      let wait = wait_queue_first queue w in
      let loops =
        if del
        then wake_and_remove fuel queue wait flags w
        else wake_and_keep fuel queue wait flags w in
      if not (wait == 0) then loops else ok w
