-- ===== src/Swap/Tests.antt =====
-- The theorems on a swap space of 1024 offsets, of which one is unused
use os_edf.Prelude.{ℕ, refl, [], ◌∷◌, ◌==◌, if◌then◌else◌, arith, true, false}
use os_edf.Prelude.Run.{Ends}
use os_edf.Buddy.Cover.{listed}
use os_edf.Buddy.Samples.{half_free}
use os_edf.Frames.{PhysicalMemory}
use os_edf.Swap.{swap_unused, try_alloc_swap_entry, refill_inactive_scan}
use os_edf.Swap.Refill.{Refilled, IsActive, Distinct, refill_inactive_scan-Refilled}
use os_edf.Swap.Search.{Unused, try_alloc_swap_entry-Unused}

abbrev swap_space : ℕ → PhysicalMemory
swap_space count = record {
  pool = half_free;
  words = λ p i. 0;
  page_swap = λ p. false;
  page_dirty = λ p. false;
  page_active = λ p. false;
  index = λ p. 0;
  max_swap_offset = 1024;
  mem_map = λ o. if o == 5 then count else 1;
  hash_list = λ b. [];
  active_list = record { swap_list = []; nr_pages = 0 };
  inactive_list = record { swap_list = []; nr_pages = 0 };
  next = 7;
  kswapd_ready = false;
  in_kswapd = false;
}

try_alloc_swap_entry-Unused_example :
    Ends (Unused (swap_space swap_unused)) (try_alloc_swap_entry (swap_space swap_unused))
try_alloc_swap_entry-Unused_example =
    try_alloc_swap_entry-Unused 5 (swap_space swap_unused) (omega arith) (omega arith)
      (omega arith, omega arith) refl

-- Page 17 has no reference, page 18 has one.
abbrev two_active : PhysicalMemory
two_active = record (swap_space 0) {
  pool = record half_free { ref = λ p. if p == 18 then 1 else 0 };
  page_swap = λ p. true;
  page_active = λ p. true;
  active_list = record { swap_list = 17 ∷ 18 ∷ []; nr_pages = 2 };
}

two_active-IsActive : IsActive two_active
unfolding listed Distinct
two_active-IsActive = record {
  count = refl;
  all = record {
    split = refl;
    flags = λ p l. (refl, refl);
    unseen = λ p l. refl;
    elsewhere = λ p l. refl;
    distinct = (refl, (refl, tt));
  };
}

refill_inactive_scan-Refilled_example :
    Ends (Refilled [] (17 ∷ 18 ∷ []) two_active) (refill_inactive_scan two_active)
refill_inactive_scan-Refilled_example = refill_inactive_scan-Refilled two_active two_active-IsActive
