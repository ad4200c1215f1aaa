-- ===== src/Paging/Tests.antt =====
-- The theorems on a directory in page 16 with one table, in page 17, which maps 0x1000 to page 18
use os_edf.Prelude.{◌≡◌, refl, true, false, [], if◌then◌else◌, ◌==◌, ◌&&◌, some}
use os_edf.Prelude.Run.{Run}
use os_edf.Buddy.Samples.{half_free}
use os_edf.Frames.{PhysicalMemory}
use os_edf.Paging.Tables.{Tables}
use os_edf.Paging.Fault.{map_shared, map_shared-panics}

abbrev one_table : PhysicalMemory
one_table = record {
  pool = record half_free { ref = λ q. 1 };
  words = λ p i.
      if p == 16 then (if i == 0 then 69639 else 0) else (if p == 17 && (i == 1) then 73735 else 0);
  page_swap = λ p. false;
  page_dirty = λ p. false;
  page_active = λ p. false;
  index = λ p. 0;
  max_swap_offset = 1024;
  mem_map = λ o. 0xffff;
  hash_list = λ b. [];
  active_list = record { swap_list = []; nr_pages = 0 };
  inactive_list = record { swap_list = []; nr_pages = 0 };
  next = 1;
  kswapd_ready = true;
  in_kswapd = false;
}

map_shared-panics_example : map_shared 16 0x1000 6 (some 0x500) (17, 2) one_table ≡ Run.panic
map_shared-panics_example = map_shared-panics 16 0x1000 6 0x500 (17, 2) one_table refl refl refl
