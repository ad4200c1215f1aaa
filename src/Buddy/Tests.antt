-- ===== src/Buddy/Tests.antt =====
-- The theorems on a zone with four free pages
use os_edf.Prelude.{refl, arith}
use os_edf.Prelude.Run.{Ends}
use os_edf.Buddy.{buddy_alloc_pages, buddy_free_pages}
use os_edf.Buddy.Homes.{Sound}
use os_edf.Buddy.Ranges.{Freed}
use os_edf.Buddy.Rising.{free_pages-Freed}
use os_edf.Buddy.Samples.{half_free, half_free-Sound, half_free-below}
use os_edf.Buddy.Trim.{Served, alloc_pages-Served}

alloc_pages-Served_example :
    Ends (λ r. Sound r.1 × Served 3 half_free r) (buddy_alloc_pages 3 half_free)
alloc_pages-Served_example =
    alloc_pages-Served 3 half_free half_free-Sound (omega arith) (omega arith)

free_pages-Freed_example : Ends (Freed 16 3 half_free) (buddy_free_pages 16 3 half_free)
free_pages-Freed_example =
    free_pages-Freed 0 16 3 half_free half_free-Sound (omega arith) (omega arith) (omega arith)
      λ q inside. ((refl, refl), half_free-below q inside)
