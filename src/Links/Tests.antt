-- ===== src/Links/Tests.antt =====
-- The theorems on lists at the list 2, 3 with head 1.
use os_edf.Prelude.{refl, [], ◌∷◌, arith, ◌==◌, if◌then◌else◌}
use os_edf.Links.{Links, list_del_init}
use os_edf.Links.Ring.{Ring, list_del_init-Ring}

abbrev links : Links
links = record {
  next = λ q. if q == 1 then 2 else if q == 2 then 3 else 1;
  prev = λ q. if q == 1 then 3 else if q == 2 then 1 else 2;
}

links-Ring : Ring links 1 (2 ∷ 3 ∷ [])
links-Ring = (
  (refl, refl, (refl, refl, (refl, refl))),
  (omega arith, (omega arith, tt)),
  ((omega arith, tt), (tt, tt)),
)

-- At the tail, in front of the head.
list_del_init-Ring_example :
    Ring (list_del_init 2 links) 1 (3 ∷ []) × Ring (list_del_init 2 links) 2 []
list_del_init-Ring_example = list_del_init-Ring links 1 2 [] (3 ∷ []) links-Ring
