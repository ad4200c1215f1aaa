-- ===== src/Buddy/Samples.antt =====
-- One zone of 8 pages from page 16 on: a free block of four pages at page 20, and four pages in use
-- at page 16.
use os_edf.Prelude.{
  ℕ, ◌≤◌, ◌≡◌, refl, Bool-cases, inl, inr, true, false, [], ◌∷◌, arith, if◌then◌else◌, ◌==◌, ◌&&◌,
  leb, ltb,
}
use os_edf.Buddy.{Pages}
use os_edf.Buddy.Cover.{listed, free_count, in_list}
use os_edf.Buddy.State.{Fits, free_at}
use os_edf.Buddy.Homes.{Sound}
use os_edf.Buddy.Ranges.{in_range}

abbrev pub half_free : Pages
half_free = record {
  ref = λ p. 0;
  reserved = λ p. false;
  has_property = λ p. p == 20;
  property = λ p. 2;
  zone_num = λ p. 0;
  npage = 24;
  mem_base = λ z. 16;
  zones = 1;
  free_list = λ o. if o == 2 then 20 ∷ [] else [];
  nr_free = λ o. if o == 2 then 1 else 0;
}

half_free-Fits : Fits half_free
unfolding listed
half_free-Fits = record {
  flagged = λ p h. ground (arith, h);
  counted = λ o. elim (Bool-cases (o == 2)) [ inl e ↦ rw e refl | inr e ↦ rw e refl ];
}

-- The one free block
half_free-listed : (o p : ℕ) → listed p (half_free.free_list o) ≡ true → (o ≡ 2) × (p ≡ 20)
unfolding listed
half_free-listed o p l = (ground (arith, l), ground (arith, l))

half_free-once : (q : ℕ) → free_at q half_free ≤ 1
unfolding free_count in_list
half_free-once q = ground arith

pub half_free-free : (q : ℕ) → free_at q half_free ≡ (if leb 20 q && ltb q 24 then 1 else 0)
unfolding free_count in_list
half_free-free q = ground arith

pub half_free-below : (q : ℕ) → in_range q 16 3 ≡ 1 → free_at q half_free ≡ 0
unfolding free_count in_list
half_free-below q inside = ground (arith, inside)

pub half_free-Sound : Sound half_free
half_free-Sound = record {
  fits = half_free-Fits;
  homes = record {
    orders = λ p h. omega arith;
    headed =
        λ o p small l. let e = half_free-listed o p l in (ground (arith, e.1), omega (arith, e.0));
    home = λ o p small l.
        let e = half_free-listed o p l in (omega (arith, e.1), λ q inside. (refl, refl));
    once = half_free-once;
  };
}
