-- ===== src/Vm/Find.antt =====
-- find_vma, with and without a hit in the cache, is the walk along the list.
use os_edf.Prelude.{
  ℕ, ◌≤◌, ◌<◌, ◌≡◌, ◌≢◌, refl, sym, subst, inl, inr, Bool-cases, true, ◌&&◌, List, [], ◌∷◌, Option,
  none, some, arith, ltb, leb, ◌==◌, if◌then◌else◌,
}
use os_edf.Prelude.Run.{Ends, ends, Ends-bind, Ends-if}
use os_edf.Vm.{Vma, Mm, area_at, first_after, cached, find_vma, put_cache, or_else}
use os_edf.Vm.Insert.{area_at-ne}
use os_edf.Vm.Areas.{IsArea, Areas, IsValid}

area_at-low :
    (lo p : ℕ) (vs : List Vma) {v : Vma} → Areas lo vs → area_at p vs ≡ some v → lo ≤ v.vm_start
unfolding area_at
area_at-low lo p [] a e = absurd (cc)
area_at-low lo p (x ∷ vs) a e = elim (Bool-cases (x.ptr == p)) [
  | inl here ↦ ground (arith, a.0)
  | inr there ↦
      let rest = area_at-low x.vm_end p vs a.3 (rw there at e) in omega (arith, a.0, a.1.0)
]

-- The area that holds an address is the first one that ends behind it.
first_after-holds :
    (lo p a : ℕ) (vs : List Vma) (v : Vma)
    → Areas lo vs
    → area_at p vs ≡ some v
    → v.vm_start ≤ a
    → a < v.vm_end
    → first_after a vs ≡ some v
unfolding area_at first_after
first_after-holds lo p a [] v areas e h g = absurd (cc)
first_after-holds lo p a (x ∷ vs) v areas e h g = elim (Bool-cases (x.ptr == p)) [
  | inl here ↦ ground arith
  | inr there ↦
      let e' = rw there at e in
      let low = area_at-low x.vm_end p vs areas.3 e' in
      let rest = first_after-holds x.vm_end p a vs v areas.3 e' h g in ground arith
]

-- The first area that ends behind an address is where its pointer says.
pub area_at-first_after :
    (lo a : ℕ) (vs : List Vma) (v : Vma)
    → Areas lo vs
    → first_after a vs ≡ some v
    → (area_at v.ptr vs ≡ some v) × (a < v.vm_end) × IsArea v
unfolding area_at first_after
area_at-first_after lo a [] v areas e = absurd (cc)
area_at-first_after lo a (x ∷ vs) v areas e = elim (Bool-cases (ltb a x.vm_end)) [
  | inl here ↦
      let same : x ≡ v = let e' = rw here at e in cc in
      subst (λ (w : Vma). (area_at w.ptr (x ∷ vs) ≡ some w) × (a < w.vm_end) × IsArea w) same
        (ground arith, ground arith, areas.1)
  | inr there ↦
      let rest = area_at-first_after x.vm_end a vs v areas.3 (rw there at e) in
      let other : v.ptr ≢ x.ptr = area_at-ne v.ptr x.ptr vs rest.0 areas.2 in
      (ground (arith, rest.0), rest.1, rest.2)
]

-- The same areas, only with another one in the cache
pub record Found (addr : ℕ) (mm : Mm) (r : Option Vma × Mm) : Type 0 where
  pub result : r.0 ≡ first_after addr mm.mmap_list
  pub valid : IsValid r.1
  pub same : r.1.mmap_list ≡ mm.mmap_list
  pub logs : (r.1.unmapped ≡ mm.unmapped) × (r.1.destroyed ≡ mm.destroyed)

put_cache-Found :
    (addr : ℕ) (mm : Mm) (r : Option Vma)
    → IsValid mm
    → r ≡ first_after addr mm.mmap_list
    → Found addr mm (r, put_cache r mm)
put_cache-Found addr mm none valid e = record {
  result = e;
  valid = valid;
  same = refl;
  logs = (refl, refl);
}
put_cache-Found addr mm (some v) valid e = record {
  result = e;
  valid = record {
    areas = valid.areas;
    counted = valid.counted;
    cache = inr (v, (area_at-first_after 0 addr mm.mmap_list v valid.areas (sym e)).0);
  };
  same = refl;
  logs = (refl, refl);
}

or_else-hit :
    (addr : ℕ) (mm : Mm) (v : Vma)
    → IsValid mm
    → area_at mm.mmap_cache mm.mmap_list ≡ some v
    → or_else
        (if leb v.vm_start addr && ltb addr v.vm_end then some v else none)
        (first_after addr mm.mmap_list)
      ≡ first_after addr mm.mmap_list
or_else-hit addr mm v valid e = elim (Bool-cases (leb v.vm_start addr && ltb addr v.vm_end)) [
  | inl hit ↦ rw hit (
      sym (
        first_after-holds 0 mm.mmap_cache addr mm.mmap_list v valid.areas e (ground arith)
          (ground arith)))
  | inr miss ↦ rw miss refl
]

-- What the cache gives, if anything, is the result of the walk.
cached-Ends :
    (addr : ℕ) (mm : Mm)
    → IsValid mm
    → Ends
        (λ c. or_else c (first_after addr mm.mmap_list) ≡ first_after addr mm.mmap_list)
        (cached addr mm)
unfolding cached
cached-Ends addr mm valid = elim valid.cache [
  | inl empty ↦ let e : (mm.mmap_cache == 0) ≡ true = ground arith in rw e (ends refl)
  | inr (v, e) ↦
      Ends-if (mm.mmap_cache == 0) (λ empty. ends refl)
        λ full. rw e (ends (or_else-hit addr mm v valid e))
]

pub find_vma-Found : (addr : ℕ) (mm : Mm) → IsValid mm → Ends (Found addr mm) (find_vma addr mm)
unfolding find_vma
find_vma-Found addr mm valid =
    Ends-bind (cached-Ends addr mm valid) λ c e. ends (put_cache-Found addr mm _ valid e)
