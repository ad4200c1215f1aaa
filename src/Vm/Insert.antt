-- ===== src/Vm/Insert.antt =====
-- insert_vma_struct keeps the order, and its assertions hold, if the new area overlaps none.
use os_edf.Prelude.{
  ℕ, suc, ◌≤◌, ◌<◌, ◌≡◌, ◌≢◌, refl, sym, inl, inr, ◌∙◌, Bool-cases, true, ◌||◌, List, [], ◌∷◌,
  Option, none, some, arith, ltb, ◌==◌, length,
}
use os_edf.Prelude.Int.{◌+ℤ◌}
use os_edf.Prelude.Run.{ok, Ends, ends, Ends-bind}
use os_edf.Vm.{Vma, Mm, area_at, insert_behind, insert_vma_struct, check_prev, check_vma_overlap}
use os_edf.Vm.Areas.{IsArea, NotAt, Areas, within, covered, Apart, ApartFrom, Apart-NotAt, IsValid}

-- What is true of the list with v, from what was true of the one without.
pub record Inserted (lo : ℕ) (v : Vma) (vs vs' : List Vma) : Type 0 where
  pub areas : Areas lo vs'
  pub counted : length vs' ≡ suc (length vs)
  pub covers : (a : ℕ) → covered a vs' ≡ (within v.vm_start v.vm_end a || covered a vs)
  pub apart : (x : Vma) → Apart x vs → ApartFrom x v → Apart x vs'
  pub not_at : (p : ℕ) → NotAt p vs → p ≢ v.ptr → NotAt p vs'
  pub found : (p : ℕ) → p ≢ v.ptr → area_at p vs' ≡ area_at p vs

abbrev Behind : Option Vma → Vma → Type 0
Behind none v = Unit
Behind (some prev) v = (prev.vm_start < prev.vm_end) × (prev.vm_end ≤ v.vm_start)

check_vma_overlap-ok :
    (prev next : Vma)
    → prev.vm_start < prev.vm_end
    → prev.vm_end ≤ next.vm_start
    → next.vm_start < next.vm_end
    → check_vma_overlap prev next ≡ ok tt
check_vma_overlap-ok prev next p q r = ground arith

check_prev-ok :
    (prev : Option Vma) (v : Vma)
    → Behind prev v
    → v.vm_start < v.vm_end
    → check_prev prev v ≡ ok tt
check_prev-ok none v b h = refl
check_prev-ok (some prev) v b h = check_vma_overlap-ok prev v b.0 b.1 h

-- In front of a list
Inserted-front :
    (lo : ℕ) (v : Vma) (vs : List Vma)
    → lo ≤ v.vm_start
    → IsArea v
    → Areas v.vm_end vs
    → Apart v vs
    → Inserted lo v vs (v ∷ vs)
unfolding covered area_at
Inserted-front lo v vs low area areas apart = record {
  areas = (low, area, Apart-NotAt v vs apart, areas);
  counted = refl;
  covers = λ a. refl;
  apart = λ x h g. (g, h);
  not_at = λ p h g. (g, h);
  found = λ p h. ground arith;
}

-- Behind the head of a list
Inserted-skip :
    (lo : ℕ) (v x : Vma) (vs vs' : List Vma)
    → lo ≤ x.vm_start
    → IsArea x
    → NotAt x.ptr vs
    → x.ptr ≢ v.ptr
    → Inserted x.vm_end v vs vs'
    → Inserted lo v (x ∷ vs) (x ∷ vs')
unfolding covered area_at
Inserted-skip lo v x vs vs' low area not_at differs i = record {
  areas = (low, area, i.not_at x.ptr not_at differs, i.areas);
  counted = omega (arith, i.counted);
  covers = λ a. ground (arith, i.covers a);
  apart = λ y h g. (h.0, i.apart y h.1 g);
  not_at = λ p h g. (h.0, i.not_at p h.1 g);
  found = λ p h. ground (arith, i.found p h);
}

insert_behind-Inserted :
    (lo : ℕ) (prev : Option Vma) (v : Vma) (vs : List Vma)
    → Behind prev v
    → lo ≤ v.vm_start
    → IsArea v
    → Areas lo vs
    → Apart v vs
    → Ends (Inserted lo v vs) (insert_behind prev v vs)
unfolding insert_behind
insert_behind-Inserted lo prev v [] b low area areas apart =
    rw (check_prev-ok prev v b area.0) (ends (Inserted-front lo v [] low area tt tt))
insert_behind-Inserted lo prev v (x ∷ xs) b low area areas apart =
    elim (Bool-cases (ltb v.vm_start x.vm_start)) [
      | inl first ↦
          let before : v.vm_end ≤ x.vm_start = ground (arith, apart.0.1, areas.1.0) in
          rw first rw (check_prev-ok prev v b area.0) rw
            (check_vma_overlap-ok v x area.0 before areas.1.0)
            (ends (Inserted-front lo v (x ∷ xs) low area (before, areas.1, areas.2, areas.3) apart))
      | inr later ↦
          let behind : x.vm_end ≤ v.vm_start = ground (arith, apart.0.1, area.0) in
          rw later (
            Ends-bind
              (insert_behind-Inserted x.vm_end (some x) v xs (areas.1.0, behind) behind area areas.3
                apart.1)
              λ ys i.
                ends
                  (Inserted-skip lo v x xs ys areas.0 areas.1 areas.2 (λ e. apart.0.0 (sym e)) i))
    ]

-- A pointer in the list is none that is not.
pub area_at-ne : (p q : ℕ) (vs : List Vma) {w : Vma} → area_at p vs ≡ some w → NotAt q vs → p ≢ q
unfolding area_at
area_at-ne p q [] e n = absurd (cc)
area_at-ne p q (x ∷ vs) e n = elim (Bool-cases (x.ptr == p)) [
  | inl here ↦ ground (arith, n.0)
  | inr there ↦ area_at-ne p q vs (rw there at e) n.1
]

-- v is a fresh area, and the list and the count have it afterwards.
pub record Added (v : Vma) (mm mm' : Mm) : Type 0 where
  pub valid : IsValid mm'
  pub inserted : Inserted 0 v mm.mmap_list mm'.mmap_list
  pub cache : mm'.mmap_cache ≡ mm.mmap_cache

pub insert_vma_struct-Added :
    (v : Vma) (mm : Mm)
    → IsValid mm
    → IsArea v
    → Apart v mm.mmap_list
    → Ends (Added v mm) (insert_vma_struct v mm)
unfolding insert_vma_struct ◌+ℤ◌
insert_vma_struct-Added v mm valid area apart =
    let sane : ltb v.vm_start v.vm_end ≡ true = ground (arith, area.0) in
    rw sane (
      Ends-bind
        (insert_behind-Inserted 0 none v mm.mmap_list tt (omega arith) area valid.areas apart)
        λ vs i. ends (record {
          valid = record {
            areas = i.areas;
            counted = ground (arith, valid.counted, i.counted);
            cache = elim valid.cache [
              | inl empty ↦ inl empty
              | inr (w, e) ↦
                  let other =
                    area_at-ne mm.mmap_cache v.ptr mm.mmap_list e
                      (Apart-NotAt v mm.mmap_list apart) in
                  inr (w, i.found mm.mmap_cache other ∙ e)
            ];
          };
          inserted = i;
          cache = refl;
        }))
