-- ===== src/Vm/Faults.antt =====
-- The page faults of the addresses that user_mem_check lets pass
use os_edf.Prelude.{
  ℕ, ◌+◌, ◌%◌, ◌^◌, ◌<◌, ◌≡◌, refl, sym, ap, ◌⊎◌, inl, inr, ◌∙◌, Bool, Bool-cases, true, false,
  ◌&&◌, List, Option, Option-cases, none, some, arith, ltb, if◌then◌else◌, length,
}
use os_edf.Prelude.Run.{Ends, ends, Ends-bind, Ends-map}
use os_edf.Vm.{Vma, Mm, page_size, first_after, has_flag, vm_stack, vm_write}
use os_edf.Vm.Areas.{within, IsValid}
use os_edf.Vm.Find.{find_vma-Found}
use os_edf.Vm.Access.{area_allows, allowed, user_mem_check-Checked}
use os_edf.Vm.Space.{user_mem_check, fault_perm, pgfault_area, pte_u, pte_w}

-- The code of a fault at a page that is not present
abbrev pub error_code : Bool → ℕ
error_code write = if write then 2 else 0

-- a lies in the lowest page of a stack area.
abbrev pub InGuard : ℕ → List Vma → Type 0
InGuard a vs =
    (v : Vma) × (first_after a vs ≡ some v)
    × (has_flag v.vm_flags vm_stack ≡ true)
    × (a < v.vm_start + page_size)

-- An address that may be accessed, and is not such a one, gets a page.
area_allows-fault :
    (write : Bool) (a : ℕ) (v : Vma)
    → area_allows write a v ≡ true
    → ((write ≡ false) × (has_flag v.vm_flags vm_stack ≡ true) × (a < v.vm_start + page_size))
      ⊎ ((perm : ℕ) × (fault_perm (error_code write) a v ≡ some perm)
          × (write ≡ true → perm ≡ pte_u + pte_w))
area_allows-fault true a v h = inr (pte_u + pte_w, ground arith, λ _. refl)
area_allows-fault false a v h =
    elim (Bool-cases (has_flag v.vm_flags vm_stack && ltb a (v.vm_start + page_size))) [
      | inl guard ↦ inl (refl, ground arith, ground arith)
      | inr clear ↦ inr (
        (if has_flag v.vm_flags vm_write then pte_u + pte_w else pte_u),
        ground arith,
        λ w. absurd (cc),
      )
    ]

guard-fault :
    (code a : ℕ) (v : Vma)
    → has_flag v.vm_flags vm_stack ≡ true
    → a < v.vm_start + page_size
    → fault_perm code a v ≡ none
guard-fault code a v stack low = elim (Bool-cases (ltb a v.vm_start)) [
  | inl out ↦ rw out refl
  | inr in_it ↦
      let l : ltb a (v.vm_start + page_size) ≡ true = ground arith in rw (in_it, stack, l) refl
]

-- A fault at an address that user_mem_check lets pass
abbrev pub Served : Bool → ℕ → Mm → Option ℕ × Mm → Type 0
Served write a mm r =
    ((write ≡ false) × InGuard a mm.mmap_list × (r.0 ≡ none))
    ⊎ ((perm : ℕ) × (r.0 ≡ some perm) × (write ≡ true → perm ≡ pte_u + pte_w))

pub allowed-Served :
    (write : Bool) (a : ℕ) (mm mm₁ : Mm)
    → IsValid mm₁
    → mm₁.mmap_list ≡ mm.mmap_list
    → allowed write a mm.mmap_list ≡ true
    → Ends (Served write a mm) (pgfault_area (error_code write) a mm₁)
unfolding pgfault_area
allowed-Served write a mm mm₁ valid same h =
    Ends-bind (find_vma-Found a mm₁ valid) λ (found, mm₂) f.
      let e : found ≡ first_after a mm.mmap_list = f.result ∙ ap (first_after a) same in
      elim (Option-cases found) [
        | inl none_found ↦ absurd (let e' = sym e ∙ none_found in let h' = rw e' at h in cc)
        | inr (v, one) ↦
            let e' = sym e ∙ one in
            let fine : area_allows write a v ≡ true = rw e' at h in
            rw one (
              ends (elim (area_allows-fault write a v fine) [
                | inl (w, stack, low) ↦
                    inl (w, (v, e', stack, low), guard-fault (error_code write) a v stack low)
                | inr (perm, p, q) ↦ inr (perm, p, q)
              ]))
      ]

-- On valid areas, with fuel above their number, user_mem_check ends, and if it passes, then a
-- page fault of that access at any address of the range finds its area and the permission of its
-- page, which is writable for a write; except for a read in the lowest page of a stack area,
-- which the page fault refuses.
pub user_mem_check-Served :
    (fuel addr len : ℕ) (write : Bool) (mm : Mm)
    → IsValid mm
    → length mm.mmap_list < fuel
    → Ends
        (λ r.
          r.0 ≡ true
          → (a : ℕ) → within addr ((addr + len) % 2 ^ 32) a ≡ true
          → Ends (Served write a mm) (pgfault_area (error_code write) a r.1))
        (user_mem_check fuel addr len write mm)
user_mem_check-Served fuel addr len write mm valid enough =
    Ends-map (user_mem_check-Checked fuel addr len write mm valid enough)
      λ r c h a w. allowed-Served write a mm r.1 c.valid c.same ((c.passes h).1 a w)
