-- ===== src/Vm/Access.antt =====
-- user_mem_check, and the page faults of the addresses that it lets pass.
use os_edf.Prelude.{
  ℕ, zero, suc, ◌+◌, ◌%◌, ◌^◌, ◌≤◌, ◌<◌, ◌≡◌, refl, sym, subst, ◌⊎◌, inl, inr, ◌∙◌, Bool,
  Bool-cases, true, false, not, ◌&&◌, ◌||◌, List, [], ◌∷◌, Option, Option-cases, none, some, arith,
  ltb, leb, if◌then◌else◌, length,
}
use os_edf.Prelude.Run.{Ends, ends, Ends-bind, Ends-map, Ends-if}
use os_edf.Vm.{Vma, Mm, page_size, first_after, has_flag, vm_stack, user_access}
use os_edf.Vm.Areas.{within, IsValid}
use os_edf.Vm.Find.{find_vma-Found}
use os_edf.Vm.Space.{access_flag, mem_loop, user_mem_check}

-- The address a of the area v may be accessed.
abbrev pub area_allows : Bool → ℕ → Vma → Bool
area_allows write a v =
    leb v.vm_start a
    && (has_flag v.vm_flags (access_flag write)
        && not (write && has_flag v.vm_flags vm_stack && ltb a (v.vm_start + page_size)))

abbrev pub found_allows : Bool → ℕ → Option Vma → Bool
found_allows write a none = false
found_allows write a (some v) = area_allows write a v

-- The same for the area that holds a, if there is one
abbrev pub allowed : Bool → ℕ → List Vma → Bool
allowed write a vs = found_allows write a (first_after a vs)

-- The areas that end behind an address
unfoldable pub remaining : ℕ → List Vma → ℕ
remaining a [] = 0
remaining a (v ∷ vs) = if ltb a v.vm_end then suc (remaining a vs) else remaining a vs

remaining-later : (a b : ℕ) (vs : List Vma) → a ≤ b → remaining b vs ≤ remaining a vs
unfolding remaining
remaining-later a b [] h = omega arith
remaining-later a b (v ∷ vs) h = ground (arith, remaining-later a b vs h)

remaining-length : (a : ℕ) (vs : List Vma) → remaining a vs ≤ length vs
unfolding remaining
remaining-length a [] = omega arith
remaining-length a (v ∷ vs) = ground (arith, remaining-length a vs)

-- Behind the area that is found there are fewer.
remaining-first_after :
    (a : ℕ) (vs : List Vma) (v : Vma)
    → first_after a vs ≡ some v
    → (a < v.vm_end) × (remaining v.vm_end vs < remaining a vs)
unfolding remaining first_after
remaining-first_after a [] v e = absurd (cc)
remaining-first_after a (x ∷ vs) v e = elim (Bool-cases (ltb a x.vm_end)) [
  | inl here ↦
      let same : x ≡ v = let e' = rw here at e in cc in
      let late = remaining-later a x.vm_end vs (ground arith) in
      subst (λ (w : Vma). (a < w.vm_end) × (remaining w.vm_end (x ∷ vs) < remaining a (x ∷ vs)))
        same (ground arith, ground (arith, late))
  | inr there ↦
      let rest = remaining-first_after a vs v (rw there at e) in
      (rest.0, ground (arith, rest.0, rest.1))
]

-- The same area for all addresses up to its end
first_after-same :
    (a b : ℕ) (vs : List Vma) (v : Vma)
    → first_after a vs ≡ some v
    → a ≤ b
    → b < v.vm_end
    → first_after b vs ≡ some v
unfolding first_after
first_after-same a b [] v e h g = absurd (cc)
first_after-same a b (x ∷ vs) v e h g = elim (Bool-cases (ltb a x.vm_end)) [
  | inl here ↦
      let same : x ≡ v = let e' = rw here at e in cc in
      let near = subst (λ (w : Vma). b < w.vm_end) (sym same) g in ground (arith, e)
  | inr there ↦ let rest = first_after-same a b vs v (rw there at e) h g in ground arith
]

-- What a check of a range says of it
pub record Checked (write : Bool) (start end : ℕ) (mm : Mm) (r : Bool × Mm) : Type 0 where
  pub valid : IsValid r.1
  pub same : r.1.mmap_list ≡ mm.mmap_list
  pub passes :
      r.0 ≡ true → (a : ℕ) → within start end a ≡ true → allowed write a mm.mmap_list ≡ true
  pub fails :
      r.0 ≡ false → (a : ℕ) × (within start end a ≡ true) × (allowed write a mm.mmap_list ≡ false)

-- The area is fine from the start on, and so is the rest of the range behind it.
allowed-split :
    (write : Bool) (start end a : ℕ) (vs : List Vma) (v : Vma)
    → first_after start vs ≡ some v
    → area_allows write start v ≡ true
    → (within v.vm_end end a ≡ true → allowed write a vs ≡ true)
    → within start end a ≡ true
    → allowed write a vs ≡ true
allowed-split write start end a vs v e fine rest h = elim (Bool-cases (ltb a v.vm_end)) [
  | inl near ↦
      let same = first_after-same start a vs v e (ground arith) (ground arith) in
      rw same (ground arith)
  | inr far ↦ rest (ground arith)
]

-- The test of the loop is the opposite of area_allows.
test-bars :
    (a b : ℕ) (flag guard : Bool)
    → (ltb a b || not flag || guard) ≡ true
    → (leb b a && (flag && not guard)) ≡ false
test-bars a b flag guard h = ground arith

test-passes :
    (a b : ℕ) (flag guard : Bool)
    → (ltb a b || not flag || guard) ≡ false
    → (leb b a && (flag && not guard)) ≡ true
test-passes a b flag guard h = ground arith

mem_loop-Checked :
    (fuel : ℕ) (write : Bool) (start end : ℕ) (mm : Mm)
    → IsValid mm
    → remaining start mm.mmap_list < fuel
    → Ends (Checked write start end mm) (mem_loop fuel write start end mm)
unfolding mem_loop
mem_loop-Checked zero write start end mm valid enough = absurd (omega (arith, enough))
mem_loop-Checked (suc fuel) write start end mm valid enough =
    Ends-if (ltb start end)
      (λ some_left.
        let here : within start end start ≡ true = ground arith in
        Ends-bind (find_vma-Found start mm valid) λ (found, mm₁) f. elim (Option-cases found) [
          | inl none_found ↦
              let e : first_after start mm.mmap_list ≡ none = sym f.result ∙ none_found in
              rw none_found (
                ends (record {
                  valid = f.valid;
                  same = f.same;
                  passes = λ h. absurd (cc);
                  fails = λ _. (start, here, rw e refl);
                }))
          | inr (v, one) ↦
              let e : first_after start mm.mmap_list ≡ some v = sym f.result ∙ one in
              let (later, fewer) = remaining-first_after start mm.mmap_list v e in
              let enough₁ : remaining v.vm_end mm₁.mmap_list < fuel =
                rw f.same (omega (arith, enough, fewer)) in
              rw one (
                Ends-if
                  (ltb start v.vm_start
                    || not (has_flag v.vm_flags (access_flag write))
                    || (write
                        && has_flag v.vm_flags vm_stack
                        && ltb start (v.vm_start + page_size)))
                  (λ bad. ends (record {
                    valid = f.valid;
                    same = f.same;
                    passes = λ h. absurd (cc);
                    fails = λ _. (start, here, rw e (test-bars start v.vm_start _ _ bad));
                  }))
                  (λ good.
                    let fine : area_allows write start v ≡ true =
                      test-passes start v.vm_start _ _ good in
                    Ends-map (mem_loop-Checked fuel write v.vm_end end mm₁ f.valid enough₁) λ r c.
                      record {
                        valid = c.valid;
                        same = c.same ∙ f.same;
                        passes = λ h a.
                            allowed-split write start end a mm.mmap_list v e fine
                              λ w. subst (λ l. allowed write a l ≡ true) f.same (c.passes h a w);
                        fails = λ h.
                            let (a, w, bars) = c.fails h in
                            (
                              a,
                              ground (arith, w, later),
                              subst (λ l. allowed write a l ≡ false) f.same bars,
                            );
                      }))
        ])
      λ empty. ends (record {
        valid = valid;
        same = refl;
        passes = λ _ a h. absurd (ground arith);
        fails = λ h. absurd (cc);
      })

-- What user_mem_check says of the range from addr on
pub record UserChecked (write : Bool) (addr end : ℕ) (mm : Mm) (r : Bool × Mm) : Type 0 where
  pub valid : IsValid r.1
  pub same : r.1.mmap_list ≡ mm.mmap_list
  pub passes :
      r.0 ≡ true
      → (user_access addr end ≡ true)
        × ((a : ℕ) → within addr end a ≡ true → allowed write a mm.mmap_list ≡ true)
  pub fails :
      r.0 ≡ false
      → (user_access addr end ≡ false)
        ⊎ ((a : ℕ) × (within addr end a ≡ true) × (allowed write a mm.mmap_list ≡ false))

-- On valid areas, with fuel above their number, user_mem_check ends with the same valid areas;
-- if it passes, the range is a user range and every address of it lies in an area that has the
-- flag of the access and, for a write, is not in the lowest page of a stack area; if it fails,
-- the range is no user range or some address of it is not so.
pub user_mem_check-Checked :
    (fuel addr len : ℕ) (write : Bool) (mm : Mm)
    → IsValid mm
    → length mm.mmap_list < fuel
    → Ends
        (UserChecked write addr ((addr + len) % 2 ^ 32) mm)
        (user_mem_check fuel addr len write mm)
unfolding user_mem_check
user_mem_check-Checked fuel addr len write mm valid enough =
    let end = (addr + len) % 2 ^ 32 in
    let count = remaining-length addr mm.mmap_list in
    Ends-if (user_access addr end)
      (λ user.
        Ends-map (mem_loop-Checked fuel write addr end mm valid (omega (arith, enough, count)))
          λ r c. record {
            valid = c.valid;
            same = c.same;
            passes = λ h. (user, c.passes h);
            fails = λ h. inr (c.fails h);
          })
      λ outside.
        ends (record {
          valid = valid;
          same = refl;
          passes = λ h. absurd (cc);
          fails = λ _. inl outside;
        })
