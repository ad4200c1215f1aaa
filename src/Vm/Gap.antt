-- ===== src/Vm/Gap.antt =====
-- get_unmapped_area gives the highest free range.
use os_edf.Prelude.{
  ℕ, ◌+◌, ◌-◌, ◌≤◌, ◌<◌, ◌≡◌, ◌≢◌, refl, sym, inl, inr, ◌∙◌, Bool-cases, true, false, ◌||◌, List,
  [], ◌∷◌, arith, ltb, leb, ◌==◌, if◌then◌else◌,
}
use os_edf.Vm.{Vma, Mm, user_base, user_top}
use os_edf.Vm.Areas.{Areas, within, covered}
use os_edf.Vm.Space.{gap_walk, backwards, get_unmapped_area}

-- The areas from the last one on: each ends where the one behind it starts, or before.
abbrev pub Falling : ℕ → List Vma → Type 0
Falling hi [] = Unit
Falling hi (v ∷ vs) =
    (v.vm_end ≤ hi) × (v.vm_start < v.vm_end) × (user_base ≤ v.vm_start) × Falling v.vm_start vs

Falling-higher : (lo hi : ℕ) (vs : List Vma) → lo ≤ hi → Falling lo vs → Falling hi vs
Falling-higher lo hi [] h f = tt
Falling-higher lo hi (v ∷ vs) h f = (omega (arith, h, f.0), f.1, f.2, f.3)

covered-above : (hi a : ℕ) (vs : List Vma) → Falling hi vs → hi ≤ a → covered a vs ≡ false
unfolding covered
covered-above hi a [] f h = refl
covered-above hi a (v ∷ vs) f h =
    ground (arith, f.0, f.1, covered-above v.vm_start a vs f.3 (omega (arith, f.0, f.1)))

-- An area that the list from `end` on is behind, put in front of those that lie below it
backwards-Falling :
    (mid : ℕ) (vs rs : List Vma)
    → user_base ≤ mid
    → Areas mid vs
    → Falling mid rs
    → (hi : ℕ) × Falling hi (backwards vs rs)
unfolding backwards
backwards-Falling mid [] rs b areas f = (mid, f)
backwards-Falling mid (v ∷ vs) rs b areas f =
    backwards-Falling v.vm_end vs (v ∷ rs) (omega (arith, areas.0, areas.1.0)) areas.3
      (omega arith, areas.1.0, omega (arith, areas.0), Falling-higher mid v.vm_start rs areas.0 f)

backwards-covered :
    (a : ℕ) (vs rs : List Vma) → covered a (backwards vs rs) ≡ (covered a vs || covered a rs)
unfolding backwards covered
backwards-covered a [] rs = refl
backwards-covered a (v ∷ vs) rs = let rest = backwards-covered a vs (v ∷ rs) in ground (arith, rest)

-- Free from s on, and no range that starts between s and `start` is.
pub record Highest (len start s : ℕ) (vs : List Vma) : Type 0 where
  pub low : s ≢ 0 → (s ≤ start) × (user_base ≤ s)
  pub free : s ≢ 0 → (a : ℕ) → within s (s + len) a ≡ true → covered a vs ≡ false
  pub best :
      (s' : ℕ)
      → s < s'
      → user_base ≤ s'
      → s' ≤ start
      → (a : ℕ) × (within s' (s' + len) a ≡ true) × (covered a vs ≡ true)

-- The range is behind the last area.
above-Highest :
    (len start hi : ℕ) (v : Vma) (vs : List Vma)
    → Falling hi (v ∷ vs)
    → v.vm_end ≤ start
    → Highest len start start (v ∷ vs)
above-Highest len start hi v vs f h = record {
  low = λ _. (omega arith, omega (arith, f.1, f.2));
  free = λ _ a w. covered-above start a (v ∷ vs) (h, f.1, f.2, f.3) (ground (arith, w));
  best = λ s' more base at_most. absurd (omega (arith, more, at_most));
}

-- A range that reaches into the area
crossing :
    (len s : ℕ) (v : Vma) (vs : List Vma)
    → 0 < len
    → s < v.vm_end
    → v.vm_start < s + len
    → v.vm_start < v.vm_end
    → (a : ℕ) × (within s (s + len) a ≡ true) × (covered a (v ∷ vs) ≡ true)
unfolding covered
crossing len s v vs pos_len below crosses sane =
    let a = if leb s v.vm_start then v.vm_start else s in (a, ground arith, ground arith)

-- No range is small enough to lie in front of the area.
small-Highest :
    (len start : ℕ) (v : Vma) (vs : List Vma)
    → 0 < len
    → start < v.vm_end
    → v.vm_start ≤ len
    → v.vm_start < v.vm_end
    → Highest len start 0 (v ∷ vs)
small-Highest len start v vs pos_len meets small sane = record {
  low = λ n. absurd (n refl);
  free = λ n. absurd (n refl);
  best = λ s' more base at_most.
      crossing len s' v vs pos_len (omega (arith, at_most, meets)) (omega (arith, small, base))
        sane;
}

-- The last area is in the way: what is free in front of it is free, and nothing else.
blocked-Highest :
    (len start start₁ s : ℕ) (v : Vma) (vs : List Vma)
    → 0 < len
    → start < v.vm_end
    → (start₁ ≤ start) × (start₁ + len ≤ v.vm_start)
    → ((s' : ℕ) → user_base ≤ s' → s' ≤ start → s' + len ≤ v.vm_start → s' ≤ start₁)
    → v.vm_start < v.vm_end
    → Highest len start₁ s vs
    → Highest len start s (v ∷ vs)
unfolding covered
blocked-Highest len start start₁ s v vs pos_len meets lower all sane rest = record {
  low = λ n. let (l, b) = rest.low n in (omega (arith, l, lower.0), b);
  free = λ n a w.
      let (l, b) = rest.low n in let free = rest.free n a w in ground (arith, free, l, lower.1, w);
  best = λ s' more base at_most. elim (Bool-cases (leb (s' + len) v.vm_start)) [
    | inl before ↦
        let (a, w, c) = rest.best s' more base (all s' base at_most (ground arith)) in
        (a, w, ground (arith, c))
    | inr crosses ↦
        crossing len s' v vs pos_len (omega (arith, at_most, meets)) (ground (arith, crosses)) sane
  ];
}

gap_walk-Highest :
    (len start hi : ℕ) (vs : List Vma)
    → 0 < len
    → Falling hi vs
    → Highest len start (gap_walk len start vs) vs
unfolding gap_walk covered
gap_walk-Highest len start hi [] pos_len f = elim (Bool-cases (leb user_base start)) [
  | inl fits ↦ rw fits (record {
    low = λ _. (omega arith, ground arith);
    free = λ _ a h. refl;
    best = λ s' more base h. absurd (omega (arith, more, h));
  })
  | inr under ↦ rw under (record {
    low = λ n. absurd (n refl);
    free = λ n. absurd (n refl);
    best = λ s' more base h. absurd (ground (arith, base, h));
  })
]
gap_walk-Highest len start hi (v ∷ vs) pos_len f = elim (Bool-cases (leb v.vm_end start)) [
  | inl above ↦ rw above (above-Highest len start hi v vs f (ground arith))
  | inr meets ↦
      let behind : start < v.vm_end = ground arith in
      elim (Bool-cases (ltb v.vm_start (start + len))) [
        | inr fits ↦
            rw (meets, fits)
              (blocked-Highest len start start _ v vs pos_len behind (omega arith, ground arith)
                (λ s' base at_most before. at_most) f.1
                (gap_walk-Highest len start v.vm_start vs pos_len f.3))
        | inl crosses ↦ elim (Bool-cases (leb v.vm_start len)) [
          | inl small ↦
              rw (meets, crosses, small)
                (small-Highest len start v vs pos_len behind (ground arith) f.1)
          | inr room ↦
              rw (meets, crosses, room)
                (blocked-Highest len start (v.vm_start - len) _ v vs pos_len behind
                  (ground arith, ground arith) (λ s' base at_most before. omega (arith, before)) f.1
                  (gap_walk-Highest len (v.vm_start - len) v.vm_start vs pos_len f.3))
        ]
      ]
]

backwards-covers : (a : ℕ) (vs : List Vma) → covered a (backwards vs []) ≡ covered a vs
unfolding covered
backwards-covers a vs = let e = backwards-covered a vs [] in ground (arith, e)

-- If all areas lie in user space, sorted and disjoint, and the length is positive and at most
-- USERTOP, a result of get_unmapped_area other than 0 is a start from which the length fits
-- below USERTOP, is not below USERBASE, and has no covered address; and every user range of that
-- length that starts higher than the result, or any at all if it is 0, has a covered address.
pub get_unmapped_area-Highest :
    (len : ℕ) (mm : Mm)
    → Areas user_base mm.mmap_list
    → 0 < len
    → len ≤ user_top
    → Highest len (user_top - len) (get_unmapped_area len mm) mm.mmap_list
unfolding get_unmapped_area
get_unmapped_area-Highest len mm areas pos_len fits =
    let (hi, f) = backwards-Falling user_base mm.mmap_list [] (omega arith) areas tt in
    let h = gap_walk-Highest len (user_top - len) hi (backwards mm.mmap_list []) pos_len f in
    let e : (len == 0 || ltb user_top len) ≡ false = ground arith in
    rw e (record {
      low = h.low;
      free = λ n a w. sym (backwards-covers a mm.mmap_list) ∙ h.free n a w;
      best = λ s' more base at_most.
          let (a, w, c) = h.best s' more base at_most in
          (a, w, sym (backwards-covers a mm.mmap_list) ∙ c);
    })
