-- ===== src/Vm/Index.antt =====
-- find_vma_rb of vmm.c: the search in the tree finds what the walk along the list finds.
use os_edf.Prelude.{
  ℕ, ◌≤◌, ◌≡◌, refl, ◌∙◌, Bool-cases, List, [], ◌∷◌, ◌++◌, Option, none, some, inl, inr, arith, ltb,
  leb, if◌then◌else◌,
}
use os_edf.Vm.{Vma, first_after, or_else}
use os_edf.Vm.Areas.{NotAt, Areas}

-- What rb_node_left and rb_node_right reach
pub data VmaTree : Type 0 where
  leaf : VmaTree
  node : VmaTree → Vma → VmaTree → VmaTree

-- From left to right
unfoldable pub in_order : VmaTree → List Vma
in_order leaf = []
in_order (node left v right) = in_order left ++ v ∷ in_order right

-- The loop, with the last area that was found to end behind the address
pub search_rb : ℕ → Option Vma → VmaTree → Option Vma
search_rb addr vma leaf = vma
search_rb addr vma (node left tmp right) =
    let smaller = search_rb addr (some tmp) left in
    let larger = search_rb addr vma right in
    if ltb addr tmp.vm_end then (if leb tmp.vm_start addr then some tmp else smaller) else larger

abbrev pub find_vma_rb : VmaTree → ℕ → Option Vma
find_vma_rb tree addr = search_rb addr none tree

first_after-append :
    (a : ℕ) (vs ws : List Vma)
    → first_after a (vs ++ ws) ≡ or_else (first_after a vs) (first_after a ws)
unfolding first_after
first_after-append a [] ws = refl
first_after-append a (v ∷ vs) ws = elim (Bool-cases (ltb a v.vm_end)) [
  | inl here ↦ rw here refl
  | inr there ↦ rw there (first_after-append a vs ws)
]

-- All areas in front of one end in front of it.
front-none :
    (lo a : ℕ) (vs : List Vma) (v : Vma) (ws : List Vma)
    → Areas lo (vs ++ v ∷ ws)
    → v.vm_start ≤ a
    → first_after a vs ≡ none
unfolding first_after
front-none lo a [] v ws areas h = refl
front-none lo a (x ∷ vs) v ws areas h =
    let rest = front-none x.vm_end a vs v ws areas.3 h in
    let low = front-low x.vm_end vs v ws areas.3 in ground (arith, rest, low)
  where
    front-low :
        (lo : ℕ) (vs : List Vma) (v : Vma) (ws : List Vma)
        → Areas lo (vs ++ v ∷ ws)
        → lo ≤ v.vm_start
    front-low lo [] v ws areas = areas.0
    front-low lo (x ∷ vs) v ws areas =
        let rest = front-low x.vm_end vs v ws areas.3 in omega (arith, rest, areas.0, areas.1.0)

Areas-front :
    (lo : ℕ) (vs ws : List Vma) → Areas lo (vs ++ ws) → (hi : ℕ) × Areas lo vs × Areas hi ws
Areas-front lo [] ws areas = (lo, tt, areas)
Areas-front lo (x ∷ vs) ws areas =
    let (hi, a, b) = Areas-front x.vm_end vs ws areas.3 in
    (hi, (areas.0, areas.1, NotAt-front x.ptr vs ws areas.2, a), b)
  where
    NotAt-front : (p : ℕ) (vs ws : List Vma) → NotAt p (vs ++ ws) → NotAt p vs
    NotAt-front p [] ws n = tt
    NotAt-front p (y ∷ vs) ws n = (n.0, NotAt-front p vs ws n.1)

search_rb-or_else :
    (lo addr : ℕ) (vma : Option Vma) (t : VmaTree)
    → Areas lo (in_order t)
    → search_rb addr vma t ≡ or_else (first_after addr (in_order t)) vma
unfolding search_rb in_order first_after
search_rb-or_else lo addr vma leaf areas = refl
search_rb-or_else lo addr vma (node l v r) areas =
    let (hi, a, b) = Areas-front lo (in_order l) (v ∷ in_order r) areas in
    let left = search_rb-or_else lo addr (some v) l a in
    let right = search_rb-or_else v.vm_end addr vma r b.3 in
    let split = first_after-append addr (in_order l) (v ∷ in_order r) in
    elim (Bool-cases (ltb addr v.vm_end)) [
      | inr past ↦
          let f = front-none lo addr (in_order l) v (in_order r) areas (ground (arith, b.1.0)) in
          rw (past, split, f, past) right
      | inl ahead ↦ elim (Bool-cases (leb v.vm_start addr)) [
        | inl holds ↦
            let f = front-none lo addr (in_order l) v (in_order r) areas (ground arith) in
            rw (ahead, holds, split, f, ahead) refl
        | inr before ↦
            rw (ahead, before, split, ahead) (left ∙ keep (first_after addr (in_order l)) v vma)
      ]
    ]
  where
    keep :
        (o : Option Vma) (v : Vma) (vma : Option Vma)
        → or_else o (some v) ≡ or_else (or_else o (some v)) vma
    keep none v vma = refl
    keep (some w) v vma = refl

-- On a tree whose areas are sorted and disjoint in its order from left to right, find_vma_rb
-- finds the same area as the walk along the sorted list.
pub find_vma_rb-first_after :
    (lo addr : ℕ) (t : VmaTree)
    → Areas lo (in_order t)
    → find_vma_rb t addr ≡ first_after addr (in_order t)
find_vma_rb-first_after lo addr t areas =
    search_rb-or_else lo addr none t areas ∙ or_none (first_after addr (in_order t))
  where
    or_none : (o : Option Vma) → or_else o none ≡ o
    or_none none = refl
    or_none (some v) = refl
