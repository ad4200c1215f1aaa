-- ===== src/Links/Ring.antt =====
-- The lists of libs/list.h as sequences: what every operation does to the entries of a list head.
use os_edf.Prelude.{ℕ, ◌↔◌, ◌≡◌, ◌≢◌, refl, sym, subst, List, [], ◌∷◌, ◌++◌, true, arith}
use os_edf.Links.{
  Links, set_next, set_prev, link_between, unlink_between, list_init, list_add_before,
  list_add_after, list_del, list_del_init, list_empty,
}
use os_edf.Links.Chain.{
  NotIn, Distinct, Chain, Chain-set_next, Chain-set_prev, Chain-prev_end, Chain-next_start,
  Chain-split,
}

-- The entries of the list with head h, from its next one on.
abbrev pub Ring : Links → ℕ → List ℕ → Type 0
Ring l h xs = Chain l h xs h × NotIn h xs × Distinct xs

-- The entry that stands in front of ys, and the one behind xs.
abbrev pub head_or : List ℕ → ℕ → ℕ
head_or [] b = b
head_or (y ∷ ys) b = y

abbrev pub last_or : ℕ → List ℕ → ℕ
last_or a [] = a
last_or a (x ∷ xs) = last_or x xs

prev-head_or :
    (l : Links) (a : ℕ) (xs ys : List ℕ) (b : ℕ)
    → Chain l a (xs ++ ys) b
    → l.prev (head_or ys b) ≡ last_or a xs
prev-head_or l a [] [] b c = c.1
prev-head_or l a [] (y ∷ ys) b c = c.1
prev-head_or l a (x ∷ xs) ys b c = prev-head_or l x xs ys b c.2

next-last_or :
    (l : Links) (a : ℕ) (xs ys : List ℕ) (b : ℕ)
    → Chain l a (xs ++ ys) b
    → l.next (last_or a xs) ≡ head_or ys b
next-last_or l a [] [] b c = c.0
next-last_or l a [] (y ∷ ys) b c = c.0
next-last_or l a (x ∷ xs) ys b c = next-last_or l x xs ys b c.2

pub NotIn-last_or : (z a : ℕ) (xs : List ℕ) → z ≢ a → NotIn z xs → z ≢ last_or a xs
NotIn-last_or z a [] h n = h
NotIn-last_or z a (x ∷ xs) h n = NotIn-last_or z x xs n.0 n.1

pub NotIn-head_or : (z : ℕ) (ys : List ℕ) (b : ℕ) → z ≢ b → NotIn z ys → z ≢ head_or ys b
NotIn-head_or z [] b h n = h
NotIn-head_or z (y ∷ ys) b h n = n.0

pub NotIn-parts : (z : ℕ) (xs ys : List ℕ) → NotIn z (xs ++ ys) → NotIn z xs × NotIn z ys
NotIn-parts z [] ys n = (tt, n)
NotIn-parts z (x ∷ xs) ys n = let rest = NotIn-parts z xs ys n.1 in ((n.0, rest.0), rest.1)

Chain-link :
    (l : Links) (elm a : ℕ) (xs ys : List ℕ) (b : ℕ)
    → elm ≢ a
    → elm ≢ b
    → NotIn elm (xs ++ ys)
    → NotIn a (xs ++ ys)
    → NotIn b (xs ++ ys)
    → Distinct (xs ++ ys)
    → Chain l a (xs ++ ys) b
    → Chain (link_between elm (last_or a xs) (head_or ys b) l) a (xs ++ elm ∷ ys) b
unfolding link_between
Chain-link l elm a [] [] b e f n p q d c =
    (ground arith, ground arith, (ground arith, ground arith))
Chain-link l elm a [] (y ∷ ys) b e f n p q d c =
    let l₁ = set_prev y elm l in
    let l₂ = set_next a elm l₁ in
    let l₃ = set_next elm y l₂ in
    let c₁ = Chain-set_prev l y elm y ys b (omega arith) d.0 c.2 in
    let c₂ = Chain-set_next l₁ a elm y ys b p.0 p.1 c₁ in
    let c₃ = Chain-set_next l₂ elm y y ys b n.0 n.1 c₂ in
    let c₄ = Chain-set_prev l₃ elm a y ys b f n.1 c₃ in
    let differs : elm ≢ y = n.0 in (ground arith, ground arith, (ground arith, ground arith, c₄))
Chain-link l elm a (w ∷ xs) ys b e f n p q d c =
    let w_parts = NotIn-parts w xs ys d.0 in
    let a_parts = NotIn-parts a xs ys p.1 in
    let before : a ≢ last_or w xs = NotIn-last_or a w xs p.0 a_parts.0 in
    let behind : w ≢ head_or ys b = NotIn-head_or w ys b (omega arith) w_parts.1 in
    let differs : elm ≢ w = n.0 in
    (ground (arith, c.0), ground (arith, c.1), Chain-link l elm w xs ys b n.0 f n.1 d.0 q.1 d.1 c.2)

-- The chain without an entry x, whose neighbours are the last of xs and the first of ys.
Chain-unlink :
    (l : Links) (a : ℕ) (xs ys : List ℕ) (b x : ℕ)
    → NotIn a (xs ++ ys)
    → NotIn b (xs ++ ys)
    → Distinct (xs ++ ys)
    → Chain l a xs x
    → Chain l x ys b
    → Chain (unlink_between (l.prev x) (l.next x) l) a (xs ++ ys) b
unfolding unlink_between
Chain-unlink l a [] [] b x p q d c e = rw c.1 rw e.0 (ground arith, ground arith)
Chain-unlink l a [] (y ∷ ys) b x p q d c e =
    let away : NotIn (l.prev x) ys = subst (λ z. NotIn z ys) (sym c.1) p.1 in
    let alone : NotIn (l.next x) ys = subst (λ z. NotIn z ys) (sym e.0) d.0 in
    let l₁ = set_next (l.prev x) (l.next x) l in
    let c₁ = Chain-set_next l (l.prev x) (l.next x) y ys b (omega arith) away e.2 in
    let c₂ = Chain-set_prev l₁ (l.next x) (l.prev x) y ys b (omega arith) alone c₁ in
    (ground (arith, c.1, e.0), ground (arith, c.1, e.0), c₂)
Chain-unlink l a (w ∷ xs) ys b x p q d c e =
    let w_parts = NotIn-parts w xs ys d.0 in
    let a_parts = NotIn-parts a xs ys p.1 in
    let before : a ≢ l.prev x = Chain-prev_end l w xs x a c.2 p.0 a_parts.0 in
    let behind : w ≢ l.next x = Chain-next_start l x ys b w e (omega arith) w_parts.1 in
    (ground (arith, c.0), ground (arith, c.1), Chain-unlink l w xs ys b x d.0 q.1 d.1 c.2 e)

NotIn-insert :
    (z elm : ℕ) (xs ys : List ℕ) → z ≢ elm → NotIn z (xs ++ ys) → NotIn z (xs ++ elm ∷ ys)
NotIn-insert z elm [] ys h n = (h, n)
NotIn-insert z elm (x ∷ xs) ys h n = (n.0, NotIn-insert z elm xs ys h n.1)

Distinct-insert :
    (elm : ℕ) (xs ys : List ℕ)
    → NotIn elm (xs ++ ys)
    → Distinct (xs ++ ys)
    → Distinct (xs ++ elm ∷ ys)
Distinct-insert elm [] ys n d = (n, d)
Distinct-insert elm (x ∷ xs) ys n d =
    (NotIn-insert x elm xs ys (omega arith) d.0, Distinct-insert elm xs ys n.1 d.1)

pub NotIn-drop : (z x : ℕ) (xs ys : List ℕ) → NotIn z (xs ++ x ∷ ys) → (z ≢ x) × NotIn z (xs ++ ys)
NotIn-drop z x [] ys n = n
NotIn-drop z x (w ∷ xs) ys n = let rest = NotIn-drop z x xs ys n.1 in (rest.0, (n.0, rest.1))

pub Distinct-drop :
    (x : ℕ) (xs ys : List ℕ) → Distinct (xs ++ x ∷ ys) → NotIn x (xs ++ ys) × Distinct (xs ++ ys)
Distinct-drop x [] ys d = d
Distinct-drop x (w ∷ xs) ys d =
    let rest = Distinct-drop x xs ys d.1 in
    let apart = NotIn-drop w x xs ys d.0 in ((omega arith, rest.0), (apart.1, rest.1))

-- On a list of distinct entries, list_add_before of a new entry before any entry, or before the
-- head, puts it there and leaves the others in their order.
pub list_add_before-Ring :
    (l : Links) (h elm : ℕ) (xs ys : List ℕ)
    → elm ≢ h
    → NotIn elm (xs ++ ys)
    → Ring l h (xs ++ ys)
    → Ring (list_add_before (head_or ys h) elm l) h (xs ++ elm ∷ ys)
unfolding list_add_before
list_add_before-Ring l h elm xs ys e n r =
    let p : l.prev (head_or ys h) ≡ last_or h xs = prev-head_or l h xs ys h r.0 in
    rw p (
      Chain-link l elm h xs ys h e e n r.1 r.1 r.2 r.0,
      NotIn-insert h elm xs ys (omega arith) r.1,
      Distinct-insert elm xs ys n r.2,
    )

-- On a list of distinct entries, list_add_after of a new entry after any entry, or after the
-- head, puts it there and leaves the others in their order.
pub list_add_after-Ring :
    (l : Links) (h elm : ℕ) (xs ys : List ℕ)
    → elm ≢ h
    → NotIn elm (xs ++ ys)
    → Ring l h (xs ++ ys)
    → Ring (list_add_after (last_or h xs) elm l) h (xs ++ elm ∷ ys)
unfolding list_add_after
list_add_after-Ring l h elm xs ys e n r =
    let p : l.next (last_or h xs) ≡ head_or ys h = next-last_or l h xs ys h r.0 in
    rw p (
      Chain-link l elm h xs ys h e e n r.1 r.1 r.2 r.0,
      NotIn-insert h elm xs ys (omega arith) r.1,
      Distinct-insert elm xs ys n r.2,
    )

pub list_del-Ring :
    (l : Links) (h x : ℕ) (xs ys : List ℕ)
    → Ring l h (xs ++ x ∷ ys)
    → Ring (list_del x l) h (xs ++ ys)
unfolding list_del
list_del-Ring l h x xs ys r =
    let parts = Chain-split l h xs x ys h r.0 in
    let apart = NotIn-drop h x xs ys r.1 in
    let kept = Distinct-drop x xs ys r.2 in
    (Chain-unlink l h xs ys h x apart.1 apart.1 kept.1 parts.0 parts.1, apart.1, kept.1)

-- On a list of distinct entries, list_del_init of any entry leaves the list of the others in
-- their order, and the entry as an empty list of its own.
pub list_del_init-Ring :
    (l : Links) (h x : ℕ) (xs ys : List ℕ)
    → Ring l h (xs ++ x ∷ ys)
    → Ring (list_del_init x l) h (xs ++ ys) × Ring (list_del_init x l) x []
unfolding list_del_init list_init
list_del_init-Ring l h x xs ys r =
    let s = list_del-Ring l h x xs ys r in
    let l₁ = list_del x l in
    let away = NotIn-drop h x xs ys r.1 in
    let off = Distinct-drop x xs ys r.2 in
    let c₁ = Chain-set_next l₁ x x h (xs ++ ys) h (omega arith) off.0 s.0 in
    let c₂ = Chain-set_prev (set_next x x l₁) x x h (xs ++ ys) h (omega arith) off.0 c₁ in
    ((c₂, s.1, s.2), ((ground arith, ground arith), tt, tt))

pub list_empty-Ring :
    (l : Links) (h : ℕ) (xs : List ℕ) → Ring l h xs → (list_empty h l ≡ true) ↔ (xs ≡ [])
unfolding list_empty
list_empty-Ring l h [] r = (λ e. refl, λ e. ground arith)
list_empty-Ring l h (x ∷ xs) r = (λ e. absurd (ground (arith, r.0.0, r.1.0)), λ e. absurd cc)
