-- ===== src/Links/Chain.antt =====
-- A chain of entries, and what writes to the links leave of it.
use os_edf.Prelude.{ℕ, ◌≡◌, ◌≢◌, List, [], ◌∷◌, ◌++◌, arith}
use os_edf.Links.{Links, set_next, set_prev}

abbrev pub NotIn : ℕ → List ℕ → Type 0
NotIn z [] = Unit
NotIn z (x ∷ xs) = (z ≢ x) × NotIn z xs

abbrev pub Distinct : List ℕ → Type 0
Distinct [] = Unit
Distinct (x ∷ xs) = NotIn x xs × Distinct xs

-- From a through xs to b by `next`, and back by `prev`.
abbrev pub Chain : Links → ℕ → List ℕ → ℕ → Type 0
Chain l a [] b = (l.next a ≡ b) × (l.prev b ≡ a)
Chain l a (x ∷ xs) b = (l.next a ≡ x) × (l.prev x ≡ a) × Chain l x xs b

pub Chain-set_next :
    (l : Links) (p v a : ℕ) (xs : List ℕ) (b : ℕ)
    → p ≢ a
    → NotIn p xs
    → Chain l a xs b
    → Chain (set_next p v l) a xs b
Chain-set_next l p v a [] b h n c = (ground arith, c.1)
Chain-set_next l p v a (x ∷ xs) b h n c =
    (ground arith, c.1, Chain-set_next l p v x xs b n.0 n.1 c.2)

pub Chain-set_prev :
    (l : Links) (p v a : ℕ) (xs : List ℕ) (b : ℕ)
    → p ≢ b
    → NotIn p xs
    → Chain l a xs b
    → Chain (set_prev p v l) a xs b
Chain-set_prev l p v a [] b h n c = (c.0, ground arith)
Chain-set_prev l p v a (x ∷ xs) b h n c = (c.0, ground arith, Chain-set_prev l p v x xs b h n.1 c.2)

-- The last entry before b is one of the chain's, and so is not z.
pub Chain-prev_end :
    (l : Links) (a : ℕ) (xs : List ℕ) (b z : ℕ) → Chain l a xs b → z ≢ a → NotIn z xs → z ≢ l.prev b
Chain-prev_end l a [] b z c h n = rw c.1 h
Chain-prev_end l a (x ∷ xs) b z c h n = Chain-prev_end l x xs b z c.2 n.0 n.1

-- Taking an entry out of a chain's middle, from its neighbours.
pub Chain-next_start :
    (l : Links) (a : ℕ) (xs : List ℕ) (b z : ℕ) → Chain l a xs b → z ≢ b → NotIn z xs → z ≢ l.next a
Chain-next_start l a [] b z c h n = rw c.0 h
Chain-next_start l a (x ∷ xs) b z c h n = rw c.0 n.0

pub Chain-split :
    (l : Links) (a : ℕ) (xs : List ℕ) (x : ℕ) (ys : List ℕ) (b : ℕ)
    → Chain l a (xs ++ x ∷ ys) b
    → Chain l a xs x × Chain l x ys b
Chain-split l a [] x ys b c = ((c.0, c.1), c.2)
Chain-split l a (w ∷ xs) x ys b c =
    let rest = Chain-split l w xs x ys b c.2 in ((c.0, c.1, rest.0), rest.1)

pub Chain-append :
    (l : Links) (a : ℕ) (xs : List ℕ) (x : ℕ) (ys : List ℕ) (b : ℕ)
    → Chain l a xs x
    → Chain l x ys b
    → Chain l a (xs ++ x ∷ ys) b
Chain-append l a [] x ys b c d = (c.0, c.1, d)
Chain-append l a (w ∷ xs) x ys b c d = (c.0, c.1, Chain-append l w xs x ys b c.2 d)

pub NotIn-append : (z : ℕ) (xs ys : List ℕ) → NotIn z (xs ++ ys) → NotIn z xs × NotIn z ys
NotIn-append z [] ys n = (tt, n)
NotIn-append z (x ∷ xs) ys n = let rest = NotIn-append z xs ys n.1 in ((n.0, rest.0), rest.1)
