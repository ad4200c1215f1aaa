-- ===== src/Swap/Refill.antt =====
-- refill_inactive_scan moves exactly the pages that no page table maps.
use os_edf.Prelude.{
  ℕ, ◌≡◌, refl, sym, ap, subst, ◌∙◌, Bool, Bool-cases, true, false, not, inl, inr, ◌==◌,
  if◌then◌else◌, arith, List, [], ◌∷◌, ◌++◌, length,
}
use os_edf.Prelude.Run.{ok, ◌>>=◌, Ends, ends, Ends-map}
use os_edf.Buddy.{set_at, increment, decrement, remove_page}
use os_edf.Buddy.Cover.{listed}
use os_edf.Frames.{PhysicalMemory, page_ref}
use os_edf.Swap.{swap_list_del, swap_inactive_list_add, refill_loop, refill_inactive_scan}

-- The entries with a property, in their order
pub filter : (ℕ → Bool) → List ℕ → List ℕ
filter p [] = []
filter p (x ∷ xs) = if p x then x ∷ filter p xs else filter p xs

unfoldable pub Distinct : List ℕ → Type 0
Distinct [] = Unit
Distinct (x ∷ xs) = (listed x xs ≡ false) × Distinct xs

snoc-append : (xs ys : List ℕ) (x : ℕ) → (xs ++ x ∷ []) ++ ys ≡ xs ++ x ∷ ys
snoc-append [] ys x = refl
snoc-append (y ∷ xs) ys x = ap (λ l. y ∷ l) (snoc-append xs ys x)

append-nil : (xs : List ℕ) → xs ++ [] ≡ xs
append-nil [] = refl
append-nil (x ∷ xs) = ap (λ l. x ∷ l) (append-nil xs)

remove_page-middle :
    (p : ℕ) (xs ys : List ℕ) → listed p xs ≡ false → remove_page p (xs ++ p ∷ ys) ≡ xs ++ ys
unfolding remove_page listed
remove_page-middle p [] ys h = let self : (p == p) ≡ true = ground arith in rw self refl
remove_page-middle p (x ∷ xs) ys h =
    let other : (p == x) ≡ false = ground (arith, h) in
    let rest = remove_page-middle p xs ys (ground (arith, h)) in rw other (ap (λ l. x ∷ l) rest)

remove_page-absent : (p : ℕ) (xs : List ℕ) → listed p xs ≡ false → remove_page p xs ≡ xs
unfolding remove_page listed
remove_page-absent p [] h = refl
remove_page-absent p (x ∷ xs) h =
    let other : (p == x) ≡ false = ground (arith, h) in
    let rest = remove_page-absent p xs (ground (arith, h)) in rw other (ap (λ l. x ∷ l) rest)

listed-snoc :
    (q p : ℕ) (xs : List ℕ)
    → listed q xs ≡ false
    → (q == p) ≡ false
    → listed q (xs ++ p ∷ []) ≡ false
unfolding listed
listed-snoc q p [] h e = ground (arith, e)
listed-snoc q p (x ∷ xs) h e =
    let rest = listed-snoc q p xs (ground (arith, h)) e in ground (arith, h, rest)

listed-other : (p q : ℕ) (xs : List ℕ) → listed p xs ≡ false → listed q xs ≡ true → (q == p) ≡ false
listed-other p q xs h l = elim (Bool-cases (q == p)) [
  | inr e ↦ e
  | inl e ↦
      let same : q ≡ p = ground arith in
      let both = ap (λ x. listed x xs) same in absurd (ground (arith, h, l, both))
]

listed-tail : (q p : ℕ) (xs : List ℕ) → listed q xs ≡ true → listed q (p ∷ xs) ≡ true
unfolding listed
listed-tail q p xs h = ground (arith, h)

listed-head : (p : ℕ) (xs : List ℕ) → listed p (p ∷ xs) ≡ true
unfolding listed
listed-head p xs = ground arith

-- A page in memory that no page table maps
abbrev pub idle : PhysicalMemory → ℕ → Bool
idle m p = page_ref p m == 0

abbrev pub busy : PhysicalMemory → ℕ → Bool
busy m p = not (page_ref p m == 0)

-- The pages of the active list that the scan has not met yet, behind those it has left there
pub record Active (seen pages : List ℕ) (m : PhysicalMemory) : Type 0 where
  pub split : m.active_list.swap_list ≡ seen ++ pages
  pub flags : (p : ℕ) → listed p pages ≡ true → (m.page_swap p ≡ true) × (m.page_active p ≡ true)
  pub unseen : (p : ℕ) → listed p pages ≡ true → listed p seen ≡ false
  pub elsewhere : (p : ℕ) → listed p pages ≡ true → listed p m.inactive_list.swap_list ≡ false
  pub distinct : Distinct pages

pub record Refilled (seen pages : List ℕ) (m m' : PhysicalMemory) : Type 0 where
  pub active : m'.active_list.swap_list ≡ seen ++ filter (busy m) pages
  pub inactive : m'.inactive_list.swap_list ≡ m.inactive_list.swap_list ++ filter (idle m) pages
  pub same_pages : m'.pool ≡ m.pool

-- What a page that the scan moves leaves
moved : ℕ → PhysicalMemory → PhysicalMemory
moved p m = record m {
  page_active = set_at p false m.page_active;
  active_list = record {
    swap_list = remove_page p m.active_list.swap_list;
    nr_pages = decrement m.active_list.nr_pages;
  };
  inactive_list = record {
    swap_list = remove_page p m.inactive_list.swap_list ++ p ∷ [];
    nr_pages = increment m.inactive_list.nr_pages;
  };
}

move-moved :
    (p : ℕ) (m : PhysicalMemory)
    → m.page_swap p ≡ true
    → m.page_active p ≡ true
    → (swap_list_del p m >>= λ m₁. swap_inactive_list_add p m₁) ≡ ok (moved p m)
unfolding swap_list_del swap_inactive_list_add moved
move-moved p m s a = rw (s, a, s) refl

Active-moved :
    (p : ℕ) (seen pages : List ℕ) (m : PhysicalMemory)
    → Active seen (p ∷ pages) m
    → Active seen pages (moved p m)
unfolding moved Distinct
Active-moved p seen pages m a =
    let away =
      remove_page-absent p m.inactive_list.swap_list (a.elsewhere p (listed-head p pages)) in
    record {
      split =
          ap (remove_page p) a.split
          ∙ remove_page-middle p seen pages (a.unseen p (listed-head p pages));
      flags = λ q l.
          let f = a.flags q (listed-tail q p pages l) in
          let other : (p == q) ≡ false =
            let o = listed-other p q pages a.distinct.0 l in ground (arith, o) in
          rw other f;
      unseen = λ q l. a.unseen q (listed-tail q p pages l);
      elsewhere = λ q l.
          let e = a.elsewhere q (listed-tail q p pages l) in
          let o = listed-other p q pages a.distinct.0 l in
          ap (λ xs. listed q (xs ++ p ∷ [])) away ∙ listed-snoc q p m.inactive_list.swap_list e o;
      distinct = a.distinct.1;
    }

Active-kept :
    (p : ℕ) (seen pages : List ℕ) (m : PhysicalMemory)
    → Active seen (p ∷ pages) m
    → Active (seen ++ p ∷ []) pages m
unfolding Distinct
Active-kept p seen pages m a = record {
  split = a.split ∙ sym (snoc-append seen pages p);
  flags = λ q l. a.flags q (listed-tail q p pages l);
  unseen = λ q l.
      listed-snoc q p seen (a.unseen q (listed-tail q p pages l))
        (listed-other p q pages a.distinct.0 l);
  elsewhere = λ q l. a.elsewhere q (listed-tail q p pages l);
  distinct = a.distinct.1;
}

refill_loop-Refilled :
    (pages seen : List ℕ) (m : PhysicalMemory)
    → Active seen pages m
    → Ends (Refilled seen pages m) (refill_loop (length pages) pages m)
unfolding refill_loop filter moved
refill_loop-Refilled [] seen m a = ends (record {
  active = a.split;
  inactive = sym (append-nil m.inactive_list.swap_list);
  same_pages = refl;
})
refill_loop-Refilled (p ∷ pages) seen m a =
    let f = a.flags p (listed-head p pages) in
    elim (Bool-cases (page_ref p m == 0)) [
      | inl e ↦
          let away =
            remove_page-absent p m.inactive_list.swap_list (a.elsewhere p (listed-head p pages)) in
          let step = move-moved p m f.0 f.1 in
          rw (f.0, f.1, e, step)
            (Ends-map (refill_loop-Refilled pages seen (moved p m) (Active-moved p seen pages m a))
              λ m' r. record {
                active = rw e r.active;
                inactive =
                    let front = ap (λ xs. (xs ++ p ∷ []) ++ filter (idle m) pages) away in
                    rw e (
                      r.inactive
                      ∙ front
                      ∙ snoc-append m.inactive_list.swap_list (filter (idle m) pages) p);
                same_pages = r.same_pages;
              })
      | inr e ↦
          rw (f.0, f.1, e)
            (Ends-map (refill_loop-Refilled pages (seen ++ p ∷ []) m (Active-kept p seen pages m a))
              λ m' r. record {
                active = rw e (r.active ∙ snoc-append seen (filter (busy m) pages) p);
                inactive = rw e r.inactive;
                same_pages = r.same_pages;
              })
    ]

-- The pages of the active list, all distinct, flagged and in no other list
pub record IsActive (m : PhysicalMemory) : Type 0 where
  pub count : m.active_list.nr_pages ≡ length m.active_list.swap_list
  pub all : Active [] m.active_list.swap_list m

-- If the counter of the active list is its length and its pages are distinct, flagged as swapped
-- and active, and not in the inactive list: refill_inactive_scan ends, the active list keeps
-- exactly its pages with references and the inactive list gets exactly those without behind its
-- own, both in their order, and no reference changes.
pub refill_inactive_scan-Refilled :
    (m : PhysicalMemory)
    → IsActive m
    → Ends (Refilled [] m.active_list.swap_list m) (refill_inactive_scan m)
unfolding refill_inactive_scan
refill_inactive_scan-Refilled m a =
    let pages = m.active_list.swap_list in
    subst (λ n. Ends (Refilled [] pages m) (refill_loop n pages m)) (sym a.count)
      (refill_loop-Refilled pages [] m a.all)
