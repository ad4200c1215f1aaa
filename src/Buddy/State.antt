-- ===== src/Buddy/State.antt =====
-- When the free lists, their counters and the flags of the pages fit together, and the writes that
-- keep it so.
use os_edf.Prelude.{
  ℕ, ◌+◌, ◌%◌, ◌^◌, ◌≤◌, ◌≡◌, ◌≢◌, sym, ap, subst, ◌∙◌, inl, inr, Bool-cases, true, List, ◌∷◌, ◌==◌,
  length, arith,
}
use os_edf.Buddy.{
  Pages, set_at, increment, decrement, put_free, clear_property, take_buddy, remove_page, pop_free,
}
use os_edf.Buddy.Cover.{
  in_block, in_list, in_list-cons, free_count, free_count-set, listed, in_list-remove,
  listed-remove, length-remove,
}

-- Every page with the flag, but for one, heads a block in the list of its order.
pub record FitsBut (page : ℕ) (st : Pages) : Type 0 where
  pub flagged :
      (p : ℕ) → p ≢ page → st.has_property p ≡ true → listed p (st.free_list (st.property p)) ≡ true
  pub counted : (o : ℕ) → st.nr_free o ≡ length (st.free_list o) % 2 ^ 32

pub record Fits (st : Pages) : Type 0 where
  pub flagged : (p : ℕ) → st.has_property p ≡ true → listed p (st.free_list (st.property p)) ≡ true
  pub counted : (o : ℕ) → st.nr_free o ≡ length (st.free_list o) % 2 ^ 32

-- How many free blocks a page lies in
abbrev pub free_at : ℕ → Pages → ℕ
free_at q st = free_count q 11 st.free_list

abbrev Counted : (ℕ → ℕ) → (ℕ → List ℕ) → Type 0
Counted nr free = (o : ℕ) → nr o ≡ length (free o) % 2 ^ 32

Counted-set :
    (order n : ℕ) (l : List ℕ) (nr : ℕ → ℕ) (free : ℕ → List ℕ)
    → Counted nr free
    → n ≡ length l % 2 ^ 32
    → Counted (set_at order n nr) (set_at order l free)
Counted-set order n l nr free h e o = elim (Bool-cases (order == o)) [
  | inl here ↦ rw here e
  | inr there ↦ rw there (h o)
]

-- A list is written in which a page of the old one stays.
listed-set :
    (p order r : ℕ) (l : List ℕ) (free : ℕ → List ℕ)
    → (listed p (free order) ≡ true → listed p l ≡ true)
    → listed p (free r) ≡ true
    → listed p (set_at order l free r) ≡ true
listed-set p order r l free keeps h = elim (Bool-cases (order == r)) [
  | inl here ↦
      let e : r ≡ order = ground arith in rw here (keeps (ap (λ x. listed p (free x)) (sym e) ∙ h))
  | inr there ↦ rw there h
]

listed-cons : (p x : ℕ) (xs : List ℕ) → listed p xs ≡ true → listed p (x ∷ xs) ≡ true
unfolding listed
listed-cons p x xs h = ground (arith, h)

listed-head : (p : ℕ) (xs : List ℕ) → listed p (p ∷ xs) ≡ true
unfolding listed
listed-head p xs = ground arith

listed-tail : (p x : ℕ) (xs : List ℕ) → p ≢ x → listed p (x ∷ xs) ≡ true → listed p xs ≡ true
unfolding listed
listed-tail p x xs n h = ground (arith, h)

put-page :
    (page order : ℕ) (st : Pages)
    → listed page ((put_free page order st).free_list ((put_free page order st).property page))
      ≡ true
unfolding put_free
put-page page order st =
    let self : (page == page) ≡ true = ground arith in
    let same : (order == order) ≡ true = ground arith in
    rw self rw same (listed-head page (st.free_list order))

-- Every page with the flag is listed, if those other than the page that is put were.
put-flagged :
    (p page order : ℕ) (st : Pages)
    → (p ≢ page → st.has_property p ≡ true → listed p (st.free_list (st.property p)) ≡ true)
    → (put_free page order st).has_property p ≡ true
    → listed p ((put_free page order st).free_list ((put_free page order st).property p)) ≡ true
unfolding put_free
put-flagged p page order st old h = elim (Bool-cases (page == p)) [
  | inl here ↦
      let e : page ≡ p = ground arith in
      subst
        (λ x.
          listed x ((put_free page order st).free_list ((put_free page order st).property x))
          ≡ true)
        e (put-page page order st)
  | inr there ↦
      let n : p ≢ page = ground arith in
      rw there (
        listed-set p order (st.property p) (page ∷ st.free_list order) st.free_list
          (listed-cons p page (st.free_list order)) (old n (rw there at h)))
]

Counted-put :
    (page order : ℕ) (st : Pages)
    → Counted st.nr_free st.free_list
    → Counted (put_free page order st).nr_free (put_free page order st).free_list
unfolding put_free
Counted-put page order st h =
    Counted-set order (increment (st.nr_free order)) (page ∷ st.free_list order) st.nr_free
      st.free_list h (omega (arith, h order))

pub put-FitsBut :
    (but page order : ℕ) (st : Pages) → FitsBut but st → FitsBut but (put_free page order st)
put-FitsBut but page order st f = record {
  flagged = λ p m. put-flagged p page order st (λ _. f.flagged p m);
  counted = Counted-put page order st f.counted;
}

pub put-Fits : (page order : ℕ) (st : Pages) → Fits st → Fits (put_free page order st)
put-Fits page order st f = record {
  flagged = λ p. put-flagged p page order st (λ _. f.flagged p);
  counted = Counted-put page order st f.counted;
}

-- The flag of the page itself is cleared.
pub clear-Fits : (page : ℕ) (st : Pages) → FitsBut page st → Fits (clear_property page st)
unfolding clear_property
clear-Fits page st f = record {
  flagged = λ p h. elim (Bool-cases (page == p)) [
    | inl here ↦ absurd (let h' = rw here at h in cc)
    | inr there ↦ f.flagged p (ground arith) (rw there at h)
  ];
  counted = f.counted;
}

pub pop_free-FitsBut :
    (page order : ℕ) (pages : List ℕ) (st : Pages)
    → st.free_list order ≡ page ∷ pages
    → Fits st
    → FitsBut page (pop_free order pages st)
unfolding pop_free
pop_free-FitsBut page order pages st e f = record {
  flagged = λ p n h.
      listed-set p order (st.property p) pages st.free_list
        (λ l. listed-tail p page pages n (ap (λ x. listed p x) (sym e) ∙ l)) (f.flagged p h);
  counted =
      let size = ap (λ (x : List ℕ). length x) e in
      Counted-set order (decrement (st.nr_free order)) pages st.nr_free st.free_list f.counted
        (omega (arith, f.counted order, size));
}

pub free_at-pop :
    (q page order : ℕ) (pages : List ℕ) (st : Pages)
    → order ≤ 10
    → st.free_list order ≡ page ∷ pages
    → free_at q (pop_free order pages st) + in_block q order page ≡ free_at q st
unfolding pop_free
free_at-pop q page order pages st h e =
    let changed = free_count-set q 11 order pages st.free_list (omega (arith, h)) in
    let more = ap (λ l. in_list q order l) e ∙ in_list-cons q order page pages in
    omega (arith, changed, more)

pub take_buddy-Fits :
    (buddy order : ℕ) (st : Pages)
    → listed buddy (st.free_list order) ≡ true
    → Fits st
    → Fits (take_buddy buddy order st)
unfolding take_buddy
take_buddy-Fits buddy order st m f = record {
  flagged = λ p h. elim (Bool-cases (buddy == p)) [
    | inl here ↦ absurd (let h' = rw here at h in cc)
    | inr there ↦
        listed-set p order (st.property p) (remove_page buddy (st.free_list order)) st.free_list
          (listed-remove p buddy (st.free_list order) (ground arith)) (f.flagged p (rw there at h))
  ];
  counted =
      let size = length-remove buddy (st.free_list order) m in
      Counted-set order (decrement (st.nr_free order)) (remove_page buddy (st.free_list order))
        st.nr_free st.free_list f.counted (omega (arith, f.counted order, size));
}

pub free_at-take_buddy :
    (q buddy order : ℕ) (st : Pages)
    → order ≤ 10
    → listed buddy (st.free_list order) ≡ true
    → free_at q (take_buddy buddy order st) + in_block q order buddy ≡ free_at q st
unfolding take_buddy
free_at-take_buddy q buddy order st h m =
    let changed =
      free_count-set q 11 order (remove_page buddy (st.free_list order)) st.free_list
        (omega (arith, h)) in
    let less = in_list-remove q order buddy (st.free_list order) m in omega (arith, changed, less)

pub free_at-put :
    (q page order : ℕ) (st : Pages)
    → order ≤ 10
    → free_at q (put_free page order st) ≡ free_at q st + in_block q order page
unfolding put_free
free_at-put q page order st h =
    let changed =
      free_count-set q 11 order (page ∷ st.free_list order) st.free_list (omega (arith, h)) in
    let more = in_list-cons q order page (st.free_list order) in omega (arith, changed, more)
