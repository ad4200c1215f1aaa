-- ===== src/Buddy/Homes.antt =====
-- That the head of a free block is marked as such, that no page lies in two free blocks, and that the
-- blocks stay in their zones.
use os_edf.Prelude.{
  ℕ, ◌≤◌, ◌≡◌, refl, sym, ap, subst, ◌∙◌, ◌⊎◌, inl, inr, Bool-cases, true, false, List, ◌∷◌, ◌==◌,
  arith,
}
use os_edf.Buddy.{Pages, set_at, put_free, clear_property, take_buddy, pop_free}
use os_edf.Buddy.Cover.{
  in_block, listed, free_count-listed, listed_of_remove, two_power_pos, in_block-cases,
}
use os_edf.Buddy.State.{Fits, free_at, free_at-put, free_at-take_buddy, free_at-pop}

-- A page of the zone that is not reserved
abbrev pub Usable : ℕ → ℕ → Pages → Type 0
Usable zone q st = (st.reserved q ≡ false) × (st.zone_num q ≡ zone)

-- A block at p whose pages are of its zone and not reserved
abbrev pub Home : ℕ → ℕ → Pages → Type 0
Home o p st =
    (st.mem_base (st.zone_num p) ≤ p) × ((q : ℕ) → in_block q o p ≡ 1 → Usable (st.zone_num p) q st)

-- A block of the zone none of whose pages is free
abbrev pub Ready : ℕ → ℕ → ℕ → Pages → Type 0
Ready zone o p st = (q : ℕ) → in_block q o p ≡ 1 → Usable zone q st × (free_at q st ≡ 0)

pub record Homes (st : Pages) : Type 0 where
  pub orders : (p : ℕ) → st.has_property p ≡ true → st.property p ≤ 10
  pub headed :
      (o p : ℕ)
      → o ≤ 10
      → listed p (st.free_list o) ≡ true
      → (st.has_property p ≡ true) × (st.property p ≡ o)
  pub home : (o p : ℕ) → o ≤ 10 → listed p (st.free_list o) ≡ true → Home o p st
  pub once : (q : ℕ) → free_at q st ≤ 1

pub record Sound (st : Pages) : Type 0 where
  pub fits : Fits st
  pub homes : Homes st

-- The first page of a block is one of it.
pub in_block_self : (o p : ℕ) → in_block p o p ≡ 1
in_block_self o p = let h = two_power_pos o in ground (arith, h)

-- A page that lies in no free block heads none.
pub Sound-unflagged : (q : ℕ) (st : Pages) → Sound st → free_at q st ≡ 0 → st.has_property q ≡ false
Sound-unflagged q st s none_free = elim (Bool-cases (st.has_property q)) [
  | inr clear ↦ clear
  | inl flag ↦
      let some_free =
        free_count-listed q 11 (st.property q) st.free_list (omega (arith, s.homes.orders q flag))
          (s.fits.flagged q flag) in
      absurd (omega (arith, some_free, none_free))
]

-- A page of no free block is not one of those in the lists.
pub listed-apart :
    (page p o : ℕ) (st : Pages)
    → o ≤ 10
    → free_at page st ≡ 0
    → listed p (st.free_list o) ≡ true
    → (page == p) ≡ false
listed-apart page p o st le none_free l = elim (Bool-cases (page == p)) [
  | inr e ↦ e
  | inl e ↦
      let same : p ≡ page = ground arith in
      let l' = ap (λ x. listed x (st.free_list o)) (sym same) ∙ l in
      let some_free = free_count-listed page 11 o st.free_list (omega (arith, le)) l' in
      absurd (omega (arith, some_free, none_free))
]

-- A block put in front of a list stands there beside the old ones.
listed_of_set :
    (p page order o : ℕ) (free : ℕ → List ℕ)
    → listed p (set_at order (page ∷ free order) free o) ≡ true
    → ((order ≡ o) × (p ≡ page)) ⊎ (listed p (free o) ≡ true)
unfolding listed
listed_of_set p page order o free h = elim (Bool-cases (order == o)) [
  | inr other ↦ inr (rw other at h)
  | inl same ↦
      let e : order ≡ o = ground arith in
      let h' = rw same at h in
      elim (Bool-cases (p == page)) [
        | inl head ↦ inl (e, ground arith)
        | inr tail ↦ inr (ap (λ x. listed p (free x)) (sym e) ∙ ground (arith, h'))
      ]
]

pub put-Homes :
    (zone order page : ℕ) (st : Pages)
    → Homes st
    → order ≤ 10
    → st.mem_base zone ≤ page
    → Ready zone order page st
    → Homes (put_free page order st)
unfolding put_free
put-Homes zone order page st h small low ready = record {
  orders = λ p flag. elim (Bool-cases (page == p)) [
    | inl here ↦ rw here small
    | inr there ↦ rw there (h.orders p (rw there at flag))
  ];
  headed = λ o p le l. elim (listed_of_set p page order o st.free_list l) [
    | inr old ↦
        let free = (ready page (in_block_self order page)).1 in
        let there = listed-apart page p o st le free old in rw there (h.headed o p le old)
    | inl (e, f) ↦ let here : (page == p) ≡ true = ground (arith, f) in rw here (refl, e)
  ];
  home = λ o p le l. elim (listed_of_set p page order o st.free_list l) [
    | inr old ↦ h.home o p le old
    | inl (e, f) ↦
        let zone_of : st.zone_num page ≡ zone = (ready page (in_block_self order page)).0.1 in
        let home : Home order page st = (
          subst (λ z. st.mem_base z ≤ page) (sym zone_of) low,
          λ q b. let u = (ready q b).0 in (u.0, u.1 ∙ sym zone_of),
        ) in
        subst (λ x. Home x p st) e (subst (λ x. Home order x st) (sym f) home)
  ];
  once = λ q.
      let more = free_at-put q page order st small in
      elim (in_block-cases q order page) [
        | inl inside ↦ let r = (ready q inside).1 in omega (arith, more, r, inside)
        | inr outside ↦ let o = h.once q in omega (arith, more, o, outside)
      ];
}

listed_of_take :
    (p buddy order o : ℕ) (st : Pages)
    → listed p ((take_buddy buddy order st).free_list o) ≡ true
    → listed p (st.free_list o) ≡ true
unfolding take_buddy
listed_of_take p buddy order o st m = elim (Bool-cases (order == o)) [
  | inl same ↦
      let e : order ≡ o = ground arith in
      ap (λ x. listed p (st.free_list x)) (sym e)
      ∙ listed_of_remove p buddy (st.free_list order) (rw same at m)
  | inr other ↦ rw other at m
]

pub take-Homes :
    (buddy order : ℕ) (st : Pages)
    → Homes st
    → order ≤ 10
    → listed buddy (st.free_list order) ≡ true
    → Homes (take_buddy buddy order st)
unfolding take_buddy
take-Homes buddy order st h small l = record {
  orders = λ p flag. elim (Bool-cases (buddy == p)) [
    | inl here ↦ absurd (let flag' = rw here at flag in cc)
    | inr there ↦ h.orders p (rw there at flag)
  ];
  headed = λ o p le m.
      let old = listed_of_take p buddy order o st m in
      let left : free_at buddy (take_buddy buddy order st) ≡ 0 =
        let less = free_at-take_buddy buddy buddy order st small l in
        let self = in_block_self order buddy in
        let one = h.once buddy in omega (arith, less, self, one) in
      let there = listed-apart buddy p o (take_buddy buddy order st) le left m in
      rw there (h.headed o p le old);
  home = λ o p le m. h.home o p le (listed_of_take p buddy order o st m);
  once = λ q.
      let less = free_at-take_buddy q buddy order st small l in
      let o = h.once q in omega (arith, less, o);
}

listed_of_pop :
    (p order o page : ℕ) (pages : List ℕ) (st : Pages)
    → st.free_list order ≡ page ∷ pages
    → listed p ((pop_free order pages st).free_list o) ≡ true
    → listed p (st.free_list o) ≡ true
unfolding pop_free listed
listed_of_pop p order o page pages st e m = elim (Bool-cases (order == o)) [
  | inl same ↦
      let f : order ≡ o = ground arith in
      let m' = rw same at m in
      let l : listed p (st.free_list order) ≡ true = rw e (ground (arith, m')) in
      ap (λ x. listed p (st.free_list x)) (sym f) ∙ l
  | inr other ↦ rw other at m
]

pub pop-Homes :
    (page order : ℕ) (pages : List ℕ) (st : Pages)
    → Homes st
    → order ≤ 10
    → st.free_list order ≡ page ∷ pages
    → Homes (pop_free order pages st)
      × (st.mem_base (st.zone_num page) ≤ page)
      × Ready (st.zone_num page) order page (pop_free order pages st)
unfolding pop_free listed
pop-Homes page order pages st h small e =
    let head : listed page (st.free_list order) ≡ true = rw e (ground arith) in
    let home = h.home order page small head in
    (
      record {
        orders = h.orders;
        headed = λ o p le m. h.headed o p le (listed_of_pop p order o page pages st e m);
        home = λ o p le m. h.home o p le (listed_of_pop p order o page pages st e m);
        once = λ q.
            let b = free_at-pop q page order pages st small e in
            let o = h.once q in omega (arith, b, o);
      },
      home.0,
      λ q inside. (
        home.1 q inside,
        let b = free_at-pop q page order pages st small e in
            let o = h.once q in omega (arith, b, o, inside),
      ),
    )

pub clear-Homes :
    (page : ℕ) (st : Pages) → Homes st → free_at page st ≡ 0 → Homes (clear_property page st)
unfolding clear_property
clear-Homes page st h none_free = record {
  orders = λ p flag. elim (Bool-cases (page == p)) [
    | inl here ↦ absurd (let flag' = rw here at flag in cc)
    | inr there ↦ h.orders p (rw there at flag)
  ];
  headed = λ o p le l.
      let there = listed-apart page p o st le none_free l in rw there (h.headed o p le l);
  home = h.home;
  once = h.once;
}
