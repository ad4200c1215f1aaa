-- ===== src/Paging/GetPte.antt =====
-- get_pte, with a new table where there is none
use os_edf.Prelude.{
  ℕ, ◌+◌, ◌/◌, ◌<◌, ◌≤◌, ◌≡◌, ◌≢◌, refl, sym, ap, subst, ◌∙◌, Bool-cases, true, false, inl, inr,
  ◌==◌, arith, Option, none, some,
}
use os_edf.Prelude.Run.{ok, ◌>>=◌, Ends, ends, Ends-bind, Ends-if}
use os_edf.Buddy.{Pages, set_at}
use os_edf.Buddy.State.{free_at}
use os_edf.Buddy.Homes.{Sound}
use os_edf.Buddy.Release.{Frame}
use os_edf.Buddy.Ranges.{in_range}
use os_edf.Buddy.OnePage.{SamePages}
use os_edf.Frames.{PhysicalMemory, set_page_ref, set_word, clear_frame}
use os_edf.Frames.Alloc.{AtOnce, GotPage, page_got, no_page, alloc_page-GotPage}
use os_edf.Paging.{pdx, present, new_table, table_entry, get_pte}
use os_edf.Paging.Tables.{
  table_of, Tables, Kept, Kept-refl, NotTable, GotPte, no_table, table_entry-GotPte,
}
use os_edf.Paging.NewTable.{
  with_table, new_table-with, directory_entry-page, directory_entry-present, with_table-word,
  with_table-here, with_table-there, with_table-entry_at, Sound-ref,
}

-- The state after the allocation of the page for a table
module _ (pgdir la page : ℕ) (m : PhysicalMemory) (pool : Pages) (t : Tables pgdir m)
    (s : Sound pool) (counts : (q : ℕ) → free_at q pool + in_range q page 1 ≡ free_at q m.pool)
    (same : SamePages m.pool pool) (frame : Frame m.pool pool) where
  allocated : PhysicalMemory
  allocated = record m { pool = pool }

  page-free : 0 < free_at page m.pool
  page-free =
      let c = counts page in let i : in_range page page 1 ≡ 1 = ground arith in omega (arith, c, i)

  used-other : (q : ℕ) → free_at q m.pool ≡ 0 → (q == page) ≡ false
  used-other q h = elim (Bool-cases (q == page)) [
    | inr e ↦ e
    | inl e ↦
        let eq : q ≡ page = ground arith in
        let z = ap (λ x. free_at x m.pool) eq in
        absurd (let f = page-free in omega (arith, f, z, h))
  ]

  used-still : (q : ℕ) → free_at q m.pool ≡ 0 → free_at q pool ≡ 0
  used-still q h = let c = counts q in omega (arith, c, h)

  Kept-new : Kept m (with_table page pgdir la allocated)
  unfolding with_table set_word clear_frame set_page_ref allocated
  Kept-new = record {
    frame = record { zone = frame.zone; base = frame.base; keeps = frame.keeps };
    npage = same.0;
    refs = λ q h.
        let o : (page == q) ≡ false = let u = used-other q h in ground (arith, u) in
        rw o (ap (λ f. f q) same.1);
    used = used-still;
    swapped = refl;
  }

  others :
      (i : ℕ)
      → present (m.words pgdir i) ≡ true
      → ((pgdir == table_of pgdir i m) ≡ false) × ((page == table_of pgdir i m) ≡ false)
  others i h =
      let f = t.frames i h in
      let u = used-other (table_of pgdir i m) f.2 in (f.1, ground (arith, u))

  page-below : page < pool.npage
  page-below = subst (λ n. page < n) (sym same.0) (t.bounded page page-free)

  page-taken : free_at page pool ≡ 0
  page-taken =
      let c = counts page in
      let i : in_range page page 1 ≡ 1 = ground arith in
      let o = t.sound.homes.once page in omega (arith, c, i, o)

  page-small : page < 1048576
  page-small = let b = t.bounded page page-free in let n = t.small in omega (arith, b, n)

  bounded-old : (q : ℕ) → 0 < free_at q pool → 0 < free_at q m.pool
  bounded-old q h = let c = counts q in omega (arith, c, h)

  page-table :
      (i : ℕ) → (pdx la == i) ≡ true → table_of pgdir i (with_table page pgdir la allocated) ≡ page
  unfolding allocated
  page-table i here =
      let e = with_table-word pgdir la page allocated (used-other pgdir t.own) i in
      rw (e, here) (directory_entry-page page page-small)

  old-word :
      (i : ℕ)
      → (pdx la == i) ≡ false
      → (with_table page pgdir la allocated).words pgdir i ≡ m.words pgdir i
  unfolding allocated
  old-word i there = with_table-there pgdir la page allocated (used-other pgdir t.own) i there

  old-table-other :
      (i j : ℕ)
      → (pdx la == i) ≡ true
      → (pdx la == j) ≡ false
      → present ((with_table page pgdir la allocated).words pgdir j) ≡ true
      → table_of pgdir i (with_table page pgdir la allocated)
        ≢ table_of pgdir j (with_table page pgdir la allocated)
  old-table-other i j here there h e =
      let w = old-word j there in
      let o = (others j (rw w at h)).1 in
      let top = page-table i here in
      let same_page : page ≡ table_of pgdir j m = sym top ∙ e ∙ ap (λ x. x / 4096) w in
      absurd (ground (arith, o, same_page))

  tables-apart :
      (i j : ℕ)
      → present ((with_table page pgdir la allocated).words pgdir i) ≡ true
      → present ((with_table page pgdir la allocated).words pgdir j) ≡ true
      → table_of pgdir i (with_table page pgdir la allocated)
        ≡ table_of pgdir j (with_table page pgdir la allocated)
      → i ≡ j
  tables-apart i j hi hj e = elim (Bool-cases (pdx la == i)) [
    | inl here ↦ elim (Bool-cases (pdx la == j)) [
      | inl here' ↦ ground arith
      | inr there' ↦ absurd (old-table-other i j here there' hj e)
    ]
    | inr there ↦ elim (Bool-cases (pdx la == j)) [
      | inl here' ↦ absurd (old-table-other j i here' there hi (sym e))
      | inr there' ↦
          let wi = old-word i there in
          let wj = old-word j there' in
          t.apart i j (rw wi at hi) (rw wj at hj)
            (ap (λ x. x / 4096) (sym wi) ∙ e ∙ ap (λ x. x / 4096) wj)
    ]
  ]

  NotTable-new :
      (q : ℕ)
      → free_at q m.pool ≡ 0
      → NotTable pgdir q m
      → NotTable pgdir q (with_table page pgdir la allocated)
  NotTable-new q h n i p = elim (Bool-cases (pdx la == i)) [
    | inl here ↦ subst (λ x. (q == x) ≡ false) (sym (page-table i here)) (used-other q h)
    | inr there ↦ let w = old-word i there in rw w (n i (rw w at p))
  ]

  Tables-new :
      present (m.words pgdir (pdx la)) ≡ false → Tables pgdir (with_table page pgdir la allocated)
  unfolding allocated with_table set_word clear_frame set_page_ref
  Tables-new absent = record {
    sound = Sound-ref (set_at page 1 pool.ref) pool s;
    small = subst (λ n. n ≤ 1048576) (sym same.0) t.small;
    bounded = λ q h. subst (λ n. q < n) (sym same.0) (t.bounded q (bounded-old q h));
    own = used-still pgdir t.own;
    frames = λ i h. elim (Bool-cases (pdx la == i)) [
      | inl here ↦
          let top = page-table i here in
          (
            subst (λ x. x < pool.npage) (sym top) page-below,
            subst (λ x. (pgdir == x) ≡ false) (sym top) (used-other pgdir t.own),
            subst (λ x. free_at x pool ≡ 0) (sym top) page-taken,
          )
      | inr there ↦
          let e = old-word i there in
          let f = t.frames i (rw e at h) in
          rw e (
            subst (λ n. table_of pgdir i m < n) (sym same.0) f.0,
            f.1,
            used-still (table_of pgdir i m) f.2,
          )
    ];
    apart = tables-apart;
  }

new_table-GotPte :
    (pgdir la : ℕ) (m : PhysicalMemory) (r : Option ℕ × PhysicalMemory)
    → Tables pgdir m
    → present (m.words pgdir (pdx la)) ≡ false
    → GotPage m r
    → Ends (GotPte pgdir la m) (elim r.0 [
      | none ↦ ok (none, r.1)
      | some p ↦ do m₂ ← new_table p pgdir la r.1; table_entry pgdir la m₂
    ])
unfolding allocated
new_table-GotPte pgdir la m (none, m') t absent no_page = ends (no_table absent)
new_table-GotPte pgdir la m (some page, m') t absent
      (page_got {pool = pool} zone s low ready counts same frame) =
    let m₁ : PhysicalMemory = record m { pool = pool } in
    let below = page-below pgdir la page m pool t s counts same frame in
    let other = used-other pgdir la page m pool t s counts same frame pgdir t.own in
    let here = with_table-here pgdir la page m₁ other in
    Ends-bind (new_table-with page pgdir la m₁ below) λ m₂ e.
      subst (λ x. Ends (GotPte pgdir la m) (table_entry pgdir la x)) e
        (table_entry-GotPte pgdir la m (with_table page pgdir la m₁)
          (Tables-new pgdir la page m pool t s counts same frame absent)
          (Kept-new pgdir la page m pool t s counts same frame)
          (rw here (directory_entry-present page))
          (with_table-entry_at pgdir la page m₁ other
            (page-small pgdir la page m pool t s counts same frame) absent
            (others pgdir la page m pool t s counts same frame))
          (NotTable-new pgdir la page m pool t s counts same frame))

-- With a directory whose tables are in use, get_pte finds the place of the entry, if it is to make
-- the table, unless there is no page for that and no kswapd to wait for.
pub get_pte-GotPte :
    (pgdir la : ℕ) (m : PhysicalMemory)
    → Tables pgdir m
    → AtOnce m
    → Ends (GotPte pgdir la m) (get_pte pgdir la true m)
unfolding get_pte
get_pte-GotPte pgdir la m t w =
    Ends-if (present (m.words pgdir (pdx la)))
      (λ here. table_entry-GotPte pgdir la m m t (Kept-refl m) here (λ a. refl) λ q h n. n)
      λ absent.
        Ends-bind (alloc_page-GotPage m w t.sound) λ r g. new_table-GotPte pgdir la m r t absent g
