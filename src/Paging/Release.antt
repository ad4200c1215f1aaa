-- ===== src/Paging/Release.antt =====
-- release_page: one reference less, and the page is free with its last one.
use os_edf.Prelude.{
  ℕ, ◌+◌, ◌/◌, ◌^◌, ◌<◌, ◌≡◌, ◌≢◌, refl, sym, ap, ◌∙◌, Bool-cases, inl, inr, ◌==◌, if◌then◌else◌,
  arith,
}
use os_edf.Prelude.Run.{Ends, ends, Ends-map, Ends-if}
use os_edf.Buddy.{set_at, decrement}
use os_edf.Buddy.State.{free_at}
use os_edf.Frames.{PhysicalMemory, page_ref, set_page_ref, page_ref_dec}
use os_edf.Paging.{present, release_page}
use os_edf.Paging.Tables.{Tables}
use os_edf.Paging.Drop.{Mapped, free_page-Dropped}
use os_edf.Paging.Entries.{Tables-count}

-- 1 for the page
abbrev pub one : ℕ → ℕ → ℕ
one page x = if page == x then 1 else 0

-- 1 for the page that an entry maps
abbrev pub maps : ℕ → ℕ → ℕ
maps w x = if present w then one (w / 4096) x else 0

-- One reference less, and a page without references is free
pub record Released (pgdir q : ℕ) (m m' : PhysicalMemory) : Type 0 where
  pub tables : Tables pgdir m'
  pub same_words : m'.words ≡ m.words
  pub npage : m'.pool.npage ≡ m.pool.npage
  pub refs : (x : ℕ) → free_at x m.pool ≡ 0 → page_ref x m' + one q x ≡ page_ref x m
  pub used : (x : ℕ) → free_at x m.pool ≡ 0 → page_ref x m' ≢ 0 → free_at x m'.pool ≡ 0

pub Mapped-count :
    (pgdir q page val : ℕ) (m : PhysicalMemory)
    → Mapped pgdir q m
    → Mapped pgdir q (set_page_ref page val m)
unfolding set_page_ref
Mapped-count pgdir q page val m o = record {
  zone = o.zone;
  low = o.low;
  usable = o.usable;
  used = o.used;
  below = o.below;
  plain = o.plain;
  not_dir = o.not_dir;
  not_table = o.not_table;
}

decrement-pred : (r : ℕ) → 0 < r → r < 2 ^ 32 → decrement r + 1 ≡ r
decrement-pred r h g = omega (arith, h, g)

-- A counter that goes down by one
pub less_refs :
    (q x : ℕ) (m : PhysicalMemory)
    → 0 < page_ref q m
    → page_ref q m < 2 ^ 32
    → page_ref x (page_ref_dec q m) + one q x ≡ page_ref x m
unfolding page_ref_dec set_page_ref
less_refs q x m some_ref bound = elim (Bool-cases (q == x)) [
  | inl e ↦
      let same : q ≡ x = ground arith in
      rw e (decrement-pred (m.pool.ref q) some_ref bound ∙ ap m.pool.ref same)
  | inr e ↦ rw e (omega arith)
]

-- Freeing clears a counter that is 0 already.
dropped-ref :
    (q x : ℕ) (m' less : PhysicalMemory)
    → m'.pool.ref ≡ set_at q 0 less.pool.ref
    → page_ref q less ≡ 0
    → page_ref x m' ≡ page_ref x less
dropped-ref q x m' less e zero_ref = ap (λ f. f x) e ∙ elim (Bool-cases (q == x)) [
  | inl same ↦ let eq : q ≡ x = ground arith in rw same (sym zero_ref ∙ ap less.pool.ref eq)
  | inr other ↦ rw other refl
]

pub release_page-Released :
    (pgdir q w : ℕ) (m : PhysicalMemory)
    → Tables pgdir m
    → Mapped pgdir q m
    → 0 < page_ref q m
    → page_ref q m < 2 ^ 32
    → Ends (Released pgdir q m) (release_page q w m)
unfolding release_page page_ref_dec set_page_ref
release_page-Released pgdir q w m t o some_ref bound =
    let less : PhysicalMemory = page_ref_dec q m in
    let t' : Tables pgdir less = Tables-count pgdir q (decrement (page_ref q m)) m t in
    rw o.plain (
      Ends-if (page_ref q less == 0)
        (λ last.
          Ends-map
            (free_page-Dropped pgdir q less t'
              (Mapped-count pgdir q q (decrement (page_ref q m)) m o))
            λ m' d. record {
              tables = d.tables;
              same_words = d.same_words;
              npage = d.npage;
              refs = λ x h.
                  let same = dropped-ref q x m' less d.refs (ground (arith, last)) in
                  ap (λ r. r + one q x) same ∙ less_refs q x m some_ref bound;
              used = λ x h r. elim (Bool-cases (q == x)) [
                | inr e ↦ d.used x h e
                | inl e ↦ absurd (r (ap (λ f. f x) d.refs ∙ rw e refl))
              ];
            })
        λ more. ends (record {
          tables = t';
          same_words = refl;
          npage = refl;
          refs = λ x h. less_refs q x m some_ref bound;
          used = λ x h r. h;
        }))
