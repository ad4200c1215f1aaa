-- ===== src/Paging/Replace.antt =====
-- What page_insert does before it writes the entry
use os_edf.Prelude.{
  ℕ, ◌+◌, ◌-◌, ◌/◌, ◌^◌, ◌<◌, ◌≡◌, ◌≢◌, refl, ap, ◌∙◌, Bool-cases, true, false, inl, inr, ◌==◌,
  arith, ltb,
}
use os_edf.Prelude.Run.{Ends, ends, Ends-bind, Ends-map, Ends-if}
use os_edf.Buddy.{increment, decrement}
use os_edf.Buddy.State.{free_at}
use os_edf.Frames.{
  PhysicalMemory, page_ref, set_page_ref, page_ref_inc, page_ref_dec, set_word, pa2page,
}
use os_edf.Paging.{pdx, ptx, present, load_entry, page_remove_pte, replace}
use os_edf.Paging.Tables.{entry_at, table_of, Tables}
use os_edf.Paging.Drop.{Mapped}
use os_edf.Paging.Entries.{
  Entries, Entries-trans, Tables-count, Entries-count, write-Entries, write-here,
}
use os_edf.Paging.Release.{one, maps, Mapped-count, less_refs, release_page-Released}

-- An entry that page_insert may overwrite: none, or that of a page which is counted
pub data Old (pgdir w : ℕ) (m : PhysicalMemory) : Type 0 where
  no_entry : w ≡ 0 → Old pgdir w m
  old_page :
      present w ≡ true
      → Mapped pgdir (w / 4096) m
      → 0 < page_ref (w / 4096) m
      → page_ref (w / 4096) m < 2 ^ 32 - 1
      → Old pgdir w m

-- What page_insert does before it writes the entry, and page_remove with no extra references
pub record Replaced (pgdir la w : ℕ) (extra : ℕ → ℕ) (m m' : PhysicalMemory) : Type 0 where
  pub entries : Entries pgdir la m m'
  pub refs : (x : ℕ) → free_at x m.pool ≡ 0 → page_ref x m' + maps w x ≡ page_ref x m + extra x
  pub used : (x : ℕ) → free_at x m.pool ≡ 0 → page_ref x m' ≢ 0 → free_at x m'.pool ≡ 0

more_refs :
    (page x : ℕ) (m : PhysicalMemory)
    → page_ref page m < 2 ^ 32 - 1
    → page_ref x (page_ref_inc page m) ≡ page_ref x m + one page x
unfolding page_ref_inc set_page_ref
more_refs page x m bound = elim (Bool-cases (page == x)) [
  | inl e ↦
      let same : page ≡ x = ground arith in
      rw e (omega (arith, bound) ∙ ap (λ y. m.pool.ref y + 1) same)
  | inr e ↦ rw e (omega arith)
]

pa2page-page :
    (w : ℕ) (m : PhysicalMemory) → w / 4096 < m.pool.npage → Ends (λ q. q ≡ w / 4096) (pa2page w m)
unfolding pa2page
pa2page-page w m h =
    let b : ltb (w / 4096) m.pool.npage ≡ true = ground (arith, h) in rw b (ends refl)

-- page_remove_pte on a page that is in the entry
pub remove_pte-Replaced :
    (pgdir la w : ℕ) (extra : ℕ → ℕ) (m more : PhysicalMemory)
    → present (m.words pgdir (pdx la)) ≡ true
    → Tables pgdir more
    → Mapped pgdir (w / 4096) more
    → 0 < page_ref (w / 4096) more
    → page_ref (w / 4096) more < 2 ^ 32
    → ((x : ℕ) → page_ref x more ≡ page_ref x m + extra x)
    → more.words ≡ m.words
    → more.pool.npage ≡ m.pool.npage
    → ((x : ℕ) → free_at x more.pool ≡ free_at x m.pool)
    → present w ≡ true
    → load_entry (table_of pgdir (pdx la) m, ptx la) more ≡ w
    → Ends
        (λ m'. Replaced pgdir la w extra m m' × (entry_at pgdir la m' ≡ 0))
        (page_remove_pte (table_of pgdir (pdx la) m, ptx la) more)
unfolding page_remove_pte pa2page set_word
remove_pte-Replaced pgdir la w extra m more here t o some_ref bound refs words npage free p e =
    let below : ltb (w / 4096) more.pool.npage ≡ true = let b = o.below in ground (arith, b) in
    rw (e, p, below)
      (Ends-bind (release_page-Released pgdir (w / 4096) w more t o some_ref bound) λ m' r. ends (
        record {
          entries =
              write-Entries pgdir la 0 m m' (r.same_words ∙ words) r.tables (r.npage ∙ npage) here;
          refs =
              λ x h. let a = r.refs x (free x ∙ h) in let b = refs x in rw p (omega (arith, a, b));
          used = λ x h n. r.used x (free x ∙ h) n;
        },
        write-here pgdir la 0 m m' (r.same_words ∙ words) r.tables here,
      ))

own_more :
    (page : ℕ) (m : PhysicalMemory)
    → page_ref page m < 2 ^ 32 - 1
    → page_ref page (page_ref_inc page m) ≡ page_ref page m + 1
own_more page m bound =
    let r = more_refs page page m bound in
    let self : one page page ≡ 1 = ground arith in omega (arith, r, self)

pub replace-Replaced :
    (pgdir la page w : ℕ) (m : PhysicalMemory)
    → Tables pgdir m
    → present (m.words pgdir (pdx la)) ≡ true
    → page_ref page m < 2 ^ 32 - 1
    → load_entry (table_of pgdir (pdx la) m, ptx la) m ≡ w
    → Old pgdir w m
    → Ends (Replaced pgdir la w (one page) m) (replace page (table_of pgdir (pdx la) m, ptx la) m)
unfolding replace page_ref_inc page_ref_dec set_page_ref
replace-Replaced pgdir la page w m t here bound e (no_entry z) =
    let none_there = e ∙ z in
    rw none_there (
      ends (record {
        entries = Entries-count pgdir la page (increment (page_ref page m)) m t;
        refs = λ x h. let r = more_refs page x m bound in rw z (omega (arith, r));
        used = λ x h n. h;
      }))
replace-Replaced pgdir la page w m t here bound e (old_page p o some_ref limit) =
    let more : PhysicalMemory = page_ref_inc page m in
    let t' : Tables pgdir more = Tables-count pgdir page (increment (page_ref page m)) m t in
    let some_word : (w == 0) ≡ false = ground (arith, p) in
    let refs : (x : ℕ) → page_ref x more ≡ page_ref x m + one page x =
      λ x. more_refs page x m bound in
    let q = w / 4096 in
    let own = refs q in
    let grown = own_more page m bound in
    rw (e, some_word, p)
      (Ends-bind (pa2page-page w more o.below) λ old o'.
        Ends-if (old == page)
          (λ same.
            let here_page : w / 4096 ≡ page = ground (arith, same, o') in
            ends (record {
              entries =
                  Entries-trans (Entries-count pgdir la page (increment (page_ref page m)) m t)
                    (Entries-count pgdir la page (decrement (page_ref page more)) more t');
              refs = λ x h.
                  let less =
                    less_refs page x more (omega (arith, grown)) (omega (arith, grown, bound)) in
                  let r = refs x in rw (p, here_page) (omega (arith, less, r));
              used = λ x h n. h;
            }))
          λ other.
            let apart : one page (w / 4096) ≡ 0 = ground (arith, other, o') in
            Ends-map
              (remove_pte-Replaced pgdir la w (one page) m more here t'
                (Mapped-count pgdir (w / 4096) page (increment (page_ref page m)) m o)
                (omega (arith, own, some_ref)) (omega (arith, own, limit, apart)) refs refl refl
                (λ x. refl) p e)
              λ m' r. r.0)
