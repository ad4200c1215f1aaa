-- ===== src/Paging/NewTable.antt =====
-- A page table for a directory entry that has none
use os_edf.Prelude.{
  ℕ, ◌*◌, ◌/◌, ◌<◌, ◌≡◌, refl, sym, ap, ◌∙◌, Bool-cases, true, false, inl, inr, ◌==◌, if◌then◌else◌,
  arith, ltb,
}
use os_edf.Prelude.Run.{Ends, ends}
use os_edf.Buddy.{Pages}
use os_edf.Buddy.Homes.{Sound}
use os_edf.Frames.{PhysicalMemory, set_page_ref, kaddr, set_word, clear_frame}
use os_edf.Frames.Bits.{word_or-page, word_or-bit0}
use os_edf.Paging.{pdx, ptx, present, directory_entry, new_table}
use os_edf.Paging.Tables.{table_of, entry_at}

-- A page of its own for the table
unfoldable pub with_table : ℕ → ℕ → ℕ → PhysicalMemory → PhysicalMemory
with_table page pgdir la m =
    set_word pgdir (pdx la) (directory_entry page) (clear_frame page (set_page_ref page 1 m))

pub new_table-with :
    (page pgdir la : ℕ) (m : PhysicalMemory)
    → page < m.pool.npage
    → Ends (λ m'. with_table page pgdir la m ≡ m') (new_table page pgdir la m)
unfolding new_table with_table kaddr set_word clear_frame set_page_ref
new_table-with page pgdir la m h =
    let e : page * 4096 / 4096 ≡ page = omega arith in
    let in_it : ltb page m.pool.npage ≡ true = ground (arith, h) in rw (e, in_it) (ends refl)

pub directory_entry-page : (page : ℕ) → page < 1048576 → directory_entry page / 4096 ≡ page
directory_entry-page page h = word_or-page page 7 h (omega arith)

pub directory_entry-present : (page : ℕ) → present (directory_entry page) ≡ true
directory_entry-present page = word_or-bit0 (page * 4096) 7 ∙ ground arith

module _ (pgdir la page : ℕ) (m : PhysicalMemory) (apart : (pgdir == page) ≡ false) where
  pub with_table-word :
      (i : ℕ)
      → (with_table page pgdir la m).words pgdir i
        ≡ (if pdx la == i then directory_entry page else m.words pgdir i)
  unfolding with_table set_word clear_frame set_page_ref
  with_table-word i =
      let self : (pgdir == pgdir) ≡ true = ground arith in
      let other : (page == pgdir) ≡ false = ground (arith, apart) in rw (self, other) refl

  with_table-other :
      (q i : ℕ)
      → (pgdir == q) ≡ false
      → (page == q) ≡ false
      → (with_table page pgdir la m).words q i ≡ m.words q i
  unfolding with_table set_word clear_frame set_page_ref
  with_table-other q i h g = rw (h, g) refl

  with_table-new : (i : ℕ) → (with_table page pgdir la m).words page i ≡ 0
  unfolding with_table set_word clear_frame set_page_ref
  with_table-new i = let self : (page == page) ≡ true = ground arith in rw (apart, self) refl

  pub with_table-here : (with_table page pgdir la m).words pgdir (pdx la) ≡ directory_entry page
  with_table-here =
      let self : (pdx la == pdx la) ≡ true = ground arith in with_table-word (pdx la) ∙ rw self refl

  pub with_table-there :
      (i : ℕ) → (pdx la == i) ≡ false → (with_table page pgdir la m).words pgdir i ≡ m.words pgdir i
  with_table-there i h = with_table-word i ∙ rw h refl

  -- A new table has no entries, and the others keep theirs.
  pub with_table-entry_at :
      page < 1048576
      → present (m.words pgdir (pdx la)) ≡ false
      → ((i : ℕ)
          → present (m.words pgdir i) ≡ true
          → ((pgdir == table_of pgdir i m) ≡ false) × ((page == table_of pgdir i m) ≡ false))
      → (a : ℕ) → entry_at pgdir a (with_table page pgdir la m) ≡ entry_at pgdir a m
  with_table-entry_at small absent others a = elim (Bool-cases (pdx la == pdx a)) [
    | inl same ↦
        let e : pdx la ≡ pdx a = ground arith in
        let old : present (m.words pgdir (pdx a)) ≡ false =
          ap (λ i. present (m.words pgdir i)) (sym e) ∙ absent in
        let new = ap (λ i. (with_table page pgdir la m).words pgdir i) (sym e) ∙ with_table-here in
        rw
          (
            old,
            new,
            directory_entry-present page,
            directory_entry-page page small,
            with_table-new (ptx a),
          )
          refl
    | inr other ↦
        let keep = with_table-there (pdx a) other in
        elim (Bool-cases (present (m.words pgdir (pdx a)))) [
          | inr out ↦ rw (keep, out) refl
          | inl in_it ↦
              let o = others (pdx a) in_it in
              rw (keep, in_it) (with_table-other (table_of pgdir (pdx a) m) (ptx a) o.0 o.1)
        ]
  ]

-- The counters do not matter to the allocator.
pub Sound-ref : (ref : ℕ → ℕ) (st : Pages) → Sound st → Sound (record st { ref = ref })
Sound-ref ref st s = record {
  fits = record { flagged = s.fits.flagged; counted = s.fits.counted };
  homes = record {
    orders = s.homes.orders;
    headed = s.homes.headed;
    home = s.homes.home;
    once = s.homes.once;
  };
}
