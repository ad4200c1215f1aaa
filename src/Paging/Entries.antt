-- ===== src/Paging/Entries.antt =====
-- A write to one page-table entry, and what a counter does to the tables
use os_edf.Prelude.{
  ℕ, ◌/◌, ◌≡◌, refl, sym, ap, subst, ◌∙◌, Bool, Bool-cases, true, false, ◌&&◌, inl, inr, ◌==◌,
  if◌then◌else◌, arith,
}
use os_edf.Buddy.{set_at}
use os_edf.Frames.{PhysicalMemory, set_page_ref, set_word}
use os_edf.Paging.{pdx, ptx, present}
use os_edf.Paging.Tables.{table_of, entry_at, Tables}
use os_edf.Paging.NewTable.{Sound-ref}

-- Two addresses of one page
abbrev pub same_page : ℕ → ℕ → Bool
same_page la a = (pdx la == pdx a) && (ptx la == ptx a)

-- The tables stay, and so do all entries but that of one address.
pub record Entries (pgdir la : ℕ) (m m' : PhysicalMemory) : Type 0 where
  pub tables : Tables pgdir m'
  pub npage : m'.pool.npage ≡ m.pool.npage
  pub dir : (i : ℕ) → m'.words pgdir i ≡ m.words pgdir i
  pub rest : (a : ℕ) → same_page la a ≡ false → entry_at pgdir a m' ≡ entry_at pgdir a m

pub Entries-trans :
    {pgdir la : ℕ} {a b c : PhysicalMemory}
    → Entries pgdir la a b
    → Entries pgdir la b c
    → Entries pgdir la a c
Entries-trans e f = record {
  tables = f.tables;
  npage = f.npage ∙ e.npage;
  dir = λ i. f.dir i ∙ e.dir i;
  rest = λ x h. f.rest x h ∙ e.rest x h;
}

-- A new counter
pub Tables-count :
    (pgdir page val : ℕ) (m : PhysicalMemory)
    → Tables pgdir m
    → Tables pgdir (set_page_ref page val m)
unfolding set_page_ref
Tables-count pgdir page val m t = record {
  sound = Sound-ref (set_at page val m.pool.ref) m.pool t.sound;
  small = t.small;
  bounded = t.bounded;
  own = t.own;
  frames = t.frames;
  apart = t.apart;
}

pub Entries-count :
    (pgdir la page val : ℕ) (m : PhysicalMemory)
    → Tables pgdir m
    → Entries pgdir la m (set_page_ref page val m)
unfolding set_page_ref
Entries-count pgdir la page val m t = record {
  tables = Tables-count pgdir page val m t;
  npage = refl;
  dir = λ i. refl;
  rest = λ a h. refl;
}

-- The word of another address in a table
module _ (pgdir la v : ℕ) (m : PhysicalMemory) (t : Tables pgdir m)
    (here : present (m.words pgdir (pdx la)) ≡ true) where
  unfoldable pub set_entry : PhysicalMemory
  set_entry = set_word (table_of pgdir (pdx la) m) (ptx la) v m

  set_entry-dir : (i : ℕ) → set_entry.words pgdir i ≡ m.words pgdir i
  unfolding set_entry set_word
  set_entry-dir i =
      let f = t.frames (pdx la) here in
      let e : (table_of pgdir (pdx la) m == pgdir) ≡ false = ground (arith, f.1) in rw e refl

  set_entry-word :
      (a : ℕ)
      → same_page la a ≡ false
      → present (m.words pgdir (pdx a)) ≡ true
      → set_entry.words (table_of pgdir (pdx a) m) (ptx a)
        ≡ m.words (table_of pgdir (pdx a) m) (ptx a)
  unfolding set_entry set_word
  set_entry-word a other in_it =
      elim (Bool-cases (table_of pgdir (pdx la) m == table_of pgdir (pdx a) m)) [
        | inr e ↦ rw e refl
        | inl e ↦
            let one = t.apart (pdx la) (pdx a) here in_it (ground (arith, e)) in
            let there : (ptx la == ptx a) ≡ false = ground (arith, other, one) in
            rw (e, there) (ap (λ x. m.words x (ptx a)) (ground (arith, e)))
      ]

  set_entry-rest :
      (a : ℕ) → same_page la a ≡ false → entry_at pgdir a set_entry ≡ entry_at pgdir a m
  set_entry-rest a other =
      let d = set_entry-dir (pdx a) in
      elim (Bool-cases (present (m.words pgdir (pdx a)))) [
        | inr out ↦ rw (d, out) refl
        | inl in_it ↦ rw (d, in_it) (set_entry-word a other in_it)
      ]

  pub set_entry-Entries : Entries pgdir la m set_entry
  unfolding set_entry set_word
  set_entry-Entries = record {
    tables = record {
      sound = t.sound;
      small = t.small;
      bounded = t.bounded;
      own = t.own;
      frames = λ i h. let d = set_entry-dir i in let f = t.frames i (rw d at h) in rw d f;
      apart = λ i j hi hj e.
          let di = set_entry-dir i in
          let dj = set_entry-dir j in
          t.apart i j (rw di at hi) (rw dj at hj)
            (ap (λ x. x / 4096) (sym di) ∙ e ∙ ap (λ x. x / 4096) dj);
    };
    npage = refl;
    dir = set_entry-dir;
    rest = set_entry-rest;
  }

  set_entry-value : set_entry.words (table_of pgdir (pdx la) m) (ptx la) ≡ v
  unfolding set_entry set_word
  set_entry-value =
      let t' : (table_of pgdir (pdx la) m == table_of pgdir (pdx la) m) ≡ true = ground arith in
      let i' : (ptx la == ptx la) ≡ true = ground arith in rw (t', i') refl

  pub set_entry-here : entry_at pgdir la set_entry ≡ v
  set_entry-here = let d = set_entry-dir (pdx la) in rw (d, here) set_entry-value

-- A state with the same frames has the same entries.
pub words-Entries :
    (pgdir la : ℕ) (m m' : PhysicalMemory)
    → m'.words ≡ m.words
    → Tables pgdir m'
    → m'.pool.npage ≡ m.pool.npage
    → Entries pgdir la m m'
words-Entries pgdir la m m' e t n = record {
  tables = t;
  npage = n;
  dir = λ i. ap (λ f. f pgdir i) e;
  rest = λ a h.
      ap (λ f. if present (f pgdir (pdx a)) then f (f pgdir (pdx a) / 4096) (ptx a) else 0) e;
}

pub write-Entries :
    (pgdir la v : ℕ) (m m' : PhysicalMemory)
    → m'.words ≡ m.words
    → Tables pgdir m'
    → m'.pool.npage ≡ m.pool.npage
    → present (m.words pgdir (pdx la)) ≡ true
    → Entries pgdir la m (set_word (table_of pgdir (pdx la) m) (ptx la) v m')
unfolding set_entry
write-Entries pgdir la v m m' e t n here =
    let here' = ap (λ f. present (f pgdir (pdx la))) e ∙ here in
    Entries-trans (words-Entries pgdir la m m' e t n) (
      subst (λ table. Entries pgdir la m' (set_word table (ptx la) v m'))
        (ap (λ f. f pgdir (pdx la) / 4096) e) (set_entry-Entries pgdir la v m' t here'))

pub write-here :
    (pgdir la v : ℕ) (m m' : PhysicalMemory)
    → m'.words ≡ m.words
    → Tables pgdir m'
    → present (m.words pgdir (pdx la)) ≡ true
    → entry_at pgdir la (set_word (table_of pgdir (pdx la) m) (ptx la) v m') ≡ v
unfolding set_entry
write-here pgdir la v m m' e t here =
    let here' = ap (λ f. present (f pgdir (pdx la))) e ∙ here in
    subst (λ table. entry_at pgdir la (set_word table (ptx la) v m') ≡ v)
      (ap (λ f. f pgdir (pdx la) / 4096) e) (set_entry-here pgdir la v m' t here')
