-- ===== src/Paging/Drop.antt =====
-- A page that is freed leaves the tables as they are.
use os_edf.Prelude.{
  ℕ, ◌+◌, ◌<◌, ◌≤◌, ◌≡◌, refl, sym, subst, Bool-cases, false, inl, inr, ◌==◌, arith,
}
use os_edf.Prelude.Run.{Ends, ends, Ends-bind}
use os_edf.Buddy.{Pages, set_at}
use os_edf.Buddy.State.{free_at}
use os_edf.Buddy.Homes.{Usable}
use os_edf.Buddy.Ranges.{in_range, Freed}
use os_edf.Buddy.OnePage.{FreedPage, free_page-Gone}
use os_edf.Frames.{PhysicalMemory, free_pages, clear_range}
use os_edf.Paging.Tables.{table_of, Tables, NotTable}

-- A page that an entry may give up: it is in use, of its zone, and is not the
-- directory or a table.
pub record Mapped (pgdir q : ℕ) (m : PhysicalMemory) : Type 0 where
  pub zone : ℕ
  pub low : m.pool.mem_base zone ≤ q
  pub usable : Usable zone q m.pool
  pub used : free_at q m.pool ≡ 0
  pub below : q < m.pool.npage
  pub plain : m.page_swap q ≡ false
  pub not_dir : (pgdir == q) ≡ false
  pub not_table : NotTable pgdir q m

-- The page joins the free ones, and nothing else changes for the tables.
pub record Dropped (pgdir q : ℕ) (m m' : PhysicalMemory) : Type 0 where
  pub tables : Tables pgdir m'
  pub same_words : m'.words ≡ m.words
  pub npage : m'.pool.npage ≡ m.pool.npage
  pub used : (x : ℕ) → free_at x m.pool ≡ 0 → (q == x) ≡ false → free_at x m'.pool ≡ 0
  pub refs : m'.pool.ref ≡ set_at q 0 m.pool.ref
  pub freed : free_at q m'.pool ≡ 1

less_free : (a b c : ℕ) → a ≡ b + c → c ≡ 0 → 0 < a → 0 < b
less_free a b c e z h = omega (arith, e, z, h)

Dropped-pool :
    (pgdir q : ℕ) (m : PhysicalMemory) (pool : Pages)
    → Tables pgdir m
    → Mapped pgdir q m
    → Freed q 1 m.pool pool
    → FreedPage q m.pool pool
    → Dropped pgdir q m (record m {
      pool = pool;
      page_swap = clear_range q 1 m.page_swap;
      page_dirty = clear_range q 1 m.page_dirty;
      page_active = clear_range q 1 m.page_active;
    })
Dropped-pool pgdir q m pool t o f g =
    let still : (x : ℕ) → free_at x m.pool ≡ 0 → (q == x) ≡ false → free_at x pool ≡ 0 = λ x h e.
      let c = f.counts x in
      let i : in_range x q 1 ≡ 0 = ground (arith, e) in omega (arith, c, i, h) in
    record {
      tables = record {
        sound = f.sound;
        small = subst (λ n. n ≤ 1048576) (sym g.0) t.small;
        bounded = λ x h.
            subst (λ n. x < n) (sym g.0)
              (elim (Bool-cases (q == x)) [
                | inl e ↦ let b = o.below in ground (arith, e, b)
                | inr e ↦
                    let c = f.counts x in
                    let i : in_range x q 1 ≡ 0 = ground (arith, e) in
                    t.bounded x
                      (less_free (free_at x pool) (free_at x m.pool) (in_range x q 1) c i h)
              ]);
        own = still pgdir t.own (let e = o.not_dir in ground (arith, e));
        frames = λ i h.
            let f' = t.frames i h in
            let n = o.not_table i h in
            (
              subst (λ x. table_of pgdir i m < x) (sym g.0) f'.0,
              f'.1,
              still (table_of pgdir i m) f'.2 n,
            );
        apart = t.apart;
      };
      same_words = refl;
      npage = g.0;
      used = still;
      refs = g.1;
      freed =
          let c = f.counts q in
          let i : in_range q q 1 ≡ 1 = ground arith in let u = o.used in omega (arith, c, i, u);
    }

pub free_page-Dropped :
    (pgdir q : ℕ) (m : PhysicalMemory)
    → Tables pgdir m
    → Mapped pgdir q m
    → Ends (Dropped pgdir q m) (free_pages q 1 m)
unfolding free_pages
free_page-Dropped pgdir q m t o =
    Ends-bind (free_page-Gone o.zone q m.pool t.sound o.low o.usable o.used)
      λ pool g. ends (Dropped-pool pgdir q m pool t o g.0 g.1)
