-- ===== src/Buddy/Trim.antt =====
-- buddy_alloc_pages: the smallest block that is large enough, without its last pages.
use os_edf.Prelude.{
  ℕ, ◌+◌, ◌-◌, ◌^◌, ◌≤◌, ◌<◌, ◌≡◌, ap, subst, ◌∙◌, true, [], Option, none, some, ltb, ◌==◌,
  if◌then◌else◌, arith,
}
use native.Mathlib.Nat.{pow-le-pow_right}
use os_edf.Prelude.Run.{Run, ok, ◌>>=◌, Ends, ends, Ends-bind, Ends-if}
use os_edf.Buddy.{Pages, buddy_free_pages, buddy_alloc_pages}
use os_edf.Buddy.State.{free_at}
use os_edf.Buddy.Homes.{Ready, Sound}
use os_edf.Buddy.Split.{Allocated, allocated, exhausted}
use os_edf.Buddy.Ranges.{in_range, in_range-split, ReadyRange, Freed}
use os_edf.Buddy.Rising.{free_pages-Freed}
use os_edf.Buddy.Alloc.{Given, alloc_pages_sub-Given, LeastOrder, getorder-LeastOrder}

-- How a request for n pages ends: with n pages of one zone that were free and now are not, or with
-- nothing and an unchanged state, if no block is large enough
pub data Served (n : ℕ) (st : Pages) : Option ℕ × Pages → Type 0 where
  served :
      {page : ℕ} {st' : Pages} (zone : ℕ)
      → st'.mem_base zone ≤ page
      → ReadyRange zone page n st'
      → ((q : ℕ) → free_at q st' + in_range q page n ≡ free_at q st)
      → Served n st (some page, st')
  refused :
      {order : ℕ}
      → LeastOrder n order
      → ((o : ℕ) → order ≤ o → o ≤ 10 → st.free_list o ≡ [])
      → Served n st (none, st)

-- The pages behind the first n of a block go back.
Served-trimmed :
    (zone n order page : ℕ) (st st1 st' : Pages)
    → n ≤ 2 ^ order
    → st1.mem_base zone ≤ page
    → Ready zone order page st1
    → ((q : ℕ) → free_at q st1 + in_range q page (2 ^ order) ≡ free_at q st)
    → Freed (page + n) (2 ^ order - n) st1 st'
    → Served n st (some page, st')
Served-trimmed zone n order page st st1 st' fits low ready counts f =
    let start = ap (λ b. b zone) f.frame.base in
    served zone (omega (arith, start, low))
      (λ q inside.
        let s = in_range-split q page n (2 ^ order) fits in
        let r = ready q (ground (arith, inside, fits)) in
        let behind : in_range q (page + n) (2 ^ order - n) ≡ 0 = ground (arith, inside) in
        let c = f.counts q in
        (
          (f.frame.keeps q r.0.0, ap (λ z. z q) f.frame.zone ∙ r.0.1),
          omega (arith, c, behind, r.1),
        ))
      λ q.
        let s = in_range-split q page n (2 ^ order) fits in
        let c = counts q in let d = f.counts q in omega (arith, s, c, d)

-- What buddy_alloc_pages does with the block
trim : ℕ → ℕ → ℕ → Pages → Run (Option ℕ × Pages)
trim n order p st =
    if n == 2 ^ order
    then ok (some p, st)
    else do st'' ← buddy_free_pages (p + n) (2 ^ order - n) st; ok (some p, st'')

trim-Served :
    (zone n order page : ℕ) (st st1 : Pages)
    → 0 < n
    → LeastOrder n order
    → Sound st1
    → st1.mem_base zone ≤ page
    → Ready zone order page st1
    → ((q : ℕ) → free_at q st1 + in_range q page (2 ^ order) ≡ free_at q st)
    → Ends (λ r. Sound r.1 × Served n st r) (trim n order page st1)
unfolding trim
trim-Served zone n order page st st1 some_pages l s low ready counts =
    let bound = pow-le-pow_right {n = 2} (omega arith) {i = order} {j = 10} l.small in
    let fits = l.fits in
    Ends-if (n == 2 ^ order)
      (λ e.
        let all : 2 ^ order ≡ n = ground arith in
        ends (
          s,
          served zone low (subst (λ m. ReadyRange zone page m st1) all ready)
              (subst (λ m. (q : ℕ) → free_at q st1 + in_range q page m ≡ free_at q st) all counts),
        ))
      λ e.
        let more : n < 2 ^ order = ground (arith, fits) in
        Ends-bind
          (free_pages-Freed zone (page + n) (2 ^ order - n) st1 s (omega (arith, more))
            (omega (arith, bound, some_pages)) (omega (arith, low))
            λ q inside. ready q (ground (arith, inside, more)))
          λ st' f.
            ends (f.sound, Served-trimmed zone n order page st st1 st' fits low ready counts f)

after-Served :
    (n order : ℕ) (st : Pages) (r : Option ℕ × Pages)
    → 0 < n
    → LeastOrder n order
    → Sound r.1
    → Given order r
    → Allocated order st r
    → Ends
        (λ r'. Sound r'.1 × Served n st r')
        (elim r.0 [ none ↦ ok (none, r.1) | some p ↦ trim n order p r.1 ])
after-Served n order st (some page, st1) some_pages l s (zone, low, ready) (allocated counts) =
    trim-Served zone n order page st st1 some_pages l s low ready counts
after-Served n order st (none, st1) some_pages l s g (exhausted none_left) =
    ends (s, refused l none_left)

-- When a page has the property flag exactly if it heads a block in the list of its order, which
-- is at most 10, each list's counter is its length modulo 2^32, every free block lies in one
-- zone at or behind its base and clear of reserved pages, and no page lies in two free blocks,
-- for 1 to 1024 pages: buddy_alloc_pages ends with a state of that kind, and either it returns
-- the first of n pages of one zone, none reserved, which were free and no longer are, every
-- other page being free as before, or it returns NULL with nothing changed, and no list of an
-- order, up to 10, whose blocks have at least n pages has a block.
pub alloc_pages-Served :
    (n : ℕ) (st : Pages)
    → Sound st
    → 0 < n
    → n ≤ 1024
    → Ends (λ r. Sound r.1 × Served n st r) (buddy_alloc_pages n st)
unfolding buddy_alloc_pages trim
alloc_pages-Served n st s some_pages small =
    let e : ltb 0 n ≡ true = ground (arith, some_pages) in
    rw e (
      Ends-bind (getorder-LeastOrder n small) λ order l.
        Ends-bind (alloc_pages_sub-Given order st s l.small)
          λ r (s', g, f, a). after-Served n order st r some_pages l s' g a)
