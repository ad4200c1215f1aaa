-- ===== src/Vm/Areas.antt =====
-- The order of the areas, and the addresses that they cover.
use os_edf.Prelude.{
  ℕ, ◌%◌, ◌≤◌, ◌<◌, ◌≡◌, ◌≢◌, refl, ◌⊎◌, Bool, false, ◌&&◌, ◌||◌, List, [], ◌∷◌, some, arith, ltb,
  leb, length,
}
use os_edf.Prelude.Int.{pos}
use os_edf.Vm.{Vma, Mm, area_at}

abbrev pub IsArea : Vma → Type 0
IsArea v = (v.vm_start < v.vm_end) × (v.vm_start % 4096 ≡ 0) × (v.vm_end % 4096 ≡ 0) × (v.ptr ≢ 0)

abbrev pub NotAt : ℕ → List Vma → Type 0
NotAt p [] = Unit
NotAt p (v ∷ vs) = (p ≢ v.ptr) × NotAt p vs

-- From the address lo on: sorted, disjoint, and at pointers of their own
abbrev pub Areas : ℕ → List Vma → Type 0
Areas lo [] = Unit
Areas lo (v ∷ vs) = (lo ≤ v.vm_start) × IsArea v × NotAt v.ptr vs × Areas v.vm_end vs

abbrev pub within : ℕ → ℕ → ℕ → Bool
within start end a = leb start a && ltb a end

-- a lies in one of the areas.
unfoldable pub covered : ℕ → List Vma → Bool
covered a [] = false
covered a (v ∷ vs) = within v.vm_start v.vm_end a || covered a vs

-- v and x have no address in common.
abbrev pub ApartFrom : Vma → Vma → Type 0
ApartFrom v x = (v.ptr ≢ x.ptr) × ((v.vm_end ≤ x.vm_start) ⊎ (x.vm_end ≤ v.vm_start))

abbrev pub Apart : Vma → List Vma → Type 0
Apart v [] = Unit
Apart v (x ∷ xs) = ApartFrom v x × Apart v xs

pub Areas-lower : (lo lo' : ℕ) (vs : List Vma) → lo' ≤ lo → Areas lo vs → Areas lo' vs
Areas-lower lo lo' [] h v = tt
Areas-lower lo lo' (x ∷ vs) h v = (omega arith, v.1, v.2, v.3)

pub Apart-NotAt : (v : Vma) (vs : List Vma) → Apart v vs → NotAt v.ptr vs
Apart-NotAt v [] h = tt
Apart-NotAt v (x ∷ vs) h = (h.0.0, Apart-NotAt v vs h.1)

-- Nothing below the first area, and nothing in front of lo
pub covered-below : (lo a : ℕ) (vs : List Vma) → Areas lo vs → a < lo → covered a vs ≡ false
unfolding covered
covered-below lo a [] v h = refl
covered-below lo a (x ∷ vs) v h = ground (arith, covered-below x.vm_end a vs v.3)

-- The state of an address space: `areas` with the pointers, the count and the cache.
pub record IsValid (mm : Mm) : Type 0 where
  pub areas : Areas 0 mm.mmap_list
  pub counted : mm.map_count ≡ pos (length mm.mmap_list)
  pub cache : (mm.mmap_cache ≡ 0) ⊎ ((v : Vma) × (area_at mm.mmap_cache mm.mmap_list ≡ some v))
