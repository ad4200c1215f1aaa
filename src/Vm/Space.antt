-- ===== src/Vm/Space.antt =====
-- The other operations of vmm.c on an address space.
use os_edf.Prelude.{
  ℕ, zero, suc, ◌+◌, ◌-◌, ◌%◌, ◌^◌, Bool, true, false, not, ◌&&◌, ◌||◌, List, [], ◌∷◌, Option, none,
  some, ltb, leb, ◌==◌, if◌then◌else◌,
}
use os_edf.Prelude.Int.{ℤ, pos, negsuc, eqz}
use os_edf.Prelude.Run.{Run, ok, fault, out_of_fuel, ◌>>=◌}
use os_edf.CString.{Memory, memcpy}
use os_edf.Vm.{
  Vma, Mm, page_size, user_base, user_top, vm_read, vm_write, vm_stack, vm_share, has_flag,
  round_down, round_up, user_access, vma_create, vma_destroy, find_vma, insert_vma_struct, mm_map,
  mm_unmap, set_area,
}

pub mm_create : Mm
mm_create = record {
  mmap_list = [];
  mmap_cache = 0;
  map_count = pos 0;
  unmapped = [];
  destroyed = [];
}

-- The while loop takes the first area until the list is empty.
pub mm_destroy : List Vma → Mm → Mm
unfolding vma_destroy
mm_destroy [] mm = mm
mm_destroy (v ∷ vs) mm = mm_destroy vs (vma_destroy v (record mm { mmap_list = vs }))

-- The last areas first, as along list_prev
unfoldable pub backwards : List Vma → List Vma → List Vma
backwards [] rs = rs
backwards (v ∷ vs) rs = backwards vs (v ∷ rs)

unfoldable pub gap_walk : ℕ → ℕ → List Vma → ℕ
gap_walk len start [] = if leb user_base start then start else 0
gap_walk len start (v ∷ vs) =
    let rest = gap_walk len (if ltb v.vm_start (start + len) then v.vm_start - len else start) vs in
    if leb v.vm_end start
    then start
    else (if ltb v.vm_start (start + len) && leb v.vm_start len then 0 else rest)

unfoldable pub get_unmapped_area : ℕ → Mm → ℕ
unfolding gap_walk backwards
get_unmapped_area len mm =
    if len == 0 || ltb user_top len
    then 0
    else gap_walk len (user_top - len) (backwards mm.mmap_list [])

-- The flag that an access needs
abbrev pub access_flag : Bool → ℕ
access_flag write = if write then vm_write else vm_read

-- The loop of user_mem_check
unfoldable pub mem_loop : ℕ → Bool → ℕ → ℕ → Mm → Run (Bool × Mm)
mem_loop zero write start end mm = out_of_fuel
mem_loop (suc fuel) write start end mm =
    let body : Run (Bool × Mm) = do
      (found, mm₁) ← find_vma start mm
      elim found [
        | none ↦ ok (false, mm₁)
        | some v ↦
            let rest = mem_loop fuel write v.vm_end end mm₁ in
            let guard =
              write && has_flag v.vm_flags vm_stack && ltb start (v.vm_start + page_size) in
            if ltb start v.vm_start || not (has_flag v.vm_flags (access_flag write)) || guard
            then ok (false, mm₁)
            else rest
      ]
    in if ltb start end then body else ok (true, mm)

-- With a null mm it is KERN_ACCESS, which is not about areas.
unfoldable pub user_mem_check : ℕ → ℕ → ℕ → Bool → Mm → Run (Bool × Mm)
unfolding mem_loop
user_mem_check fuel addr len write mm =
    let end = (addr + len) % 2 ^ 32 in
    if user_access addr end then mem_loop fuel write addr end mm else ok (false, mm)

-- The heap of a process grows: what is in the way is unmapped first.
pub mm_brk : ℕ → ℕ → ℕ → Mm → Run (Mm × ℤ)
unfolding vma_create set_area
mm_brk ptr addr len mm =
    let start = round_down addr in
    let end = round_up ((addr + len) % 2 ^ 32) in
    let flags = vm_read + vm_write in
    let create : Mm → Run (Mm × ℤ) = λ mm₁. elim (vma_create ptr start end flags) [
      | none ↦ ok (mm₁, negsuc 3)
      | some v ↦ do mm₂ ← insert_vma_struct v mm₁; ok (mm₂, pos 0)
    ] in
    let grow : Run (Mm × ℤ) = do
      (mm₁, ret) ← mm_unmap ptr start (end - start) mm
      (found, mm₂) ← find_vma (start - 1) mm₁
      let place : Run (Mm × ℤ) = elim found [
        | none ↦ create mm₂
        | some v ↦
            if v.vm_end == start && (v.vm_flags == flags)
            then ok (
              record mm₂ { mmap_list = set_area (record v { vm_end = end }) mm₂.mmap_list },
              pos 0,
            )
            else create mm₂
      ]
      if eqz ret (pos 0) then place else ok (mm₁, ret)
    in if user_access start end then grow else ok (mm, negsuc 2)

-- mm_map_shmem: a mapping of a shared memory of the length len; `shmem` is its pointer. The area that
-- mm_map stores is found by its address.
pub mm_map_shmem : ℕ → ℕ → ℕ → ℕ → ℕ → Mm → Run (Mm × ℤ)
unfolding set_area
mm_map_shmem ptr addr flags shmem len mm =
    let map_it : Run (Mm × ℤ) = do
      (mm₁, ret) ← mm_map ptr addr len flags mm
      (found, mm₂) ← find_vma addr mm₁
      let shared : Run (Mm × ℤ) = elim found [
        | none ↦ fault
        | some v ↦ ok (
          record mm₁ {
            mmap_list =
                set_area
                  (record v { shmem = shmem; shmem_off = 0; vm_flags = v.vm_flags + vm_share })
                  mm₁.mmap_list;
          },
          pos 0,
        )
      ]
      if eqz ret (pos 0) then shared else ok (mm₁, ret)
    in if not (addr % page_size == 0) || (shmem == 0) then ok (mm, negsuc 2) else map_it

-- dup_mmap along list_prev, with the pointers that kmalloc gives; copy_range always has memory.
pub dup_areas : List ℕ → List Vma → Mm → Run (Mm × ℤ)
unfolding vma_create
dup_areas ptrs [] to = ok (to, pos 0)
dup_areas [] (v ∷ vs) to = ok (to, negsuc 3)
dup_areas (p ∷ ptrs) (v ∷ vs) to = elim (vma_create p v.vm_start v.vm_end v.vm_flags) [
  | none ↦ ok (to, negsuc 3)
  | some n ↦ do
    let share = has_flag v.vm_flags vm_share
    let n' = if share then record n { shmem = v.shmem; shmem_off = v.shmem_off } else n
    to' ← insert_vma_struct n' to
    dup_areas ptrs vs to'
]

pub dup_mmap : List ℕ → Mm → Mm → Run (Mm × ℤ)
unfolding dup_areas backwards
dup_mmap ptrs to from = dup_areas ptrs (backwards from.mmap_list []) to

abbrev pub vm_exec : ℕ
vm_exec = 4

abbrev pub pte_u : ℕ
pte_u = 4

abbrev pub pte_w : ℕ
pte_w = 2

-- The switch over error_code & 3, which comes before anything is mapped
abbrev pub fault_allowed : ℕ → ℕ → Bool
fault_allowed code flags =
    if code == 1
    then false
    else (if code == 0
        then has_flag flags vm_read || has_flag flags vm_exec
        else has_flag flags vm_write)

-- The permissions of the page that do_pgfault maps at an address, or none if it fails
abbrev pub fault_perm : ℕ → ℕ → Vma → Option ℕ
fault_perm code addr v =
    let outside = ltb addr v.vm_start in
    let guard = has_flag v.vm_flags vm_stack && ltb addr (v.vm_start + page_size) in
    if outside || guard || not (fault_allowed (code % 4) v.vm_flags)
    then none
    else some (if has_flag v.vm_flags vm_write then pte_u + pte_w else pte_u)

-- The first part of do_pgfault, up to the page tables
unfoldable pub pgfault_area : ℕ → ℕ → Mm → Run (Option ℕ × Mm)
pgfault_area code addr mm = do
  (found, mm') ← find_vma addr mm
  ok (elim found [ none ↦ none | some v ↦ fault_perm code addr v ], mm')

-- With an mm, and one memory for the kernel and the user
pub copy_from_user : ℕ → ℕ → ℕ → ℕ → Bool → Mm → Memory → Run (Bool × Mm × Memory)
unfolding user_mem_check
copy_from_user fuel dst src len writable mm m = do
  (fine, mm') ← user_mem_check fuel src len writable mm
  ok (fine, mm', if fine then memcpy m dst src len else m)

pub copy_to_user : ℕ → ℕ → ℕ → ℕ → Mm → Memory → Run (Bool × Mm × Memory)
unfolding user_mem_check
copy_to_user fuel dst src len mm m = do
  (fine, mm') ← user_mem_check fuel dst len true mm
  ok (fine, mm', if fine then memcpy m dst src len else m)
