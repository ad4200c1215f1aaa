-- ===== src/Vm.antt =====
-- kern/mm/vmm.c and vmm.h: the areas of an address space, kept in a list that is sorted by address.
-- An area stands in the list with its pointer. The red-black tree that the kernel builds besides
-- from 32 areas on is a second index of the same areas; Vm/Index is about the search in it. Calls of the page
-- tables and of kfree are logged in the last two fields of Mm.

pub mod Areas
pub mod Insert
pub mod Find
pub mod Index
pub mod Map
pub mod Split
pub mod TakeOut
pub mod Unmap
pub mod Middle
pub mod Unmapping
pub mod Space
pub mod Access
pub mod Faults
pub mod Gap
mod Tests
use os_edf.Prelude.{
  ℕ, ◌+◌, ◌-◌, ◌/◌, ◌%◌, ◌^◌, Bool, true, false, not, ◌&&◌, ◌||◌, List, [], ◌∷◌, Option, none, some,
  ltb, leb, ◌==◌, if◌then◌else◌,
}
use os_edf.Prelude.Int.{ℤ, pos, negsuc, ◌+ℤ◌, ◌-ℤ◌}
use os_edf.Prelude.Run.{Run, ok, fault, assert, ◌>>=◌, ◌>>◌}

pub record Vma : Type 0 where
  pub ptr : ℕ
  pub vm_start : ℕ
  pub vm_end : ℕ
  pub vm_flags : ℕ
  pub shmem : ℕ
  pub shmem_off : ℕ

pub record Mm : Type 0 where
  pub mmap_list : List Vma
  pub mmap_cache : ℕ
  pub map_count : ℤ
  pub unmapped : List (ℕ × ℕ)
  pub destroyed : List Vma

abbrev pub page_size : ℕ
page_size = 4096

abbrev pub user_base : ℕ
user_base = 0x200000

abbrev pub user_top : ℕ
user_top = 0xb0000000

abbrev pub vm_read : ℕ
vm_read = 1

abbrev pub vm_write : ℕ
vm_write = 2

abbrev pub vm_stack : ℕ
vm_stack = 8

abbrev pub vm_share : ℕ
vm_share = 16

-- flags & bit, for a bit that is a power of 2
abbrev pub has_flag : ℕ → ℕ → Bool
has_flag flags bit = (flags / bit) % 2 == 1

-- ROUNDDOWN and ROUNDUP to PGSIZE, on 32 bits
abbrev pub round_down : ℕ → ℕ
round_down a = a - a % page_size

abbrev pub round_up : ℕ → ℕ
round_up a = round_down ((a + 4095) % 2 ^ 32)

abbrev pub user_access : ℕ → ℕ → Bool
user_access start end = leb user_base start && (ltb start end && leb end user_top)

-- A null pointer from kmalloc gives no area.
pub vma_create : ℕ → ℕ → ℕ → ℕ → Option Vma
vma_create ptr start end flags =
    if ptr == 0
    then none
    else some (record {
      ptr = ptr;
      vm_start = start;
      vm_end = end;
      vm_flags = flags;
      shmem = 0;
      shmem_off = 0;
    })

pub vma_destroy : Vma → Mm → Mm
vma_destroy v mm = record mm { destroyed = v ∷ mm.destroyed }

-- The area that a pointer points to
unfoldable pub area_at : ℕ → List Vma → Option Vma
area_at p [] = none
area_at p (v ∷ vs) = if v.ptr == p then some v else area_at p vs

-- The walk along mmap_list: the first area that ends behind the address
pub first_after : ℕ → List Vma → Option Vma
first_after addr [] = none
first_after addr (v ∷ vs) = if ltb addr v.vm_end then some v else first_after addr vs

-- The cached area, if it holds the address
pub cached : ℕ → Mm → Run (Option Vma)
unfolding area_at
cached addr mm = if mm.mmap_cache == 0 then ok none else elim (area_at mm.mmap_cache mm.mmap_list) [
  | none ↦ fault
  | some v ↦ ok (if leb v.vm_start addr && ltb addr v.vm_end then some v else none)
]

abbrev pub put_cache : Option Vma → Mm → Mm
put_cache none mm = mm
put_cache (some v) mm = record mm { mmap_cache = v.ptr }

abbrev pub or_else : Option Vma → Option Vma → Option Vma
or_else (some v) o = some v
or_else none o = o

pub find_vma : ℕ → Mm → Run (Option Vma × Mm)
unfolding cached first_after
find_vma addr mm = do
  c ← cached addr mm
  let v = or_else c (first_after addr mm.mmap_list)
  ok (v, put_cache v mm)

abbrev pub starts_before : ℕ → Option Vma → Option Vma
starts_before end none = none
starts_before end (some v) = if leb end v.vm_start then none else some v

pub find_vma_intersection : ℕ → ℕ → Mm → Run (Option Vma × Mm)
unfolding find_vma
find_vma_intersection start end mm = do (v, mm') ← find_vma start mm; ok (starts_before end v, mm')

abbrev pub check_vma_overlap : Vma → Vma → Run (Unit {0})
check_vma_overlap prev next = do
  assert (ltb prev.vm_start prev.vm_end)
  assert (leb prev.vm_end next.vm_start)
  assert (ltb next.vm_start next.vm_end)

abbrev pub check_prev : Option Vma → Vma → Run (Unit {0})
check_prev none v = ok tt
check_prev (some prev) v = check_vma_overlap prev v

-- From the area `prev` on: v goes in front of the first that starts behind it.
pub insert_behind : Option Vma → Vma → List Vma → Run (List Vma)
insert_behind prev v [] = do check_prev prev v; ok (v ∷ [])
insert_behind prev v (x ∷ xs) =
    let here : Run (List Vma) = do check_prev prev v; check_vma_overlap v x; ok (v ∷ x ∷ xs)
    in let rest : Run (List Vma) = do ys ← insert_behind (some x) v xs; ok (x ∷ ys)
      in if ltb v.vm_start x.vm_start then here else rest

pub insert_vma_struct : Vma → Mm → Run Mm
insert_vma_struct v mm = do
  assert (ltb v.vm_start v.vm_end)
  vs ← insert_behind none v mm.mmap_list
  ok (record mm { mmap_list = vs; map_count = mm.map_count +ℤ pos 1 })

pub remove_at : ℕ → List Vma → List Vma
remove_at p [] = []
remove_at p (v ∷ vs) = if v.ptr == p then vs else v ∷ remove_at p vs

pub remove_vma_struct : Vma → Mm → Mm
unfolding remove_at
remove_vma_struct v mm = record mm {
  mmap_list = remove_at v.ptr mm.mmap_list;
  mmap_cache = if v.ptr == mm.mmap_cache then 0 else mm.mmap_cache;
  map_count = mm.map_count -ℤ pos 1;
}

-- vm_flags &= ~VM_SHARE
abbrev pub unshared : ℕ → ℕ
unshared flags = if has_flag flags vm_share then flags - vm_share else flags

-- `ptr` is what kmalloc gives to vma_create.
pub mm_map : ℕ → ℕ → ℕ → ℕ → Mm → Run (Mm × ℤ)
unfolding vma_create
mm_map ptr addr len flags mm =
    let start = round_down addr in
    let end = round_up ((addr + len) % 2 ^ 32) in
    let create : Mm → Run (Mm × ℤ) = λ mm₁. elim (vma_create ptr start end (unshared flags)) [
      | none ↦ ok (mm₁, negsuc 3)
      | some v ↦ do mm₂ ← insert_vma_struct v mm₁; ok (mm₂, pos 0)
    ] in
    let search : Run (Mm × ℤ) = do
      (found, mm₁) ← find_vma start mm
      elim (starts_before end found) [ none ↦ create mm₁ | some v ↦ ok (mm₁, negsuc 2) ]
    in if user_access start end then search else ok (mm, negsuc 2)

pub vma_resize : ℕ → ℕ → Vma → Run Vma
vma_resize start end v = do
  assert (start % page_size == 0 && end % page_size == 0)
  assert (leb v.vm_start start && (ltb start end && leb end v.vm_end))
  let off = if has_flag v.vm_flags vm_share then v.shmem_off + (start - v.vm_start) else v.shmem_off
  ok (record v { vm_start = start; vm_end = end; shmem_off = off })

-- The areas from the one at p on
pub from_area : ℕ → List Vma → List Vma
from_area p [] = []
from_area p (v ∷ vs) = if v.ptr == p then v ∷ vs else from_area p vs

-- The first loop of mm_unmap: the areas that start before the end move to free_list, at its head.
pub take_out : ℕ → List Vma → Mm → List Vma → Mm × List Vma
take_out end [] mm free_list = (mm, free_list)
take_out end (v ∷ vs) mm free_list =
    let rest = take_out end vs (remove_vma_struct v mm) (v ∷ free_list) in
    if ltb v.vm_start end then rest else (mm, free_list)

abbrev pub log_unmap : ℕ → ℕ → Mm → Mm
log_unmap start end mm = record mm { unmapped = (start, end) ∷ mm.unmapped }

-- One round of the second loop: what is left of an area goes back into the list.
pub put_back_one : ℕ → ℕ → Vma → Mm → Run Mm
unfolding vma_destroy
put_back_one start end v mm =
    let left : Run Mm = do
      w ← vma_resize v.vm_start start v
      mm' ← insert_vma_struct w mm
      ok (log_unmap start v.vm_end mm')
    in let right : Run Mm = do
      w ← vma_resize end v.vm_end v
      mm' ← insert_vma_struct w mm
      ok (log_unmap v.vm_start end mm')
      in if ltb v.vm_start start
        then left
        else (if ltb end v.vm_end
            then right
            else ok (log_unmap v.vm_start v.vm_end (vma_destroy v mm)))

pub put_back : ℕ → ℕ → List Vma → Mm → Run Mm
put_back start end [] mm = ok mm
put_back start end (v ∷ vs) mm = do mm' ← put_back_one start end v mm; put_back start end vs mm'

-- A write to the area at a pointer
pub set_area : Vma → List Vma → List Vma
set_area w [] = []
set_area w (v ∷ vs) = if v.ptr == w.ptr then w ∷ vs else v ∷ set_area w vs

-- The range lies inside the area v, which is cut in two.
pub unmap_middle : ℕ → ℕ → ℕ → Vma → Mm → Run (Mm × ℤ)
unfolding vma_create set_area
unmap_middle ptr start end v mm = elim (vma_create ptr v.vm_start start v.vm_flags) [
  | none ↦ ok (mm, negsuc 3)
  | some nvma ↦ do
    w ← vma_resize end v.vm_end v
    mm' ← insert_vma_struct nvma (record mm { mmap_list = set_area w mm.mmap_list })
    ok (log_unmap start end mm', pos 0)
]

-- What is left to do once an area is found that ends behind the start
pub unmap_from : ℕ → ℕ → ℕ → Vma → Mm → Run (Mm × ℤ)
unfolding from_area take_out unmap_middle
unmap_from ptr start end v mm =
    let several : Run (Mm × ℤ) = do
      let (mm₁, free_list) = take_out end (from_area v.ptr mm.mmap_list) mm []
      mm₂ ← put_back start end free_list mm₁
      ok (mm₂, pos 0)
    in if ltb v.vm_start start && ltb end v.vm_end then unmap_middle ptr start end v mm else several

pub mm_unmap : ℕ → ℕ → ℕ → Mm → Run (Mm × ℤ)
unfolding unmap_from
mm_unmap ptr addr len mm =
    let start = round_down addr in
    let end = round_up ((addr + len) % 2 ^ 32) in
    let search : Run (Mm × ℤ) = do
      (found, mm₁) ← find_vma start mm
      elim (starts_before end found) [
        | none ↦ ok (mm₁, pos 0)
        | some v ↦ unmap_from ptr start end v mm₁
      ]
    in if user_access start end then search else ok (mm, negsuc 2)
