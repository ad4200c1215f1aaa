-- ===== src/Vm/Tests.antt =====
-- The theorems on an address space of two areas: 0x400000 to 0x403000, and a stack from 0x500000 to
-- 0x502000.
use os_edf.Prelude.{ℕ, ◌+◌, ◌-◌, ◌%◌, ◌^◌, ◌≡◌, refl, inr, true, [], ◌∷◌, arith}
use os_edf.Prelude.Int.{pos}
use os_edf.Prelude.Run.{Ends}
use os_edf.Vm.{
  Vma, Mm, area_at, first_after, vm_read, vm_write, vm_stack, round_down, round_up, mm_map,
  mm_unmap, user_top,
}
use os_edf.Vm.Areas.{IsValid, Areas, within}
use os_edf.Vm.Map.{Mapped, mm_map-Mapped}
use os_edf.Vm.Unmapping.{Unmapped, mm_unmap-Unmapped}
use os_edf.Vm.Space.{user_mem_check, pgfault_area, get_unmapped_area}
use os_edf.Vm.Access.{UserChecked, user_mem_check-Checked}
use os_edf.Vm.Faults.{Served, error_code, user_mem_check-Served}
use os_edf.Vm.Index.{VmaTree, leaf, node, find_vma_rb, find_vma_rb-first_after, in_order}
use os_edf.Vm.Gap.{Highest, get_unmapped_area-Highest}

abbrev heap_area : Vma
heap_area = record {
  ptr = 100;
  vm_start = 0x400000;
  vm_end = 0x403000;
  vm_flags = vm_read + vm_write;
  shmem = 0;
  shmem_off = 0;
}

abbrev stack_area : Vma
stack_area = record {
  ptr = 200;
  vm_start = 0x500000;
  vm_end = 0x502000;
  vm_flags = vm_read + vm_write + vm_stack;
  shmem = 0;
  shmem_off = 0;
}

abbrev address_space : Mm
address_space = record {
  mmap_list = heap_area ∷ stack_area ∷ [];
  mmap_cache = 100;
  map_count = pos 2;
  unmapped = [];
  destroyed = [];
}

address_space-Areas : Areas 0x200000 address_space.mmap_list
address_space-Areas = (
  omega arith,
  (omega arith, refl, refl, omega arith),
  (omega arith, tt),
  (omega arith, (omega arith, refl, refl, omega arith), tt, tt),
)

address_space-IsValid : IsValid address_space
unfolding area_at
address_space-IsValid = record {
  areas = (
    omega arith,
    (omega arith, refl, refl, omega arith),
    (omega arith, tt),
    (omega arith, (omega arith, refl, refl, omega arith), tt, tt),
  );
  counted = refl;
  cache = inr (heap_area, refl);
}

mm_map-Mapped_example :
    Ends
      (λ r.
        IsValid r.0
        × Mapped 300
            (round_down 0x404010)
            (round_up ((0x404010 + 0x2000) % 2 ^ 32))
            address_space
            r)
      (mm_map 300 0x404010 0x2000 vm_read address_space)
mm_map-Mapped_example =
    mm_map-Mapped 300 0x404010 0x2000 vm_read address_space address_space-IsValid
      (omega arith, (omega arith, tt))

mm_unmap-Unmapped_example :
    Ends
      (λ r.
        IsValid r.0
        × Unmapped 300
            (round_down 0x401000)
            (round_up ((0x401000 + 0x1000) % 2 ^ 32))
            address_space
            r)
      (mm_unmap 300 0x401000 0x1000 address_space)
mm_unmap-Unmapped_example =
    mm_unmap-Unmapped 300 0x401000 0x1000 address_space address_space-IsValid
      (omega arith, (omega arith, tt))

user_mem_check-Checked_example :
    Ends
      (UserChecked true 0x400ffe ((0x400ffe + 0x100) % 2 ^ 32) address_space)
      (user_mem_check 3 0x400ffe 0x100 true address_space)
user_mem_check-Checked_example =
    user_mem_check-Checked 3 0x400ffe 0x100 true address_space address_space-IsValid (omega arith)

user_mem_check-Served_example :
    Ends
      (λ r.
        r.0 ≡ true
        → (a : ℕ) → within 0x400ffe ((0x400ffe + 0x100) % 2 ^ 32) a ≡ true
        → Ends (Served true a address_space) (pgfault_area (error_code true) a r.1))
      (user_mem_check 3 0x400ffe 0x100 true address_space)
user_mem_check-Served_example =
    user_mem_check-Served 3 0x400ffe 0x100 true address_space address_space-IsValid (omega arith)

get_unmapped_area-Highest_example :
    Highest 0x3000
      (user_top - 0x3000)
      (get_unmapped_area 0x3000 address_space)
      address_space.mmap_list
get_unmapped_area-Highest_example =
    get_unmapped_area-Highest 0x3000 address_space address_space-Areas (omega arith) (omega arith)

abbrev two_nodes : VmaTree
two_nodes = node (node leaf heap_area leaf) stack_area leaf

find_vma_rb-first_after_example :
    find_vma_rb two_nodes 0x4fffff ≡ first_after 0x4fffff (in_order two_nodes)
unfolding in_order
find_vma_rb-first_after_example =
    find_vma_rb-first_after 0x200000 0x4fffff two_nodes address_space-Areas
