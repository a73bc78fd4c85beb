-- ===== src/Mm/Vmm/Tests.antt =====
-- Address spaces over a machine that never runs out of memory: what is mapped at each address.
use lapis.Base.{
  ℕ, ◌+◌, ◌*◌, ◌/◌, ◌<◌, ◌≤◌, ◌≡◌, refl, inl, inr, Bool, true, false, ◌&&◌, some, none, [], ◌∷◌,
  arith, if◌then◌else◌, ltb, leb, length, put, mod64, ℤ, pos, ◌%◌,
}
use lapis.Mm.Vmm.{Vma, Vmm, Vflags, align_up, align_down, find_vma}
use lapis.Mm.Vmm.Space.{
  Pages, Space, vmm_map, vmm_unmap, vmm_brk, vmm_is_accessible, vmm_create_with,
}
use lapis.Mm.Vmm.Find.{Apart, holder, find_vma-holder}
use lapis.Mm.Vmm.Map.{Mapped, vmm_map-Mapped}
use lapis.Mm.Vmm.Unmap.{vmm_unmap-clears, vmm_unmap-front}
use lapis.Mm.Vmm.Overlap.{vmm_map-overlaps}
use lapis.Mm.Vmm.Access.{Told, vmm_is_accessible-Told, vmm_brk-waits}
use lapis.Mm.Vmm.Handler.{CowPages}
use lapis.Mm.Vmm.Fork.{
  ForkPages, vmm_create, vmm_fork, vmm_fork-Copied, fork_loop, tree_insert, copy_marks,
}
use lapis.Mm.Vmm.Fork

abbrev Memory : Type 0
Memory = ℕ → ℕ

abbrev pages : Pages Memory
pages = record {
  pmm_alloc_page = λ m. (0x7000, m);
  zero_page = λ page m. m;
  map_page = λ pml4 vaddr page f m. put m vaddr page;
  unmap_page = λ pml4 vaddr m. put m vaddr 0;
  get_paddr = λ pml4 vaddr m. m vaddr;
  pfn_db_phys_to_page = λ paddr. paddr;
  vma_alloc = λ m. (true, m);
  vma_free = λ m. m;
}

abbrev cow_pages : CowPages Memory
cow_pages = record {
  is_cow = λ page m. true;
  sharecount = λ page m. 2;
  clear_cow = λ page m. m;
  unshare = λ page m. m;
  release_page = λ page m. m;
  copy_page = λ page paddr m. m;
}

abbrev copies : ForkPages Memory
copies = record {
  mark_cow = λ page m. m;
  share = λ page m. m;
  retain = λ page m. m;
  pte_alloc = λ m. (0x9000, m);
  pte_free = λ pml4 m. m;
  vmm_alloc = λ m. (true, m);
  vmm_free = λ m. m;
}

abbrev lazy_flags : (fixed : Bool) → Vflags
lazy_flags fixed = record {
  present = true;
  writable = true;
  user = true;
  executable = false;
  lazy = true;
  allocated = false;
  shared = false;
  fixed = fixed;
  stack = false;
  mmio = false;
}

abbrev area : (base size : ℕ) → Vma
area base size = record {
  base = base;
  size = size;
  flags = lazy_flags false;
  vnode_backing = 0;
  vnode_offset = 0;
}

-- Two areas, with a gap between them, and the break at the end of the first one.
abbrev vmm : Vmm
vmm = record {
  vmas = area 0x10000 0x4000 ∷ area 0x20000 0x2000 ∷ [];
  vmas_count = 2;
  pml4 = 0x8000;
  owns_pml4 = true;
  mmap_base = 0x40000;
  stack_top = 0x80000;
  brk = 0x14000;
  brk_base = 0x10000;
}

abbrev space : Space Memory
space = record { vmm = vmm; locked = false; mach = λ a. 0 }

vmm-Apart : Apart vmm.vmas
vmm-Apart = omega arith

find_vma-holder_example : find_vma vmm.vmas 0x11234 ≡ some (area 0x10000 0x4000)
find_vma-holder_example = find_vma-holder vmm.vmas 0x11234 vmm-Apart

vmm_map-Mapped_example :
    (r : ℕ × Space Memory) × (vmm_map pages 3 0 0x1800 (lazy_flags false) space ≡ some r)
    × Mapped pages (align_up 0x1800) space r
vmm_map-Mapped_example =
    vmm_map-Mapped pages 0x1800 (lazy_flags false) space vmm-Apart (omega arith) (omega arith)
      (omega arith) refl refl

vmm_unmap-clears_example :
    (r : ℤ × Space Memory) × (vmm_unmap pages 0x10000 0x4000 space ≡ some r)
    × (r.0 ≡ pos 0)
    × (r.1.locked ≡ false)
    × Apart r.1.vmm.vmas
    × ((x : ℕ)
        → holder r.1.vmm.vmas x ≡ (
            if leb (align_down 0x10000) x && ltb x (align_down 0x10000 + align_up 0x4000)
            then none
            else holder vmm.vmas x))
unfolding align_down align_up
vmm_unmap-clears_example =
    vmm_unmap-clears pages 0x10000 0x4000 space vmm-Apart (λ e. omega arith) refl (omega arith)
      (inl (omega arith), (inr (inr (omega arith)), tt))

-- The first page of an area of four.
vmm_unmap-front_example :
    (r : ℤ × Space Memory) × (vmm_unmap pages 0x10000 0x1000 space ≡ some r)
    × (r.0 ≡ pos 0)
    × ((x : ℕ) → 0x10000 ≤ x → x < 0x14000 → holder r.1.vmm.vmas x ≡ some (area 0x10000 0x4000))
unfolding align_down align_up
vmm_unmap-front_example =
    vmm_unmap-front pages 0x10000 0x1000 space vmm-Apart (λ e. omega arith) refl
      (area 0x10000 0x4000) (omega arith) (inl refl) (omega arith) (omega arith) (omega arith)
      (λ w e. ground arith)

-- A fixed mapping of two pages, the second of which is the first one of an area.
vmm_map-overlaps_example :
    (r : ℕ × Space Memory) × (vmm_map pages 3 0x1f000 0x2000 (lazy_flags true) space ≡ some r)
    × (r.0 ≡ align_down 0x1f000)
    × ¬ Apart r.1.vmm.vmas
unfolding align_down align_up
vmm_map-overlaps_example =
    vmm_map-overlaps pages 3 0x1f000 0x2000 (lazy_flags true) space (area 0x20000 0x2000) vmm-Apart
      refl (λ e. omega arith) refl refl refl refl (inr (inl refl)) (omega arith) (omega arith)

vmm_is_accessible-Told_example :
    (r : Bool) × (vmm_is_accessible 3 vmm.vmas 0x10010 0x3000 (lazy_flags false) ≡ some r)
    × Told
        (lazy_flags false)
        vmm.vmas
        (0x10010 / 4096 * 4096)
        ((0x10010 + 0x3000 + 4095) / 4096 * 4096)
        r
vmm_is_accessible-Told_example =
    vmm_is_accessible-Told (lazy_flags false) vmm.vmas 0x10010 0x3000 vmm-Apart (λ e. omega arith)
      (omega arith)

vmm_brk-waits_example : vmm_brk pages 3 0x15000 space ≡ none
unfolding align_up
vmm_brk-waits_example =
    vmm_brk-waits pages 3 0x15000 space (omega arith) (omega arith) (omega arith) (λ e. omega arith)

-- The copy of `vmm`.
abbrev child : Vmm
child = record vmm { pml4 = 0x9000 }

copy-child : (vmm_fork pages copies vmm (λ a. 0)).0 ≡ some child
unfolding vmm_fork vmm_create vmm_create_with fork_loop tree_insert Fork.fork_pages copy_marks
copy-child = refl

vmm_fork-Copied_example :
    (child.vmas ≡ vmm.vmas)
    × (child.vmas_count ≡ length vmm.vmas % mod64)
    × (child.mmap_base ≡ vmm.mmap_base)
    × (child.stack_top ≡ vmm.stack_top)
    × (child.brk ≡ vmm.brk)
    × (child.brk_base ≡ vmm.brk_base)
vmm_fork-Copied_example = vmm_fork-Copied pages copies vmm child (λ a. 0) vmm-Apart copy-child
