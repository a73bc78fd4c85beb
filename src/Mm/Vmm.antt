-- ===== src/Mm/Vmm.antt =====
-- kernel/src/mm/vmm.c: the areas of an address space, and how they are looked up. The tree of the
-- areas is here the sequence of its objects: Rbtree shows that the operations of util/rbtree.c are
-- those of the sequence.
pub mod Space
pub mod Handler
pub mod Fault
pub mod Find
pub mod Gap
pub mod Map
pub mod Unmap
pub mod Overlap
pub mod Access
pub mod Fork
mod Tests
use lapis.Base.{
  ℕ, suc, ◌+◌, ◌-◌, ◌*◌, ◌/◌, ◌%◌, Bool, true, false, not, ◌&&◌, ◌||◌, Option, some, none, List, [],
  ◌∷◌, if◌then◌else◌, ltb, leb, ◌==◌, add64, sub64, mod64, zero,
}
use lapis.Rbtree.Sequence.{lower_bound, or_else}
use lapis.Rbtree.Search.{last}
use lapis.Mm.Page.{page_size}

-- The VFLAG_* bits, one truth value each; no other bit is ever set.
pub record Vflags : Type 0 where
  pub present : Bool
  pub writable : Bool
  pub user : Bool
  pub executable : Bool
  pub lazy : Bool
  pub allocated : Bool
  pub shared : Bool
  pub fixed : Bool
  pub stack : Bool
  pub mmio : Bool

-- The PFLAG_* bits that an area asks for.
pub record Pflags : Type 0 where
  pub present : Bool
  pub write : Bool
  pub user : Bool
  pub nx : Bool
  pub pcd : Bool
  pub pwt : Bool

-- `vma_t`, without its node of the tree.
pub record Vma : Type 0 where
  pub base : ℕ
  pub size : ℕ
  pub flags : Vflags
  pub vnode_backing : ℕ
  pub vnode_offset : ℕ

-- `vmm_t`. Of its own flags there is one, VMM_FLAG_OWNS_PML4.
pub record Vmm : Type 0 where
  pub vmas : List Vma
  pub vmas_count : ℕ
  pub pml4 : ℕ
  pub owns_pml4 : Bool
  pub mmap_base : ℕ
  pub stack_top : ℕ
  pub brk : ℕ
  pub brk_base : ℕ

abbrev pub vmm_user_start : ℕ
vmm_user_start = 0x1000

abbrev pub vmm_mmap_base : ℕ
vmm_mmap_base = 0x700000000000

abbrev pub vmm_stack_top : ℕ
vmm_stack_top = 0x7fffffffe000

-- ALIGN_UP and ALIGN_DOWN to a page.
unfoldable pub align_up : ℕ → ℕ
align_up x = (x + (page_size - 1)) % mod64 / page_size * page_size

unfoldable pub align_down : ℕ → ℕ
align_down x = x / page_size * page_size

-- `_vflags_to_pflags`
unfoldable pub vflags_to_pflags : Vflags → Pflags
vflags_to_pflags f = record {
  present = f.present;
  write = f.writable;
  user = f.user;
  nx = not f.executable;
  pcd = f.mmio;
  pwt = f.mmio;
}

-- The key of the areas, which `_vma_cmp` compares.
abbrev pub base_of : Vma → ℕ
base_of v = v.base

-- `v->base <= addr && addr < v->base + v->size`
unfoldable pub holds : Vma → ℕ → Bool
holds v addr = leb v.base addr && ltb addr (add64 v.base v.size)

abbrev pub when : Bool → Vma → Option Vma
when c v = if c then some v else none

-- `rb_prev` of the area with this base: the last one with a smaller base.
unfoldable pub prev_area : ℕ → List Vma → Option Vma
prev_area base [] = none
prev_area base (v ∷ vs) = if ltb v.base base then or_else (prev_area base vs) (some v) else none

unfoldable pub held_by : Option Vma → ℕ → Option Vma
held_by none addr = none
held_by (some v) addr = when (holds v addr) v

-- `_find_vma`
unfoldable pub find_vma : List Vma → ℕ → Option Vma
find_vma vmas addr = elim (lower_bound base_of addr vmas) [
  | some v ↦ if holds v addr then some v else held_by (prev_area v.base vmas) addr
  | none ↦ held_by (last vmas) addr
]

-- `_find_vma_next`
unfoldable pub find_vma_next : List Vma → ℕ → Option Vma
find_vma_next vmas addr = lower_bound base_of addr vmas

-- One round of the loop of `_find_free_gap`: the address found, 0 if there is none, or the next hint.
pub data GapRound : Type 0 where
  found : ℕ → GapRound
  no_gap : GapRound
  retry : ℕ → GapRound

unfoldable pub gap_at : List Vma → (candidate size : ℕ) → GapRound
gap_at vmas candidate size = elim (find_vma vmas candidate) [
  | some v ↦ retry v.base
  | none ↦ elim (find_vma vmas (sub64 (add64 candidate size) 1)) [
    | some v ↦ retry v.base
    | none ↦ elim (find_vma_next vmas candidate) [
      | none ↦ found candidate
      | some v ↦ if leb (add64 candidate size) v.base then found candidate else retry v.base
    ]
  ]
]

unfoldable pub gap_round : List Vma → (hint size : ℕ) → GapRound
gap_round vmas hint size =
    let candidate = align_down (sub64 hint size) in
    if ltb hint (add64 vmm_user_start size)
    then no_gap
    else if ltb candidate vmm_user_start
    then no_gap
    else gap_at vmas candidate size

-- The loop, with fuel; `none` means that the fuel ran out.
unfoldable pub gap_loop : (fuel : ℕ) → List Vma → (hint size : ℕ) → Option ℕ
gap_loop zero vmas hint size = none
gap_loop (suc fuel) vmas hint size = elim (gap_round vmas hint size) [
  | found a ↦ some a
  | no_gap ↦ some 0
  | retry hint' ↦ gap_loop fuel vmas hint' size
]

-- `_find_free_gap`: the address, 0 if there is none. An address found is the next hint too.
unfoldable pub find_free_gap : (fuel : ℕ) → Vmm → (size : ℕ) → Option (ℕ × Vmm)
find_free_gap fuel vmm size = elim (gap_loop fuel vmm.vmas vmm.mmap_base size) [
  | none ↦ none
  | some a ↦ some (a, if a == 0 then vmm else record vmm { mmap_base = a })
]

-- `_range_overlaps`
unfoldable pub range_overlaps : List Vma → (base size : ℕ) → Bool
range_overlaps vmas base size = elim (find_vma vmas base) [
  | none ↦ false
  | some v ↦ ltb v.base (add64 base size)
]
