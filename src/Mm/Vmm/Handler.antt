-- ===== src/Mm/Vmm/Handler.antt =====
-- `vmm_pf_handler` of kernel/src/mm/vmm.c: pages on demand and copies on write.
use lapis.Base.{ℕ, Bool, not, ◌&&◌, ◌||◌, some, none, if◌then◌else◌, leb, ◌==◌, ℤ, pos, negsuc}
use lapis.Mm.Vmm.{Vma, Vmm, align_down, find_vma, vflags_to_pflags}
use lapis.Mm.Vmm.Space.{Pages}

-- The PF_* bits of the error code of a page fault.
pub record PfError : Type 0 where
  pub present : Bool
  pub write : Bool
  pub user : Bool
  pub ifetch : Bool

-- What copies on write ask of the page allocator: is_page_cow, the count of the sharers,
-- pmm_page_clear_cow, pmm_page_unshare, pmm_page_release, and the memcpy from the physical address
-- of the old frame to a new page.
pub record CowPages (M : Type 0) : Type 0 where
  pub is_cow : ℕ → M → Bool
  pub sharecount : ℕ → M → ℕ
  pub clear_cow : ℕ → M → M
  pub unshare : ℕ → M → M
  pub release_page : ℕ → M → M
  pub copy_page : (new_page paddr : ℕ) → M → M

-- Is the access one that the area does not allow?
unfoldable pub forbidden : PfError → Vma → Bool
forbidden e v =
    (e.write && not v.flags.writable)
    || (e.user && not v.flags.user)
    || (e.ifetch && not v.flags.executable)

module _ {M : Type 0} (p : Pages M) (vmm : Vmm) where
  -- The first access to a page of a lazy area.
  unfoldable pub demand_page : (fault_page : ℕ) → Vma → M → ℤ × M
  demand_page fault_page v m =
      let (page, m1) = p.pmm_alloc_page m in
      if not v.flags.lazy then (negsuc 13, m) else if page == 0 then (negsuc 11, m1) else (
        pos 0,
        p.map_page vmm.pml4 fault_page page (vflags_to_pflags v.flags) (p.zero_page page m1),
      )

module _ {M : Type 0} (p : Pages M) (w : CowPages M) (vmm : Vmm) where
  -- The last sharer keeps the page; any other one gets a copy.
  unfoldable pub break_cow : (fault_page paddr old_page : ℕ) → Vma → M → ℤ × M
  break_cow fault_page paddr old_page v m =
      let pflags = vflags_to_pflags v.flags in
      let (new_page, m1) = p.pmm_alloc_page m in
      let m2 = w.copy_page new_page paddr (p.zero_page new_page m1) in
      if leb (w.sharecount old_page m) 1
      then (pos 0, p.map_page vmm.pml4 fault_page old_page pflags (w.clear_cow old_page m))
      else if new_page == 0
      then (negsuc 11, m1)
      else (
        pos 0,
        p.map_page vmm.pml4 fault_page new_page pflags
            (w.release_page old_page (w.unshare old_page m2)),
      )

  -- A write to a page that is there. An unhandled fault gives EFAULT with its sign lost.
  unfoldable pub write_page : (fault_page paddr : ℕ) → PfError → Vma → M → ℤ × M
  write_page fault_page paddr e v m =
      let old_page = p.pfn_db_phys_to_page paddr in
      if e.write && e.present
      then (if old_page == 0 || not (w.is_cow old_page m)
          then (negsuc 13, m)
          else break_cow fault_page paddr old_page v m)
      else (pos 14, m)

  unfoldable pub pf_area : (fault_page : ℕ) → PfError → Vma → M → ℤ × M
  pf_area fault_page e v m =
      let paddr = p.get_paddr vmm.pml4 fault_page m in
      if paddr == 0 then demand_page p vmm fault_page v m else write_page fault_page paddr e v m

  unfoldable pub vmm_pf_handler : (fault_addr : ℕ) → PfError → M → ℤ × M
  vmm_pf_handler fault_addr e m = elim (find_vma vmm.vmas (align_down fault_addr)) [
    | none ↦ (negsuc 13, m)
    | some v ↦ if forbidden e v then (negsuc 13, m) else pf_area (align_down fault_addr) e v m
  ]
