-- ===== src/Mm/Vmm/Fault.antt =====
-- How a page fault ends, by what it finds.
use lapis.Base.{ℕ, ◌<◌, ◌≤◌, true, ◌≡◌, ◌≢◌, false, ◌&&◌, ◌⊎◌, ℤ, pos, negsuc}
use lapis.Mm.Vmm.{Vma, Vmm, vflags_to_pflags}
use lapis.Mm.Vmm.Space.{Pages}
use lapis.Mm.Vmm.Handler.{PfError, CowPages}

module _ {M : Type 0} (p : Pages M) (w : CowPages M) (vmm : Vmm) (page : ℕ) (e : PfError)
    (m : M) where
  -- The page of a lazy area is not there.
  abbrev pub Absent : Vma → Type 0
  Absent v = (p.get_paddr vmm.pml4 page m ≡ 0) × (v.flags.lazy ≡ true)

  -- A write to a page that is there, and marked for a copy on write.
  abbrev pub Shared : Type 0
  Shared =
      (p.get_paddr vmm.pml4 page m ≢ 0)
      × (e.write && e.present ≡ true)
      × (p.pfn_db_phys_to_page (p.get_paddr vmm.pml4 page m) ≢ 0)
      × (w.is_cow (p.pfn_db_phys_to_page (p.get_paddr vmm.pml4 page m)) m ≡ true)

  -- A fresh page of zeros is mapped.
  abbrev pub Fresh : Vma → ℤ × M → Type 0
  Fresh v r =
      let (page', m1) = p.pmm_alloc_page m in
      Absent v
      × (page' ≢ 0)
      × (r ≡ (
        pos 0,
        p.map_page vmm.pml4 page page' (vflags_to_pflags v.flags) (p.zero_page page' m1),
      ))

  -- The last sharer gets the page itself, which is marked no more.
  abbrev pub Owned : Vma → ℤ × M → Type 0
  Owned v r =
      let old' = p.pfn_db_phys_to_page (p.get_paddr vmm.pml4 page m) in
      Shared
      × (w.sharecount old' m ≤ 1)
      × (r ≡ (pos 0, p.map_page vmm.pml4 page old' (vflags_to_pflags v.flags) (w.clear_cow old' m)))

  -- One of several sharers gets a copy, and gives its share and its reference back.
  abbrev pub CopiedPage : Vma → ℤ × M → Type 0
  CopiedPage v r =
      let paddr' = p.get_paddr vmm.pml4 page m in
      let old' = p.pfn_db_phys_to_page paddr' in
      let (page', m1) = p.pmm_alloc_page m in
      Shared
      × (1 < w.sharecount old' m)
      × (page' ≢ 0)
      × (r ≡ (
        pos 0,
        p.map_page vmm.pml4 page page' (vflags_to_pflags v.flags) (
            w.release_page old' (w.unshare old' (w.copy_page page' paddr' (p.zero_page page' m1)))),
      ))

  -- A page is wanted, and there is none.
  abbrev pub Exhausted : Vma → ℤ × M → Type 0
  Exhausted v r =
      let old' = p.pfn_db_phys_to_page (p.get_paddr vmm.pml4 page m) in
      let (page', m1) = p.pmm_alloc_page m in
      (Absent v ⊎ (Shared × (1 < w.sharecount old' m))) × (page' ≡ 0) × (r ≡ (negsuc 11, m1))

  -- The fault is none that the area provides for: EFAULT, with its sign lost for an access that needs
  -- no copy to a page that is there.
  abbrev pub Unhandled : Vma → ℤ × M → Type 0
  Unhandled v r =
      let paddr' = p.get_paddr vmm.pml4 page m in
      let old' = p.pfn_db_phys_to_page paddr' in
      ((paddr' ≡ 0) × (v.flags.lazy ≡ false) × (r ≡ (negsuc 13, m)))
      ⊎ (((paddr' ≢ 0) × (e.write && e.present ≡ false) × (r ≡ (pos 14, m)))
          ⊎ ((paddr' ≢ 0)
              × (e.write && e.present ≡ true)
              × ((old' ≡ 0) ⊎ (w.is_cow old' m ≡ false))
              × (r ≡ (negsuc 13, m))))

  abbrev pub Ended : Vma → ℤ × M → Type 0
  Ended v r = Fresh v r ⊎ (Owned v r ⊎ (CopiedPage v r ⊎ (Exhausted v r ⊎ Unhandled v r)))
