-- ===== src/Mm/Vmm/Space.antt =====
-- kernel/src/mm/vmm.c: mapping, unmapping, protection, the break, and the test of accesses. The NULL
-- tests of the address space are not modelled: the functions take the space itself.
use lapis.Base.{
  ℕ, zero, suc, ◌+◌, ◌*◌, ◌/◌, ◌%◌, Bool, true, false, not, ◌&&◌, ◌||◌, Option, some, none, List,
  [], ◌∷◌, ◌>>=◌, if◌then◌else◌, ltb, leb, ◌==◌, add64, sub64, ℤ, pos, negsuc,
}
use lapis.Rbtree.Sequence.{find, insert}
use lapis.Mm.Page.{page_size}
use lapis.Mm.Vmm.{
  Vflags, Pflags, Vma, Vmm, base_of, align_up, align_down, vflags_to_pflags, find_vma,
  find_free_gap, range_overlaps, vmm_mmap_base, vmm_stack_top,
}

-- What the manager calls: the page allocator, the page tables and the kernel heap, over their state
-- `M`. A page is the address of its descriptor, and 0 is NULL.
pub record Pages (M : Type 0) : Type 0 where
  -- pmm_alloc_page, and the memset of its frame
  pub pmm_alloc_page : M → ℕ × M
  pub zero_page : ℕ → M → M
  -- map_page, unmap_page, get_paddr and pfn_db_phys_to_page
  pub map_page : (pml4 vaddr page : ℕ) → Pflags → M → M
  pub unmap_page : (pml4 vaddr : ℕ) → M → M
  pub get_paddr : (pml4 vaddr : ℕ) → M → ℕ
  pub pfn_db_phys_to_page : ℕ → ℕ
  -- kzalloc for an area, which may fail, and kfree of one
  pub vma_alloc : M → Bool × M
  pub vma_free : M → M

-- An address space, `vmm_lock`, and the rest of the machine.
pub record Space (M : Type 0) : Type 0 where
  pub vmm : Vmm
  pub locked : Bool
  pub mach : M

-- An area with other flags, and the areas without VFLAG_ALLOCATED set, or with it.
unfoldable pub set_flags : Vflags → Vma → Vma
set_flags f v = record v { flags = f }

unfoldable pub set_allocated : Bool → Vma → Vma
set_allocated b v = record v { flags = record (v.flags) { allocated = b } }

-- A write to the area with this base.
unfoldable pub update_area : ℕ → (Vma → Vma) → List Vma → List Vma
update_area base f [] = []
update_area base f (v ∷ vs) = if v.base == base then f v ∷ vs else v ∷ update_area base f vs

abbrev pub is_some : {A : Type 0} → Option A → Bool
is_some none = false
is_some (some a) = true

-- The base of a new area: none if there is no place, or if VFLAG_FIXED forbids it.
unfoldable pub choose_base : (fuel : ℕ) → Vmm → (base size : ℕ) → Vflags → Option (Option ℕ × Vmm)
choose_base fuel vmm base size flags =
    if base == 0 && not flags.fixed
    then (find_free_gap fuel vmm size >>= λ (a, vmm'). some (if a == 0 then none else some a, vmm'))
    else some (
      if flags.fixed && range_overlaps vmm.vmas (align_down base) size
          then none
          else some (align_down base),
      vmm,
    )

module _ {M : Type 0} where
  -- `none` is a processor that waits for a lock that it holds.
  unfoldable pub acquire : Space M → Option (Space M)
  acquire s = if s.locked then none else some (record s { locked = true })

  unfoldable pub release : Space M → Space M
  release s = record s { locked = false }

module _ {M : Type 0} (p : Pages M) where
  -- `for (j = i; j < i + n; j++) unmap_page(pml4, base + j * PAGE_SIZE)`
  unfoldable pub unmap_loop : (n i pml4 base : ℕ) → M → M
  unmap_loop zero i pml4 base m = m
  unmap_loop (suc n) i pml4 base m =
      unmap_loop n (i + 1) pml4 base (p.unmap_page pml4 (add64 base (i * page_size)) m)

  -- The loop of `_vma_allocate_pages` from the page `i` on; without memory it unmaps what it mapped.
  unfoldable pub allocate_loop : (n i pml4 base : ℕ) → Pflags → M → Bool × M
  allocate_loop zero i pml4 base pflags m = (true, m)
  allocate_loop (suc n) i pml4 base pflags m =
      let (page, m1) = p.pmm_alloc_page m in
      let rest =
        allocate_loop n (i + 1) pml4 base pflags
          (p.map_page pml4 (add64 base (i * page_size)) page pflags (p.zero_page page m1)) in
      if page == 0 then (false, unmap_loop i 0 pml4 base m1) else rest

  -- `_vma_allocate_pages`: 0, -1 or ENOMEM, and the area
  unfoldable pub vma_allocate_pages : ℕ → Vma → M → ℤ × Vma × M
  vma_allocate_pages pml4 v m =
      let (done, m1) =
        allocate_loop (v.size / page_size) 0 pml4 v.base (vflags_to_pflags v.flags) m in
      if not (v.size % page_size == 0)
      then (negsuc 0, v, m)
      else if done
      then (pos 0, set_allocated true v, m1)
      else (pos 12, v, m1)

  -- `_vma_free_pages`
  unfoldable pub vma_free_pages : ℕ → Vma → M → Vma × M
  vma_free_pages pml4 v m =
      if not v.flags.allocated || not (v.size % page_size == 0)
      then (v, m)
      else (set_allocated false v, unmap_loop (v.size / page_size) 0 pml4 v.base m)

  -- The new area enters the tree, or its pages are given back.
  unfoldable pub insert_area : Vma → Space M → ℕ × Space M
  insert_area v s =
      let (v', m) = vma_free_pages s.vmm.pml4 v s.mach in
      if is_some (find base_of v.base s.vmm.vmas) then (0, record s { mach = p.vma_free m }) else (
        v.base,
        record s {
          vmm = record (s.vmm) {
            vmas = insert base_of v s.vmm.vmas;
            vmas_count = add64 s.vmm.vmas_count 1;
          };
        },
      )

  unfoldable pub add_area : (base size : ℕ) → Vflags → Space M → ℕ × Space M
  add_area base size flags s =
      let (ok, m1) = p.vma_alloc s.mach in
      let v : Vma = record {
        base = base;
        size = size;
        flags = flags;
        vnode_backing = 0;
        vnode_offset = 0;
      } in
      let (err, v', m2) = vma_allocate_pages s.vmm.pml4 v m1 in
      if not ok
      then (0, record s { mach = m1 })
      else if flags.lazy
      then insert_area v (record s { mach = m1 })
      else elim err [
        | pos zero ↦ insert_area v' (record s { mach = m2 })
        | pos (suc n) ↦ (0, record s { mach = p.vma_free m2 })
        | negsuc n ↦ (0, record s { mach = p.vma_free m2 })
      ]

  -- `vmm_map` between its acquire and its release
  unfoldable pub map_area : (fuel base size : ℕ) → Vflags → Space M → Option (ℕ × Space M)
  map_area fuel base size flags s = choose_base fuel s.vmm base size flags >>= λ (o, vmm'). elim o [
    | none ↦ some (0, record s { vmm = vmm' })
    | some b ↦ some (add_area b size flags (record s { vmm = vmm' }))
  ]

  unfoldable pub vmm_map : (fuel base size : ℕ) → Vflags → Space M → Option (ℕ × Space M)
  vmm_map fuel base size flags s =
      if size == 0
      then some (0, s)
      else (acquire s >>= λ s1.
          map_area fuel base (align_up size) flags s1 >>= λ (r, s2). some (r, release s2))

  -- `_vma_split`: is there a new area?
  unfoldable pub vma_split : Vma → (split_addr : ℕ) → Space M → Bool × Space M
  vma_split v split_addr s =
      let (ok, m) = p.vma_alloc s.mach in
      let new_vma : Vma = record {
        base = split_addr;
        size = sub64 (add64 v.base v.size) split_addr;
        flags = v.flags;
        vnode_backing = 0;
        vnode_offset = 0;
      } in
      let vmas = update_area v.base (λ u. record u { size = sub64 split_addr v.base }) s.vmm.vmas in
      if leb split_addr v.base || leb (add64 v.base v.size) split_addr
      then (false, s)
      else if not ok
      then (false, record s { mach = m })
      else if is_some (find base_of split_addr vmas)
      then (false, record s { vmm = record (s.vmm) { vmas = vmas }; mach = p.vma_free m })
      else (
        true,
        record s {
          vmm = record (s.vmm) {
            vmas = insert base_of new_vma vmas;
            vmas_count = add64 s.vmm.vmas_count 1;
          };
          mach = m;
        },
      )

  -- The walk of `vmm_unmap` along the areas: those left, how many went, and the machine.
  unfoldable pub sweep : (base end pml4 : ℕ) → List Vma → M → List Vma × ℕ × M
  sweep base end pml4 [] m = ([], 0, m)
  sweep base end pml4 (v ∷ vs) m =
      let inside = leb base v.base && leb (add64 v.base v.size) end in
      let (v', m') = vma_free_pages pml4 v m in
      let (left, n, m'') = sweep base end pml4 vs (if inside then p.vma_free m' else m) in
      if inside
      then (left, n + 1, m'')
      else if leb end v.base
      then (v ∷ vs, 0, m)
      else (v ∷ left, n, m'')

  unfoldable pub sweep_space : (base end : ℕ) → Space M → Space M
  sweep_space base end s =
      let (left, n, m) = sweep base end s.vmm.pml4 s.vmm.vmas s.mach in
      record s {
        vmm = record (s.vmm) { vmas = left; vmas_count = sub64 s.vmm.vmas_count n };
        mach = m;
      }

  -- The first area is split at `base` if it starts before; a failure ends the call.
  unfoldable pub split_first : (base : ℕ) → Space M → Bool × Space M
  split_first base s = elim (find_vma s.vmm.vmas base) [
    | none ↦ (true, s)
    | some v ↦ if ltb v.base base then vma_split v base s else (true, s)
  ]

  -- The test of the last area, as the code has it.
  unfoldable pub split_last : (end : ℕ) → Space M → Bool × Space M
  split_last end s = elim (find_vma s.vmm.vmas (sub64 end 1)) [
    | none ↦ (true, s)
    | some v ↦ if ltb (add64 v.base v.size) end then vma_split v end s else (true, s)
  ]

  -- `vmm_unmap` between its acquire and its release
  unfoldable pub unmap_area : (base end : ℕ) → Space M → ℤ × Space M
  unmap_area base end s =
      let (ok1, s1) = split_first base s in
      let (ok2, s2) = split_last end s1 in
      if not ok1
      then (negsuc 11, s1)
      else if not ok2
      then (negsuc 11, s2)
      else (pos 0, sweep_space base end s2)

  unfoldable pub vmm_unmap : (base size : ℕ) → Space M → Option (ℤ × Space M)
  vmm_unmap base size s =
      if size == 0
      then some (negsuc 21, s)
      else (acquire s >>= λ s1.
          let (r, s2) = unmap_area (align_down base) (add64 (align_down base) (align_up size)) s1 in
          some (r, release s2))

  -- `vmm_brk`: the address space has been locked when it calls `vmm_map` and `vmm_unmap`.
  unfoldable pub vmm_brk : (fuel new_brk : ℕ) → Space M → Option (ℕ × Space M)
  vmm_brk fuel new_brk s =
      let b = align_up new_brk in
      let flags : Vflags = record {
        present = true;
        writable = true;
        user = true;
        executable = false;
        lazy = false;
        allocated = false;
        shared = false;
        fixed = false;
        stack = false;
        mmio = false;
      } in
      if ltb b s.vmm.brk_base
      then some (s.vmm.brk_base, s)
      else (acquire s >>= λ s1.
          if ltb s1.vmm.brk b
          then (vmm_map fuel s1.vmm.brk (sub64 b s1.vmm.brk) flags s1 >>= λ (got, s2).
              if got == 0
              then some (s2.vmm.brk, s2)
              else some (b, record s2 { vmm = record (s2.vmm) { brk = b } }))
          else if ltb b s1.vmm.brk
          then (vmm_unmap b (sub64 s1.vmm.brk b) s1 >>= λ (r, s2). elim r [
            | pos zero ↦ some (b, record s2 { vmm = record (s2.vmm) { brk = b } })
            | pos (suc n) ↦ some (s2.vmm.brk, s2)
            | negsuc n ↦ some (s2.vmm.brk, s2)
          ])
          else some (s1.vmm.brk, release s1))

-- `(v->flags & access) == access`
unfoldable pub allows : Vflags → Vflags → Bool
allows f a =
    (not a.present || f.present)
    && (not a.writable || f.writable)
    && (not a.user || f.user)
    && (not a.executable || f.executable)
    && (not a.lazy || f.lazy)
    && (not a.allocated || f.allocated)
    && (not a.shared || f.shared)
    && (not a.fixed || f.fixed)
    && (not a.stack || f.stack)
    && (not a.mmio || f.mmio)

-- The loop of `vmm_is_accessible`, with fuel.
unfoldable pub access_loop : (fuel : ℕ) → List Vma → (addr end : ℕ) → Vflags → Option Bool
access_loop zero vmas addr end access = none
access_loop (suc fuel) vmas addr end access =
    if ltb addr end
    then elim (find_vma vmas addr) [
      | none ↦ some false
      | some v ↦
          let rest = access_loop fuel vmas (add64 v.base v.size) end access in
          if allows v.flags access then rest else some false
    ]
    else some true

unfoldable pub vmm_is_accessible : (fuel : ℕ) → List Vma → (base size : ℕ) → Vflags → Option Bool
vmm_is_accessible fuel vmas base size access =
    let loop = access_loop fuel vmas (align_down base) (align_up (add64 base size)) access in
    if size == 0 then some false else loop

-- `vmm_create` with a page table, and `vmm_create_from_pml4`: a space without areas
unfoldable pub vmm_create_with : (pml4 : ℕ) (owns_pml4 : Bool) → Vmm
vmm_create_with pml4 owns_pml4 = record {
  vmas = [];
  vmas_count = 0;
  pml4 = pml4;
  owns_pml4 = owns_pml4;
  mmap_base = vmm_mmap_base;
  stack_top = vmm_stack_top;
  brk = 0;
  brk_base = 0;
}

unfoldable pub vmm_create_from_pml4 : ℕ → Vmm
vmm_create_from_pml4 pml4 = vmm_create_with pml4 false
