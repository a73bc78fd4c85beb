-- ===== src/Mm/Vmm/Fork.antt =====
-- `vmm_create`, `vmm_destroy` and `vmm_fork`: a copy of an address space.
use lapis.Base.{
  ℕ, zero, suc, ◌+◌, ◌*◌, ◌/◌, ◌%◌, ◌<◌, ◌≡◌, refl, sym, ap, ◌∙◌, Bool, true, false, not, ◌||◌,
  Bool-cases, Option-cases, inl, inr, Option, some, none, some_inj, subst, List, [], ◌∷◌, ◌++◌,
  arith, if◌then◌else◌, ◌==◌, add64, mod64, length,
}
use mathlib.Core.List.{append_assoc, append-nil}
use lapis.Rbtree.Sequence.{find, insert, AllBelow, insert-AllBelow, find-AllBelow}
use lapis.Rbtree.Insert.{no_result}
use lapis.Mm.Page.{page_size}
use lapis.Mm.Vmm.{Pflags, Vma, Vmm, base_of, vflags_to_pflags}
use lapis.Mm.Vmm.Space.{Pages, vma_free_pages, vmm_create_with, is_some}
use lapis.Mm.Vmm.Find.{Apart, AllBehind}

-- What a copy asks of the page allocator, the page tables and the heap: pmm_page_mark_cow,
-- pmm_page_share, pmm_page_retain, pte_alloc, pte_free, kzalloc for an address space, and its kfree.
pub record ForkPages (M : Type 0) : Type 0 where
  pub mark_cow : ℕ → M → M
  pub share : ℕ → M → M
  pub retain : ℕ → M → M
  pub pte_alloc : M → ℕ × M
  pub pte_free : ℕ → M → M
  pub vmm_alloc : M → Bool × M
  pub vmm_free : M → M

-- `rb_insert` with its result ignored: an area with a base in use stays outside.
unfoldable pub tree_insert : Vma → List Vma → List Vma
tree_insert v vs = if is_some (find base_of v.base vs) then vs else insert base_of v vs

-- The flags of a page table entry without PFLAG_WRITE.
unfoldable pub read_only : Pflags → Pflags
read_only f = record f { write = false }

-- The end of `vmm_fork`.
unfoldable pub copy_marks : Vmm → Vmm → Vmm
copy_marks parent c = record c {
  mmap_base = parent.mmap_base;
  stack_top = parent.stack_top;
  brk = parent.brk;
  brk_base = parent.brk_base;
}

module _ {M : Type 0} (p : Pages M) (w : ForkPages M) where
  -- `vmm_create`
  unfoldable pub vmm_create : M → Option Vmm × M
  vmm_create m =
      let (ok, m1) = w.vmm_alloc m in
      let (pml4, m2) = w.pte_alloc m1 in
      if not ok
      then (none, m1)
      else if pml4 == 0
      then (none, w.vmm_free m2)
      else (some (vmm_create_with pml4 true), m2)

  -- The walk of `vmm_destroy`, of a space that is not the current one.
  unfoldable pub destroy_loop : (pml4 : ℕ) → List Vma → M → M
  destroy_loop pml4 [] m = m
  destroy_loop pml4 (v ∷ vs) m = destroy_loop pml4 vs (p.vma_free (vma_free_pages p pml4 v m).1)

  unfoldable pub vmm_destroy : Vmm → M → M
  vmm_destroy vmm m =
      let m1 = destroy_loop vmm.pml4 vmm.vmas m in
      w.vmm_free (if vmm.owns_pml4 then w.pte_free vmm.pml4 m1 else m1)

  -- A page of a shared area of the parent, at this address, for the child.
  unfoldable pub share_page : (parent child vaddr : ℕ) → Pflags → M → M
  share_page parent child vaddr f m =
      let paddr = p.get_paddr parent vaddr m in
      let page = p.pfn_db_phys_to_page paddr in
      if paddr == 0 || page == 0
      then m
      else p.map_page child vaddr page f (w.retain page (w.share page m))

  -- A page of another area: both may only read it from now on.
  unfoldable pub cow_page : (parent child vaddr : ℕ) → Pflags → M → M
  cow_page parent child vaddr f m =
      let paddr = p.get_paddr parent vaddr m in
      let page = p.pfn_db_phys_to_page paddr in
      let m1 = w.retain page (w.share page (w.mark_cow page m)) in
      if paddr == 0 || page == 0
      then m
      else p.map_page parent vaddr page f (p.map_page child vaddr page f m1)

  -- `for (j = i; j < i + n; j++)`, over the pages of an area
  unfoldable pub pages_loop : (ℕ → M → M) → (n i base : ℕ) → M → M
  pages_loop one zero i base m = m
  pages_loop one (suc n) i base m =
      pages_loop one n (i + 1) base (one (add64 base (i * page_size)) m)

  unfoldable pub fork_pages : (parent child : ℕ) → Vma → M → M
  fork_pages parent child v m =
      let f = vflags_to_pflags v.flags in
      if v.flags.shared
      then pages_loop (λ a. share_page parent child a f) (v.size / page_size) 0 v.base m
      else if v.flags.allocated
      then pages_loop (λ a. cow_page parent child a (read_only f)) (v.size / page_size) 0 v.base m
      else m

  -- The walk along the areas of the parent; `none` if there is no memory for an area, and then the
  -- child is destroyed.
  unfoldable pub fork_loop : (parent : ℕ) → List Vma → Vmm → M → Option Vmm × M
  fork_loop parent [] child m = (some child, m)
  fork_loop parent (v ∷ vs) child m =
      let (ok, m1) = p.vma_alloc m in
      let rest =
        fork_loop parent vs
          (record child { vmas = tree_insert v child.vmas; vmas_count = add64 child.vmas_count 1 })
          (fork_pages parent child.pml4 v m1) in
      if ok then rest else (none, vmm_destroy child m1)

  -- `vmm_fork`, but for the lock, which is free in `vmm_create` and held in the walk.
  unfoldable pub vmm_fork : Vmm → M → Option Vmm × M
  vmm_fork parent m =
      let (created, m1) = vmm_create m in
      elim created [
        | none ↦ (none, m1)
        | some child ↦
            let (copied, m2) = fork_loop parent.pml4 parent.vmas child m1 in
            elim copied [ none ↦ (none, m2) | some c ↦ (some (copy_marks parent c), m2) ]
      ]

-- Every area of the second list starts behind those of the first.
abbrev Follows : List Vma → List Vma → Type 0
Follows us [] = Unit {0}
Follows us (v ∷ vs) = AllBelow base_of v.base us × Follows us vs

AllBelow-snoc :
    (k : ℕ) (us : List Vma) (v : Vma)
    → AllBelow base_of k us
    → v.base < k
    → AllBelow base_of k (us ++ (v ∷ []))
AllBelow-snoc k [] v a h = (h, tt)
AllBelow-snoc k (u ∷ us) v (a, b) h = (a, AllBelow-snoc k us v b h)

Follows-snoc :
    (us : List Vma) (v : Vma) (vs : List Vma)
    → Follows us vs
    → 0 < v.size
    → AllBehind (v.base + v.size) vs
    → Follows (us ++ (v ∷ [])) vs
Follows-snoc us v [] f z b = tt
Follows-snoc us v (w ∷ ws) (f, g) z (b, c) =
    (AllBelow-snoc w.base us v f (omega arith), Follows-snoc us v ws g z c)

Follows-nil : (vs : List Vma) → Follows [] vs
Follows-nil [] = tt
Follows-nil (v ∷ vs) = (tt, Follows-nil vs)

tree_insert-end :
    (v : Vma) (us : List Vma) → AllBelow base_of v.base us → tree_insert v us ≡ us ++ (v ∷ [])
unfolding tree_insert
tree_insert-end v us a =
    rw (find-AllBelow base_of v.base us a)
      (ap (insert base_of v) (sym (append-nil us)) ∙ insert-AllBelow base_of v us [] a)

module _ {M : Type 0} (p : Pages M) (w : ForkPages M) where
  abbrev Copied : Vmm → List Vma → Vmm → Type 0
  Copied child vs c =
      (c.vmas ≡ child.vmas ++ vs)
      × (c.pml4 ≡ child.pml4)
      × (c.vmas_count ≡ (child.vmas_count + length vs) % mod64)

  copied :
      (parent : ℕ) (vs : List Vma) (child c : Vmm) (m : M)
      → Apart vs
      → Follows child.vmas vs
      → child.vmas_count < mod64
      → (fork_loop p w parent vs child m).0 ≡ some c
      → Copied child vs c
  unfolding fork_loop
  copied parent [] child c m i f k e =
      let q = some_inj.0 e in
      (
        ap (λ d. d.vmas) (sym q) ∙ sym (append-nil child.vmas),
        ap (λ d. d.pml4) (sym q),
        ap (λ d. d.vmas_count) (sym q) ∙ small child.vmas_count k,
      )
    where
      small : (n : ℕ) → n < mod64 → n ≡ (n + 0) % mod64
      small n k = omega arith
  copied parent (v ∷ vs) child c m (z, b, a, i) (f, g) k e = elim (Bool-cases (p.vma_alloc m).0) [
    | inr n ↦ no_result (rw n at e)
    | inl n ↦
        let t = tree_insert-end v child.vmas f in
        let r =
          copied parent vs _ c _ i
            (subst (λ us. Follows us vs) (sym t) (Follows-snoc child.vmas v vs g z a))
            (bounded child.vmas_count) (rw n at e) in
        (
          r.0 ∙ ap (λ us. us ++ vs) t ∙ append_assoc child.vmas (v ∷ []) vs,
          r.1,
          r.2 ∙ one_more child.vmas_count (length vs),
        )
  ]
    where
      bounded : (n : ℕ) → add64 n 1 < mod64
      bounded n = omega arith

      one_more : (n l : ℕ) → (add64 n 1 + l) % mod64 ≡ (n + suc l) % mod64
      one_more n l = omega arith

  created : (d : Vmm) (m : M) → (vmm_create p w m).0 ≡ some d → (d.vmas ≡ []) × (d.vmas_count ≡ 0)
  unfolding vmm_create vmm_create_with
  created d m e = elim (Bool-cases (w.vmm_alloc m).0) [
    | inr a ↦ no_result (rw a at e)
    | inl a ↦ elim (Bool-cases ((w.pte_alloc (w.vmm_alloc m).1).0 == 0)) [
      | inl z ↦ no_result (rw (a, z) at e)
      | inr z ↦
          let q = some_inj.0 (rw (a, z) at e) in
          (ap (λ (x : Vmm). x.vmas) (sym q), ap (λ (x : Vmm). x.vmas_count) (sym q))
    ]
  ]

  -- The parts of a copy that succeeds.
  abbrev Parts : Vmm → Vmm → M → Type 0
  Parts parent c m =
      (d : Vmm) × ((k : Vmm) × ((vmm_create p w m).0 ≡ some d)
        × ((fork_loop p w parent.pml4 parent.vmas d (vmm_create p w m).1).0 ≡ some k)
        × (c ≡ copy_marks parent k)
        × ((vmm_fork p w parent m).1
            ≡ (fork_loop p w parent.pml4 parent.vmas d (vmm_create p w m).1).1))

  parts : (parent c : Vmm) (m : M) → (vmm_fork p w parent m).0 ≡ some c → Parts parent c m
  unfolding vmm_fork
  parts parent c m e = elim (Option-cases (vmm_create p w m).0) [
    | inl n ↦ no_result (rw (vmm_fork, n) at e)
    | inr (d, n) ↦
        elim (Option-cases (fork_loop p w parent.pml4 parent.vmas d (vmm_create p w m).1).0) [
          | inl l ↦ no_result (rw (vmm_fork, n, l) at e)
          | inr (k, l) ↦
              let q = some_inj.0 (rw (vmm_fork, n, l) at e) in
              (d, (k, n, l, sym q, rw (vmm_fork, n, l) refl))
        ]
  ]

  -- A copy of a space whose areas lie apart has the same areas, each with its flags, counts them, and
  -- has the marks of the parent.
  pub vmm_fork-Copied :
      (parent c : Vmm) (m : M)
      → Apart parent.vmas
      → (vmm_fork p w parent m).0 ≡ some c
      → (c.vmas ≡ parent.vmas)
        × (c.vmas_count ≡ length parent.vmas % mod64)
        × (c.mmap_base ≡ parent.mmap_base)
        × (c.stack_top ≡ parent.stack_top)
        × (c.brk ≡ parent.brk)
        × (c.brk_base ≡ parent.brk_base)
  unfolding copy_marks
  vmm_fork-Copied parent c m i e =
      let (d, (k, n, l, q, r)) = parts parent c m e in
      let z = created d m n in
      let h =
        copied parent.pml4 parent.vmas d k (vmm_create p w m).1 i
          (subst (λ us. Follows us parent.vmas) (sym z.0) (Follows-nil parent.vmas))
          (rw z.1 (omega arith)) l in
      rw q (
        h.0 ∙ ap (λ us. us ++ parent.vmas) z.0,
        h.2 ∙ rw z.1 (plus_zero (length parent.vmas)),
        refl,
        refl,
        refl,
        refl,
      )
    where
      plus_zero : (n : ℕ) → (0 + n) % mod64 ≡ n % mod64
      plus_zero n = omega arith
