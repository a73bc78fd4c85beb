-- ===== src/Mm/Vmm/Map.antt =====
-- `vmm_map`: where a new area goes.
use lapis.Base.{
  ℕ, zero, suc, ◌+◌, ◌/◌, ◌%◌, ◌<◌, ◌≤◌, ◌≡◌, refl, ap, ◌∙◌, ◌≢◌, Bool, true, false, not, ◌&&◌,
  Bool-cases, inl, inr, ◌⊎◌, some, none, List, [], ◌∷◌, ◌>>=◌, arith, if◌then◌else◌, ltb, leb, ◌==◌,
  add64, mod64, length, ℤ, pos, negsuc, test_ne,
}
use lapis.Rbtree.Sequence.{find, insert}
use lapis.Mm.Page.{page_size}
use lapis.Mm.Vmm.{
  Vflags, Vma, Vmm, base_of, align_up, vmm_user_start, find_free_gap, vflags_to_pflags,
}
use lapis.Mm.Vmm.Space.{
  Pages, Space, set_allocated, vma_allocate_pages, allocate_loop, acquire, release, choose_base,
  insert_area, add_area, map_area, vmm_map,
}
use lapis.Mm.Vmm.Find.{Apart, AllBehind, holder}
use lapis.Mm.Vmm.Gap.{Clear, IsGap, Highest, find_free_gap-Highest}

AllBehind-le : (e f : ℕ) (vs : List Vma) → e ≤ f → AllBehind f vs → AllBehind e vs
AllBehind-le e f [] h b = tt
AllBehind-le e f (v ∷ vs) h (b, bs) = (omega arith, AllBehind-le e f vs h bs)

-- A new area in a clear range.
module _ (n : Vma) (z : 0 < n.size) (k : n.base + n.size < mod64) where
  AllBehind-insert :
      (e : ℕ) (vs : List Vma) → e ≤ n.base → AllBehind e vs → AllBehind e (insert base_of n vs)
  AllBehind-insert e [] h b = (h, tt)
  AllBehind-insert e (v ∷ vs) h (b, bs) = ground (arith, AllBehind-insert e vs h bs)

  pub Apart-insert :
      (vs : List Vma) → Apart vs → Clear n.base (n.base + n.size) vs → Apart (insert base_of n vs)
  Apart-insert [] i c = (z, k, tt, tt)
  Apart-insert (v ∷ vs) (y, m, b, i) (c, cs) = elim (Bool-cases (ltb n.base v.base)) [
    | inl h ↦
        let e = beyond v.base v.size c h y in
        rw h (
          z,
          k,
          (e, AllBehind-le (n.base + n.size) (v.base + v.size) vs (omega arith) b),
          (y, m, b, i),
        )
    | inr h ↦
        let e = before v.base v.size c h in
        rw h (y, m, AllBehind-insert (v.base + v.size) vs e b, Apart-insert vs i cs)
  ]
    where
      beyond :
          (b s : ℕ)
          → (b + s ≤ n.base) ⊎ (n.base + n.size ≤ b)
          → ltb n.base b ≡ true
          → 0 < s
          → n.base + n.size ≤ b
      beyond b s (inl e) h y = absurd (ground arith)
      beyond b s (inr e) h y = e

      before :
          (b s : ℕ)
          → (b + s ≤ n.base) ⊎ (n.base + n.size ≤ b)
          → ltb n.base b ≡ false
          → b + s ≤ n.base
      before b s (inl e) h = e
      before b s (inr e) h = absurd (ground arith)

  holder-behind : (e a : ℕ) (vs : List Vma) → AllBehind e vs → a < e → holder vs a ≡ none
  holder-behind e a [] b h = refl
  holder-behind e a (v ∷ vs) (b, bs) h = ground (arith, holder-behind e a vs bs h)

  -- The addresses of the range are the new area's, and the others are held as before.
  pub holder-insert :
      (vs : List Vma) (a : ℕ)
      → Apart vs
      → Clear n.base (n.base + n.size) vs
      → holder (insert base_of n vs) a
        ≡ (if leb n.base a && ltb a (n.base + n.size) then some n else holder vs a)
  holder-insert [] a i c = refl
  holder-insert (v ∷ vs) a (y, m, b, i) (inl c, cs) = ground (arith, holder-insert vs a i cs)
  holder-insert (v ∷ vs) a (y, m, b, i) (inr c, cs) = ground (arith, holder-insert vs a i cs)

  pub find-Clear :
      (vs : List Vma) → Apart vs → Clear n.base (n.base + n.size) vs → find base_of n.base vs ≡ none
  find-Clear [] i c = refl
  find-Clear (v ∷ vs) (y, m, b, i) (inl c, cs) = ground (arith, find-Clear vs i cs)
  find-Clear (v ∷ vs) (y, m, b, i) (inr c, cs) = ground (arith, find-Clear vs i cs)

module _ {M : Type 0} (p : Pages M) where
  allocate-shape :
      (pml4 : ℕ) (v : Vma) (m : M)
      → ((vma_allocate_pages p pml4 v m).1.base ≡ v.base)
        × ((vma_allocate_pages p pml4 v m).1.size ≡ v.size)
  unfolding vma_allocate_pages set_allocated
  allocate-shape pml4 v m = elim (Bool-cases (not (v.size % page_size == 0))) [
    | inl e ↦ rw e (refl, refl)
    | inr e ↦
        elim (Bool-cases
          (allocate_loop p (v.size / page_size) 0 pml4 v.base (vflags_to_pflags v.flags) m).0) [
            | inl f ↦ rw (e, f) (refl, refl)
            | inr f ↦ rw (e, f) (refl, refl)
          ]
  ]

  -- The ends of `add_area`, by its three tests.
  branches :
      (P : ℕ × Space M → Type 0) (ok lazy : Bool) (err : ℤ) (w x y z : ℕ × Space M)
      → P w
      → P x
      → P y
      → P z
      → P (
          if not ok
          then w
          else if lazy
          then x
          else elim err [ pos zero ↦ y | pos (suc n) ↦ z | negsuc n ↦ z ])
  branches P false lazy err w x y z a b c d = a
  branches P true true err w x y z a b c d = b
  branches P true false (pos zero) w x y z a b c d = c
  branches P true false (pos (suc n)) w x y z a b c d = d
  branches P true false (negsuc n) w x y z a b c d = d

  -- What a new area does to the space: it enters the sequence, or nothing changes.
  abbrev Added : (base size : ℕ) → Vmm → ℕ × Space M → Type 0
  Added base size vmm r =
      ((r.0 ≡ 0) × (r.1.vmm ≡ vmm))
      ⊎ ((v : Vma) × (v.base ≡ base)
          × (v.size ≡ size)
          × (r.0 ≡ base)
          × (r.1.vmm ≡ record vmm {
            vmas = insert base_of v vmm.vmas;
            vmas_count = add64 vmm.vmas_count 1;
          }))

  module _ (base size : ℕ) (z : 0 < size) (k : base + size < mod64) (s : Space M)
      (i : Apart s.vmm.vmas) (c : Clear base (base + size) s.vmm.vmas) where
    insert-Added :
        (v : Vma) (m : M)
        → v.base ≡ base
        → v.size ≡ size
        → Added base size s.vmm (insert_area p v (record s { mach = m }))
    unfolding insert_area
    insert-Added v m e f =
        let n = find-Clear v (rw f z) (rw (e, f) k) s.vmm.vmas i (rw (e, f) c) in
        rw n (inr (v, e, f, e, refl))

    add-Added : (flags : Vflags) → Added base size s.vmm (add_area p base size flags s)
    unfolding add_area
    add-Added flags =
        let m = (p.vma_alloc s.mach).1 in
        let fresh : Vma = record {
          base = base;
          size = size;
          flags = flags;
          vnode_backing = 0;
          vnode_offset = 0;
        } in
        let t = vma_allocate_pages p s.vmm.pml4 fresh m in
        let h = allocate-shape s.vmm.pml4 fresh m in
        branches (Added base size s.vmm) (p.vma_alloc s.mach).0 flags.lazy t.0
          (0, record s { mach = m }) (insert_area p fresh (record s { mach = m }))
          (insert_area p t.1 (record s { mach = t.2 })) (0, record s { mach = p.vma_free t.2 })
          (inl (refl, refl)) (insert-Added fresh m refl refl) (insert-Added t.1 t.2 h.0 h.1)
          (inl (refl, refl))

  -- The outcome of a mapping with no wish for its base.
  abbrev pub Mapped : (size : ℕ) → Space M → ℕ × Space M → Type 0
  Mapped size s r =
      (r.1.locked ≡ false)
      × (((r.0 ≡ 0) × (r.1.vmm.vmas ≡ s.vmm.vmas))
          ⊎ (IsGap size s.vmm.vmas s.vmm.mmap_base r.0
              × ((c : ℕ) → IsGap size s.vmm.vmas s.vmm.mmap_base c → c ≤ r.0)
              × Apart r.1.vmm.vmas
              × ((v : Vma) × ((x : ℕ)
                    → holder r.1.vmm.vmas x ≡ (
                        if leb r.0 x && ltb x (r.0 + size) then some v else holder s.vmm.vmas x)))))

  module _ (size : ℕ) (flags : Vflags) (s : Space M) (i : Apart s.vmm.vmas) (z : 0 < size)
      (small : size + 0x2000 < mod64) (h : s.vmm.mmap_base < mod64) where
    abbrev whole : ℕ
    whole = align_up size

    whole-bounds : (0 < whole) × (whole + vmm_user_start < mod64)
    unfolding align_up
    whole-bounds = (omega arith, omega arith)

    placed :
        (a : ℕ) (m : ℕ)
        → IsGap whole s.vmm.vmas s.vmm.mmap_base a
        → ((c : ℕ) → IsGap whole s.vmm.vmas s.vmm.mmap_base c → c ≤ a)
        → (t : Space M) → t.vmm ≡ record (s.vmm) { mmap_base = m }
        → (r : ℕ × Space M) → Added a whole t.vmm r
        → Mapped whole s (r.0, release r.1)
    unfolding release
    placed a m g most t e r (inl (f, w)) = (refl, inl (f, ap (λ v. v.vmas) (w ∙ e)))
    placed a m g most t e r (inr (v, b, l, f, w)) =
        let fits : a + whole < mod64 = let u = g.below in omega arith in
        let size_v : 0 < v.size = rw l whole-bounds.0 in
        let end_v : v.base + v.size < mod64 = rw (b, l) fits in
        let clear : Clear v.base (v.base + v.size) s.vmm.vmas = rw (b, l) g.clear in
        let new : r.1.vmm.vmas ≡ insert base_of v s.vmm.vmas =
          ap (λ v. v.vmas) w ∙ ap (λ u. insert base_of v u) (ap (λ v. v.vmas) e) in
        (
          refl,
          inr (
            rw f g,
            rw f most,
            rw new (Apart-insert v size_v end_v s.vmm.vmas i clear),
            (
              v,
              λ x. rw (new, f) (holder-insert v size_v end_v s.vmm.vmas x i clear ∙ rw (b, l) refl),
            ),
          ),
        )

    size_ne : size ≢ 0
    size_ne e = omega arith

    fits : (a : ℕ) → IsGap whole s.vmm.vmas s.vmm.mmap_base a → a + whole < mod64
    fits a g = let b = g.below in omega arith

    a-IsGap :
        (a : ℕ)
        → (a == 0) ≡ false
        → (a ≡ 0) ⊎ IsGap whole s.vmm.vmas s.vmm.mmap_base a
        → IsGap whole s.vmm.vmas s.vmm.mmap_base a
    a-IsGap a k (inl e) = absurd (ground arith)
    a-IsGap a k (inr g) = g

    chosen :
        (fuel : ℕ) (vmm : Vmm)
        → flags.fixed ≡ false
        → choose_base fuel vmm 0 whole flags ≡ (
            find_free_gap fuel vmm whole >>= λ (a, vmm').
            some (if a == 0 then none else some a, vmm'))
    unfolding choose_base
    chosen fuel vmm f = rw f refl

    -- A mapping without VFLAG_FIXED that leaves the choice of its base, in a space whose areas lie
    -- apart, with the lock free, `mmap_base` below 2 ^ 64 and a size other than 0 with
    -- size + 0x2000 < 2 ^ 64, ends with the lock released. It gives 0 and no
    -- area changes, or it gives the highest gap of its size, rounded up to pages, below `mmap_base`;
    -- then a new area holds just the addresses of the gap, every other address is held as before,
    -- and the areas lie apart.
    pub vmm_map-Mapped :
        s.locked ≡ false
        → flags.fixed ≡ false
        → (r : ℕ × Space M) × (vmm_map p (suc (length s.vmm.vmas)) 0 size flags s ≡ some r)
          × Mapped (align_up size) s r
    unfolding vmm_map map_area acquire release
    vmm_map-Mapped u f = given g.0 g.1 g.2
      where
        g :
            (a : ℕ) × (find_free_gap (suc (length s.vmm.vmas)) s.vmm whole
              ≡ some (a, if a == 0 then s.vmm else record (s.vmm) { mmap_base = a }))
            × Highest whole s.vmm.vmas s.vmm.mmap_base a
        g = find_free_gap-Highest s.vmm whole i whole-bounds.0 whole-bounds.1 h

        given :
            (a : ℕ)
            → find_free_gap (suc (length s.vmm.vmas)) s.vmm whole
              ≡ some (a, if a == 0 then s.vmm else record (s.vmm) { mmap_base = a })
            → Highest whole s.vmm.vmas s.vmm.mmap_base a
            → (r : ℕ × Space M) × (vmm_map p (suc (length s.vmm.vmas)) 0 size flags s ≡ some r)
              × Mapped (align_up size) s r
        given a e q = elim (Bool-cases (a == 0)) [
          | inl k ↦ (
            (0, record s { locked = false }),
            rw (test_ne size 0 size_ne, u, chosen (suc (length s.vmm.vmas)) s.vmm f, e, k) refl,
            (refl, inl (refl, refl)),
          )
          | inr k ↦
              let t : Space M = record {
                vmm = record (s.vmm) { mmap_base = a };
                locked = true;
                mach = s.mach;
              } in
              let r = add_area p a whole flags t in
              let gap = a-IsGap a k q.0 in
              (
                (r.0, release r.1),
                rw (test_ne size 0 size_ne, u, chosen (suc (length s.vmm.vmas)) s.vmm f, e, k) refl,
                placed a a gap q.1 t refl r
                    (add-Added a whole whole-bounds.0 (fits a gap) t i gap.clear flags),
              )
        ]
