-- ===== src/Mm/Vmm/Overlap.antt =====
-- Mappings at a wished base: VFLAG_FIXED looks at one address only.
use lapis.Base.{
  ℕ, ◌+◌, ◌<◌, ◌≤◌, ◌≡◌, refl, sym, ap, ◌∙◌, ◌≢◌, true, false, Bool-cases, inl, inr, some, none,
  subst, List, [], ◌∷◌, arith, ltb, ◌==◌, add64, test_ne,
}
use lapis.Rbtree.Sequence.{find, insert}
use lapis.Mm.Vmm.{Vma, Vmm, Vflags, base_of, align_up, align_down, find_vma, range_overlaps}
use lapis.Mm.Vmm.Space.{
  Pages, Space, acquire, release, choose_base, insert_area, add_area, map_area, vmm_map,
}
use lapis.Mm.Vmm.Find.{Apart, AllBehind, holder, find_vma-holder}
use lapis.Mm.Vmm.Gap.{Among}

Among-insert_self : (n : Vma) (vs : List Vma) → Among n (insert base_of n vs)
Among-insert_self n [] = inl refl
Among-insert_self n (v ∷ vs) = elim (Bool-cases (ltb n.base v.base)) [
  | inl h ↦ rw h (inl refl)
  | inr h ↦ rw h (inr (Among-insert_self n vs))
]

Among-insert : (n u : Vma) (vs : List Vma) → Among u vs → Among u (insert base_of n vs)
Among-insert n u [] m = elim m [ ]
Among-insert n u (v ∷ vs) (inl e) = elim (Bool-cases (ltb n.base v.base)) [
  | inl h ↦ rw h (inr (inl e))
  | inr h ↦ rw h (inl e)
]
Among-insert n u (v ∷ vs) (inr m) = elim (Bool-cases (ltb n.base v.base)) [
  | inl h ↦ rw h (inr (inr m))
  | inr h ↦ rw h (inr (Among-insert n u vs m))
]

AllBehind-base : (end : ℕ) (v : Vma) (vs : List Vma) → AllBehind end vs → Among v vs → end ≤ v.base
AllBehind-base end v [] b m = elim m [ ]
AllBehind-base end v (x ∷ xs) (b, bs) (inl e) = subst (λ (u : Vma). end ≤ u.base) (sym e) b
AllBehind-base end v (x ∷ xs) (b, bs) (inr m) = AllBehind-base end v xs bs m

-- In areas that lie apart an earlier one ends where a later one starts, or before.
Apart-order :
    (u v : Vma) (vs : List Vma)
    → Apart vs
    → Among u vs
    → Among v vs
    → u.base < v.base
    → u.base + u.size ≤ v.base
Apart-order u v [] i m n h = elim m [ ]
Apart-order u v (x ∷ xs) (z, k, b, i) (inl e) (inl f) h =
    let q : u.base ≡ v.base = ap (λ (t : Vma). t.base) (e ∙ sym f) in absurd (omega arith)
Apart-order u v (x ∷ xs) (z, k, b, i) (inl e) (inr n) h =
    AllBehind-base (u.base + u.size) v xs
      (subst (λ (w : Vma). AllBehind (w.base + w.size) xs) (sym e) b) n
Apart-order u v (x ∷ xs) (z, k, b, i) (inr m) (inl f) h =
    let q = AllBehind-base (x.base + x.size) u xs b m in
    let w = subst (λ (t : Vma). t.base + t.size ≤ u.base) (sym f) q in absurd (omega arith)
Apart-order u v (x ∷ xs) (z, k, b, i) (inr m) (inr n) h = Apart-order u v xs i m n h

find-holder : (a : ℕ) (vs : List Vma) → Apart vs → holder vs a ≡ none → find base_of a vs ≡ none
find-holder a [] i e = refl
find-holder a (v ∷ vs) (z, k, b, i) e = ground (arith, find-holder a vs i)

module _ {M : Type 0} (p : Pages M) (fuel base size : ℕ) (flags : Vflags) (s : Space M) where
  abbrev fresh : ℕ → ℕ → Vma
  fresh b n = record { base = b; size = n; flags = flags; vnode_backing = 0; vnode_offset = 0 }

  inserted :
      (n : Vma) (t : Space M)
      → find base_of n.base t.vmm.vmas ≡ none
      → insert_area p n t ≡ (
        n.base,
        record t {
          vmm = record (t.vmm) {
            vmas = insert base_of n t.vmm.vmas;
            vmas_count = add64 t.vmm.vmas_count 1;
          };
        },
      )
  unfolding insert_area
  inserted n t e = rw e refl

  lazily_added :
      (b n : ℕ) (t : Space M)
      → (p.vma_alloc t.mach).0 ≡ true
      → flags.lazy ≡ true
      → add_area p b n flags t
        ≡ insert_area p (fresh b n) (record t { mach = (p.vma_alloc t.mach).1 })
  unfolding add_area
  lazily_added b n t ok l = rw (ok, l) refl

  no_overlap :
      (vmm : Vmm) (n : ℕ)
      → find_vma vmm.vmas (align_down base) ≡ none
      → range_overlaps vmm.vmas (align_down base) n ≡ false
  unfolding range_overlaps
  no_overlap vmm n e = rw (range_overlaps, e) refl

  chosen :
      (vmm : Vmm) (n : ℕ)
      → flags.fixed ≡ true
      → find_vma vmm.vmas (align_down base) ≡ none
      → choose_base fuel vmm base n flags ≡ some (some (align_down base), vmm)
  unfolding choose_base
  chosen vmm n f e =
      let o = no_overlap vmm n e in
      elim (Bool-cases (base == 0)) [ inl z ↦ rw (z, f, o) refl | inr z ↦ rw (z, f, o) refl ]

  -- With areas that lie apart and the lock free, a mapping of a size other than 0 with VFLAG_FIXED and
  -- VFLAG_LAZY at a page that no area holds succeeds, if there is memory for an area, also where an area starts within the range: the new area reaches into that
  -- one, and the areas no longer lie apart.
  pub vmm_map-overlaps :
      (v : Vma)
      → Apart s.vmm.vmas
      → s.locked ≡ false
      → size ≢ 0
      → flags.fixed ≡ true
      → flags.lazy ≡ true
      → (p.vma_alloc s.mach).0 ≡ true
      → holder s.vmm.vmas (align_down base) ≡ none
      → Among v s.vmm.vmas
      → align_down base < v.base
      → v.base < align_down base + align_up size
      → (r : ℕ × Space M) × (vmm_map p fuel base size flags s ≡ some r)
        × (r.0 ≡ align_down base)
        × ¬ Apart r.1.vmm.vmas
  unfolding vmm_map map_area acquire release
  vmm_map-overlaps v i u z f l ok h m lo hi =
      let b = align_down base in
      let n = align_up size in
      let t : Space M = record s { locked = true } in
      let none_at = find_vma-holder s.vmm.vmas b i ∙ h in
      let e =
        lazily_added b n t ok l
        ∙ inserted (fresh b n) (record t { mach = (p.vma_alloc s.mach).1 })
            (find-holder b s.vmm.vmas i h) in
      (
        (b, release (add_area p b n flags t).1),
        rw (test_ne size 0 z, u, chosen s.vmm n f none_at)
            (ap (λ r. some (r, release (add_area p b n flags t).1))
              (ap (λ (r : ℕ × Space M). r.0) e)),
        refl,
        λ w.
            let a = subst (λ (r : ℕ × Space M). Apart r.1.vmm.vmas) e w in
            let o =
              Apart-order (fresh b n) v (insert base_of (fresh b n) s.vmm.vmas) a
                (Among-insert_self (fresh b n) s.vmm.vmas) (Among-insert (fresh b n) v s.vmm.vmas m)
                lo in
            absurd (omega arith),
      )
