-- ===== src/Mm/Vmm/Unmap.antt =====
-- `vmm_unmap`: which areas it takes out, and which it leaves.
use lapis.Base.{
  ℕ, ◌+◌, ◌<◌, ◌≤◌, ◌≡◌, refl, sym, ap, ◌∙◌, ◌≢◌, Bool, true, false, ◌&&◌, Bool-cases, Option-cases,
  inl, inr, ◌⊎◌, Option, some, none, subst, List, [], ◌∷◌, arith, if◌then◌else◌, ltb, leb, add64,
  sub64, mod64, ℤ, pos, test_ne,
}
use lapis.Mm.Vmm.{Vma, align_up, align_down, find_vma}
use lapis.Mm.Vmm.Space.{
  Pages, Space, acquire, release, sweep, sweep_space, split_first, split_last, unmap_area,
  vmm_unmap,
}
use lapis.Mm.Vmm.Find.{Apart, AllBehind, holder, find_vma-holder}
use lapis.Mm.Vmm.Gap.{Among, holder-Among}

-- Each area lies in the range or outside of it.
abbrev pub Whole : ℕ → ℕ → List Vma → Type 0
Whole b e [] = Unit {0}
Whole b e (v ∷ vs) =
    (((b ≤ v.base) × (v.base + v.size ≤ e)) ⊎ ((v.base + v.size ≤ b) ⊎ (e ≤ v.base))) × Whole b e vs

AllBehind-Among : (end : ℕ) (v : Vma) (vs : List Vma) → AllBehind end vs → Among v vs → end ≤ v.base
AllBehind-Among end v [] b m = elim m [ ]
AllBehind-Among end v (x ∷ xs) (b, bs) (inl e) = subst (λ (u : Vma). end ≤ u.base) (sym e) b
AllBehind-Among end v (x ∷ xs) (b, bs) (inr m) = AllBehind-Among end v xs bs m

-- An area that is there holds its addresses.
pub Among-holder :
    (v : Vma) (vs : List Vma) (x : ℕ)
    → Apart vs
    → Among v vs
    → v.base ≤ x
    → x < v.base + v.size
    → holder vs x ≡ some v
Among-holder v [] x i m h k = elim m [ ]
Among-holder v (u ∷ us) x (z, w, b, i) (inl e) h k = here
  where
    here : holder (u ∷ us) x ≡ some v
    here = subst (λ (t : Vma). holder (t ∷ us) x ≡ some v) e (inside v.base v.size h k)
      where
        inside :
            (b s : ℕ)
            → b ≤ x
            → x < b + s
            → (if leb b x && ltb x (b + s) then some v else holder us x) ≡ some v
        inside b s h k = ground arith
Among-holder v (u ∷ us) x (z, w, b, i) (inr m) h k =
    let e = AllBehind-Among (u.base + u.size) v us b m in
    ground (arith, Among-holder v us x i m h k)

pub Among-fits : (v : Vma) (vs : List Vma) → Apart vs → Among v vs → v.base + v.size < mod64
Among-fits v [] i m = elim m [ ]
Among-fits v (x ∷ xs) (z, k, b, i) (inl e) = subst (λ (u : Vma). u.base + u.size < mod64) (sym e) k
Among-fits v (x ∷ xs) (z, k, b, i) (inr m) = Among-fits v xs i m

Whole-Among :
    (b e : ℕ) (v : Vma) (vs : List Vma)
    → Whole b e vs
    → Among v vs
    → ((b ≤ v.base) × (v.base + v.size ≤ e)) ⊎ ((v.base + v.size ≤ b) ⊎ (e ≤ v.base))
Whole-Among b e v [] w m = elim m [ ]
Whole-Among b e v (x ∷ xs) (w, ws) (inl q) =
    subst
      (λ (u : Vma). ((b ≤ u.base) × (u.base + u.size ≤ e)) ⊎ ((u.base + u.size ≤ b) ⊎ (e ≤ u.base)))
      (sym q) w
Whole-Among b e v (x ∷ xs) (w, ws) (inr m) = Whole-Among b e v xs ws m

holder-before : (end x : ℕ) (vs : List Vma) → AllBehind end vs → x < end → holder vs x ≡ none
holder-before end x [] b h = refl
holder-before end x (v ∷ vs) (b, bs) h = ground (arith, holder-before end x vs bs h)

abbrev within : ℕ → ℕ → ℕ → Bool
within b e x = leb b x && ltb x e

module _ (b e : ℕ) where
  -- Which areas are left does not depend on the machine.
  unfoldable left_by : List Vma → List Vma
  left_by [] = []
  left_by (v ∷ vs) =
      let rest = left_by vs in
      if leb b v.base && leb (add64 v.base v.size) e
      then rest
      else if leb e v.base
      then v ∷ vs
      else v ∷ rest

  AllBehind-left : (end : ℕ) (vs : List Vma) → AllBehind end vs → AllBehind end (left_by vs)
  unfolding left_by
  AllBehind-left end [] a = tt
  AllBehind-left end (v ∷ vs) (a, ws) = ground (arith, AllBehind-left end vs ws)

  Apart-left : (vs : List Vma) → Apart vs → Apart (left_by vs)
  unfolding left_by
  Apart-left [] i = tt
  Apart-left (v ∷ vs) (z, w, a, i) =
      ground (arith, Apart-left vs i, AllBehind-left (v.base + v.size) vs a)

  holder-left :
      (vs : List Vma) (x : ℕ)
      → Apart vs
      → Whole b e vs
      → holder (left_by vs) x ≡ (if within b e x then none else holder vs x)
  unfolding left_by
  holder-left [] x i w = ground arith
  holder-left (v ∷ vs) x (z, k, a, i) (w, ws) =
      let sum : add64 v.base v.size ≡ v.base + v.size = omega arith in
      let behind = holder-before (v.base + v.size) x vs a in
      rw sum (elim (Bool-cases (leb b v.base && leb (v.base + v.size) e)) [
        | inl h ↦ rw h (ground (arith, holder-left vs x i ws))
        | inr h ↦ elim (Bool-cases (leb e v.base)) [
          | inl l ↦ rw (h, l) (ground (arith, behind))
          | inr l ↦ rw (h, l) (ground (arith, holder-left vs x i ws))
        ]
      ])

  -- An area that reaches out of the range stays.
  Among-left :
      (v : Vma) (vs : List Vma)
      → Among v vs
      → (leb b v.base && leb (add64 v.base v.size) e) ≡ false
      → Among v (left_by vs)
  unfolding left_by
  Among-left v [] m h = elim m [ ]
  Among-left v (x ∷ xs) (inl q) h =
      let h' = subst (λ (u : Vma). (leb b u.base && leb (add64 u.base u.size) e) ≡ false) q h in
      elim (Bool-cases (leb e x.base)) [ inl k ↦ rw (h', k) (inl q) | inr k ↦ rw (h', k) (inl q) ]
  Among-left v (x ∷ xs) (inr m) h =
      let n = Among-left v xs m h in
      elim (Bool-cases (leb b x.base && leb (add64 x.base x.size) e)) [
        | inl k ↦ rw k n
        | inr k ↦ elim (Bool-cases (leb e x.base)) [
          | inl l ↦ rw (k, l) (inr m)
          | inr l ↦ rw (k, l) (inr n)
        ]
      ]

module _ {M : Type 0} (p : Pages M) (b e pml4 : ℕ) where
  sweep-left : (vs : List Vma) (m : M) → (sweep p b e pml4 vs m).0 ≡ left_by b e vs
  unfolding sweep left_by
  sweep-left [] m = refl
  sweep-left (v ∷ vs) m = elim (Bool-cases (leb b v.base && leb (add64 v.base v.size) e)) [
    | inl h ↦ rw h (sweep-left vs _)
    | inr h ↦ elim (Bool-cases (leb e v.base)) [
      | inl k ↦ rw (h, k) refl
      | inr k ↦ rw (h, k) (ap (λ us. v ∷ us) (sweep-left vs m))
    ]
  ]

  -- What an unmapping leaves when neither end needs a split.
  abbrev Swept : Space M → Option (ℤ × Space M) → Type 0
  Swept s o =
      (r : ℤ × Space M) × (o ≡ some r)
      × (r.0 ≡ pos 0)
      × (r.1.locked ≡ false)
      × (r.1.vmm.vmas ≡ left_by b e s.vmm.vmas)

  no_split_first :
      (s : Space M)
      → ((v : Vma) → find_vma s.vmm.vmas b ≡ some v → b ≤ v.base)
      → split_first p b s ≡ (true, s)
  unfolding split_first
  no_split_first s f = elim (Option-cases (find_vma s.vmm.vmas b)) [
    | inl n ↦ rw (split_first, n) refl
    | inr (v, n) ↦ let h = not_below v.base (f v n) in rw (split_first, n, h) refl
  ]
    where
      not_below : (a : ℕ) → b ≤ a → ltb a b ≡ false
      not_below a h = ground arith

  -- The area that holds the last byte never ends below the end, so this split is never made.
  no_split_last :
      (s : Space M) → Apart s.vmm.vmas → 0 < e → e < mod64 → split_last p e s ≡ (true, s)
  unfolding split_last
  no_split_last s i z k = elim (Option-cases (find_vma s.vmm.vmas (sub64 e 1))) [
    | inl n ↦ rw (split_last, n) refl
    | inr (v, n) ↦
        let h =
          holder-Among s.vmm.vmas (sub64 e 1) v
            (sym (find_vma-holder s.vmm.vmas (sub64 e 1) i) ∙ n) in
        let r = reaches v.base v.size (Among-fits v s.vmm.vmas i h.0) h.2 in
        rw (split_last, n, r) refl
  ]
    where
      reaches : (a n : ℕ) → a + n < mod64 → sub64 e 1 < a + n → ltb (add64 a n) e ≡ false
      reaches a n h l = ground arith

-- The range of a call: pages, and a non-empty one that ends below the end of the address space.
module _ {M : Type 0} (p : Pages M) (base size : ℕ) (s : Space M) (i : Apart s.vmm.vmas)
    (z : size ≢ 0) (u : s.locked ≡ false) where
  abbrev from : ℕ
  from = align_down base

  abbrev upto : ℕ
  upto = align_down base + align_up size

  range :
      base + size + 0x2000 < mod64
      → (add64 from (align_up size) ≡ upto) × (0 < upto) × (upto < mod64)
  unfolding align_down align_up
  range h = (omega arith, omega arith, omega arith)

  swept :
      base + size + 0x2000 < mod64
      → ((v : Vma) → find_vma s.vmm.vmas from ≡ some v → from ≤ v.base)
      → Swept p from upto s.vmm.pml4 s (vmm_unmap p base size s)
  unfolding vmm_unmap unmap_area sweep_space acquire release
  swept h f =
      let t : Space M = record s { locked = true } in
      let r = range h in
      (
        (pos 0, release (sweep_space p from upto t)),
        rw
            (
              test_ne size 0 z,
              u,
              r.0,
              no_split_first p from upto s.vmm.pml4 t f,
              no_split_last p from upto s.vmm.pml4 t i r.1 r.2,
            )
            refl,
        refl,
        refl,
        sweep-left p from upto s.vmm.pml4 s.vmm.vmas s.mach,
      )

  -- If the areas lie apart, the lock is free, the size is not 0, base + size + 0x2000 < 2 ^ 64, and no
  -- area reaches over an end of the range, rounded out to pages, an unmapping succeeds and releases
  -- the lock; no address of the range is held afterwards, every other one is held as before,
  -- and the areas still lie apart.
  pub vmm_unmap-clears :
      base + size + 0x2000 < mod64
      → Whole (align_down base) (align_down base + align_up size) s.vmm.vmas
      → (r : ℤ × Space M) × (vmm_unmap p base size s ≡ some r)
        × (r.0 ≡ pos 0)
        × (r.1.locked ≡ false)
        × Apart r.1.vmm.vmas
        × ((x : ℕ)
            → holder r.1.vmm.vmas x ≡ (
                if leb (align_down base) x && ltb x (align_down base + align_up size)
                then none
                else holder s.vmm.vmas x))
  vmm_unmap-clears h w =
      let r = swept h (λ v e. whole_first v (sym (find_vma-holder s.vmm.vmas from i) ∙ e)) in
      (
        r.0,
        r.1,
        r.2,
        r.3,
        rw r.4 (Apart-left from upto s.vmm.vmas i),
        λ x. ap (λ vs. holder vs x) r.4 ∙ holder-left from upto s.vmm.vmas x i w,
      )
    where
      over : (a n : ℕ) → from < a + n → a + n ≤ from → ⊥
      over a n h k = omega arith

      whole_first : (v : Vma) → holder s.vmm.vmas from ≡ some v → from ≤ v.base
      whole_first v e =
          let h = holder-Among s.vmm.vmas from v e in
          elim (Whole-Among from upto v s.vmm.vmas w h.0) [
            | inl q ↦ q.0
            | inr (inl q) ↦ absurd (over v.base v.size h.2 q)
            | inr (inr q) ↦ omega arith
          ]

  -- If the areas lie apart, the lock is free, the size is not 0, base + size + 0x2000 < 2 ^ 64, and no
  -- area reaches over the start of the range, rounded out to pages, an area that starts in the range
  -- and reaches over its end is not split: the unmapping succeeds, and every address of the area is
  -- held as before, those of the range too.
  pub vmm_unmap-front :
      (v : Vma)
      → base + size + 0x2000 < mod64
      → Among v s.vmm.vmas
      → align_down base ≤ v.base
      → v.base < align_down base + align_up size
      → align_down base + align_up size < v.base + v.size
      → ((w : Vma) → holder s.vmm.vmas (align_down base) ≡ some w → align_down base ≤ w.base)
      → (r : ℤ × Space M) × (vmm_unmap p base size s ≡ some r)
        × (r.0 ≡ pos 0)
        × ((x : ℕ) → v.base ≤ x → x < v.base + v.size → holder r.1.vmm.vmas x ≡ some v)
  vmm_unmap-front v h m k l o f =
      let r = swept h (λ w e. f w (sym (find_vma-holder s.vmm.vmas from i) ∙ e)) in
      let n =
        Among-left from upto v s.vmm.vmas m
          (outside v.base v.size (Among-fits v s.vmm.vmas i m) o) in
      (
        r.0,
        r.1,
        r.2,
        λ x a b.
            ap (λ vs. holder vs x) r.4
            ∙ Among-holder v (left_by from upto s.vmm.vmas) x (Apart-left from upto s.vmm.vmas i) n
                a b,
      )
    where
      outside :
          (a n : ℕ) → a + n < mod64 → upto < a + n → (leb from a && leb (add64 a n) upto) ≡ false
      outside a n h k = ground arith
