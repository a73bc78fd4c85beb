-- ===== src/Mm/Vmm/Access.antt =====
-- `vmm_is_accessible` tests every address of the range, and `vmm_brk` waits for its own lock.
use lapis.Base.{
  ℕ, zero, suc, ◌+◌, ◌*◌, ◌/◌, ◌<◌, ◌≤◌, ◌≡◌, refl, sym, ◌∙◌, ◌≢◌, Bool, true, false, Bool-cases,
  Option-cases, inl, inr, ◌⊎◌, some, none, subst, List, [], ◌∷◌, arith, if◌then◌else◌, ltb, ◌==◌,
  add64, sub64, mod64, length, test_ne,
}
use lapis.Mm.Vmm.{Vma, Vflags, align_up, align_down, find_vma}
use lapis.Mm.Vmm.Space.{
  Pages, Space, acquire, allows, access_loop, vmm_is_accessible, vmm_map, vmm_unmap, vmm_brk,
}
use lapis.Mm.Vmm.Find.{Apart, holder, find_vma-holder}
use lapis.Mm.Vmm.Gap.{Among, holder-Among}
use lapis.Mm.Vmm.Unmap.{Among-holder, Among-fits}

-- The areas that end above an address.
abbrev above : ℕ → List Vma → ℕ
above a [] = 0
above a (v ∷ vs) = (if ltb a (v.base + v.size) then 1 else 0) + above a vs

above-le-length : (a : ℕ) (vs : List Vma) → above a vs ≤ length vs
above-le-length a [] = omega arith
above-le-length a (v ∷ vs) = ground (arith, above-le-length a vs)

above_mono : (a b : ℕ) (vs : List Vma) → a ≤ b → above b vs ≤ above a vs
above_mono a b [] h = omega arith
above_mono a b (v ∷ vs) h = ground (arith, above_mono a b vs h)

above-lt :
    (a : ℕ) (v : Vma) (vs : List Vma)
    → Among v vs
    → a < v.base + v.size
    → above (v.base + v.size) vs < above a vs
above-lt a v [] m h = elim m [ ]
above-lt a v (x ∷ xs) (inl e) h =
    let w = subst (λ (u : Vma). v.base + v.size ≡ u.base + u.size) e refl in
    ground (arith, above_mono a (v.base + v.size) xs)
above-lt a v (x ∷ xs) (inr m) h = ground (arith, above-lt a v xs m h)

module _ (access : Vflags) (vs : List Vma) where
  -- An area holds the address and allows the access, or not.
  abbrev pub Allowed : ℕ → Type 0
  Allowed x = (v : Vma) × (holder vs x ≡ some v) × (allows v.flags access ≡ true)

  abbrev pub Denied : ℕ → Type 0
  Denied x =
      (holder vs x ≡ none) ⊎ ((v : Vma) × (holder vs x ≡ some v) × (allows v.flags access ≡ false))

  abbrev pub Told : ℕ → ℕ → Bool → Type 0
  Told a e true = (x : ℕ) → a ≤ x → x < e → Allowed x
  Told a e false = (x : ℕ) × (a ≤ x) × (x < e) × Denied x

  onward :
      (a b e : ℕ) (v : Vma) (r : Bool)
      → a < e
      → a ≤ b
      → ((x : ℕ) → a ≤ x → x < b → Allowed x)
      → Told b e r
      → Told a e r
  onward a b e v false k h here (x, l, m, d) = (x, omega arith, m, d)
  onward a b e v true k h here rest = λ x l m. elim (Bool-cases (ltb x b)) [
    | inl w ↦ here x l (lt_of x b w)
    | inr w ↦ rest x (le_of x b w) m
  ]
    where
      lt_of : (x b : ℕ) → ltb x b ≡ true → x < b
      lt_of x b w = ground arith

      le_of : (x b : ℕ) → ltb x b ≡ false → b ≤ x
      le_of x b w = ground arith

  access_loop-Told :
      (fuel a e : ℕ)
      → Apart vs
      → above a vs < fuel
      → (r : Bool) × (access_loop fuel vs a e access ≡ some r) × Told a e r
  unfolding access_loop
  access_loop-Told zero a e i f = absurd (omega arith)
  access_loop-Told (suc fuel) a e i f = elim (Bool-cases (ltb a e)) [
    | inr h ↦ (true, rw h refl, λ x l m. absurd (empty x h l m))
    | inl h ↦ elim (Option-cases (find_vma vs a)) [
      | inl n ↦ (
        false,
        rw (access_loop, h, n) refl,
        (a, omega arith, lt_of h, inl (sym (find_vma-holder vs a i) ∙ n)),
      )
      | inr (v, n) ↦
          let g = sym (find_vma-holder vs a i) ∙ n in
          let w = holder-Among vs a v g in
          elim (Bool-cases (allows v.flags access)) [
            | inr d ↦
                (false, rw (access_loop, h, n, d) refl, (a, omega arith, lt_of h, inr (v, g, d)))
            | inl d ↦
                let fits = Among-fits v vs i w.0 in
                let sum : add64 v.base v.size ≡ v.base + v.size = omega arith in
                let r =
                  access_loop-Told fuel (v.base + v.size) e i
                    (omega (arith, above-lt a v vs w.0 w.2)) in
                (
                  r.0,
                  rw (access_loop, h, n, d, sum) r.1,
                  onward a (v.base + v.size) e v r.0 (lt_of h) (omega arith)
                      (λ x l m. (v, Among-holder v vs x i w.0 (omega arith) m, d)) r.2,
                )
          ]
    ]
  ]
    where
      lt_of : ltb a e ≡ true → a < e
      lt_of h = ground arith

      empty : (x : ℕ) → ltb a e ≡ false → a ≤ x → x < e → ⊥
      empty x h l m = ground arith

-- If the areas lie apart, the size is not 0, and base + size + 0x1000 is at most 2 ^ 64, so that the
-- end of the range does not wrap when it is rounded up, the test ends within one round more than
-- there are areas. If it says yes, each address of the pages of the range, from the multiple of 4096
-- at or below its base to the one at or above its end, is in an area that allows the access. If it
-- says no, one of these addresses is in no area, or in one that does not allow the access.
pub vmm_is_accessible-Told :
    (access : Vflags) (vs : List Vma) (base size : ℕ)
    → Apart vs
    → size ≢ 0
    → base + size + 0x1000 ≤ mod64
    → (r : Bool) × (vmm_is_accessible (suc (length vs)) vs base size access ≡ some r)
      × Told access vs (base / 4096 * 4096) ((base + size + 4095) / 4096 * 4096) r
unfolding vmm_is_accessible align_down align_up
vmm_is_accessible-Told access vs base size i z h =
    let sum : add64 base size ≡ base + size = omega arith in
    let from = base / 4096 * 4096 in
    let upto = (base + size + 4095) / 4096 * 4096 in
    let end : align_up (base + size) ≡ upto = omega arith in
    rw (test_ne size 0 z, sum, end)
      (access_loop-Told access vs (suc (length vs)) from upto i
        (omega (arith, above-le-length from vs)))

module _ {M : Type 0} (p : Pages M) (fuel new_brk : ℕ) (s : Space M) where
  -- A call of `vmm_brk` that moves the break, up or down, to an address that, rounded up to a page, is
  -- not below `brk_base` and does not wrap, never returns: it waits for the lock that it has taken.
  pub vmm_brk-waits :
      s.vmm.brk < mod64
      → align_up new_brk < mod64
      → s.vmm.brk_base ≤ align_up new_brk
      → align_up new_brk ≢ s.vmm.brk
      → vmm_brk p fuel new_brk s ≡ none
  unfolding vmm_brk vmm_map vmm_unmap acquire
  vmm_brk-waits k l h n =
      let e = base_ok s.vmm.brk_base (align_up new_brk) h in
      elim (Bool-cases s.locked) [
        | inl u ↦ rw (e, u) refl
        | inr u ↦ elim (Bool-cases (ltb s.vmm.brk (align_up new_brk))) [
          | inl g ↦ rw (e, u, g, nonzero (align_up new_brk) s.vmm.brk l k n) refl
          | inr g ↦
              rw
                (
                  e,
                  u,
                  g,
                  falls s.vmm.brk (align_up new_brk) g n,
                  nonzero s.vmm.brk (align_up new_brk) k l (λ q. n (sym q)),
                )
                refl
        ]
      ]
    where
      base_ok : (a b : ℕ) → a ≤ b → ltb b a ≡ false
      base_ok a b h = ground arith

      falls : (a b : ℕ) → ltb a b ≡ false → b ≢ a → ltb b a ≡ true
      falls a b g n = ground arith

      nonzero : (a b : ℕ) → a < mod64 → b < mod64 → a ≢ b → (sub64 a b == 0) ≡ false
      nonzero a b k l n = test_ne (sub64 a b) 0 (λ q. n (omega arith))
