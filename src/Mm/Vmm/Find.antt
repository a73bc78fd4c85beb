-- ===== src/Mm/Vmm/Find.antt =====
-- `_find_vma` finds the area that holds an address.
use lapis.Base.{
  ℕ, ◌+◌, ◌<◌, ◌≤◌, ◌≡◌, refl, ◌∙◌, true, false, ◌&&◌, Bool-cases, inl, inr, Option, some, none,
  some_inj, subst, List, [], ◌∷◌, arith, if◌then◌else◌, ltb, leb, add64, mod64,
}
use lapis.Rbtree.Sequence.{lower_bound, or_else}
use lapis.Rbtree.Search.{last}
use lapis.Mm.Vmm.{Vma, base_of, holds, prev_area, held_by, find_vma}

-- The areas ascend, none is empty, none overlaps the next, and all end within the address space.
abbrev pub AllBehind : ℕ → List Vma → Type 0
AllBehind end [] = Unit {0}
AllBehind end (v ∷ vs) = (end ≤ v.base) × AllBehind end vs

abbrev pub Apart : List Vma → Type 0
Apart [] = Unit {0}
Apart (v ∷ vs) =
    (0 < v.size) × (v.base + v.size < mod64) × AllBehind (v.base + v.size) vs × Apart vs

-- The area that a walk along all of them finds.
abbrev pub holder : List Vma → ℕ → Option Vma
holder [] a = none
holder (v ∷ vs) a = if leb v.base a && ltb a (v.base + v.size) then some v else holder vs a

holds_fit :
    (v : Vma) (a : ℕ)
    → v.base + v.size < mod64
    → holds v a ≡ (leb v.base a && ltb a (v.base + v.size))
unfolding holds
holds_fit v a h = let e : add64 v.base v.size ≡ v.base + v.size = omega arith in rw e refl

holder-AllBehind : (end a : ℕ) (vs : List Vma) → AllBehind end vs → a < end → holder vs a ≡ none
holder-AllBehind end a [] b h = refl
holder-AllBehind end a (v ∷ vs) (b, bs) h = ground (arith, holder-AllBehind end a vs bs h)

-- The search as one recursion: `p` is the area before.
walk : Option Vma → List Vma → ℕ → Option Vma
walk p [] a = held_by p a
walk p (v ∷ vs) a =
    if ltb v.base a then walk (some v) vs a else if holds v a then some v else held_by p a

-- What `_find_vma` does once the tree is searched.
abbrev choose : Option Vma → List Vma → ℕ → Option Vma → Option Vma
choose p vs a (some w) = if holds w a then some w else held_by (or_else (prev_area w.base vs) p) a
choose p vs a none = held_by (or_else (last vs) p) a

lower_le : (vs : List Vma) (a : ℕ) (w : Vma) → lower_bound base_of a vs ≡ some w → a ≤ w.base
lower_le [] a w e = cc
lower_le (v ∷ vs) a w e = elim (Bool-cases (ltb v.base a)) [
  | inl h ↦ lower_le vs a w (rw h at e)
  | inr h ↦
      let e' : v ≡ w = some_inj.0 (rw h at e) in
      subst (λ (u : Vma). a ≤ u.base) e' (le_of_not v.base a h)
]
  where
    le_of_not : (b a : ℕ) → ltb b a ≡ false → a ≤ b
    le_of_not b a h = ground arith

choose-walk :
    (p : Option Vma) (vs : List Vma) (a : ℕ)
    → choose p vs a (lower_bound base_of a vs) ≡ walk p vs a
unfolding walk prev_area
choose-walk p [] a = refl
choose-walk p (v ∷ vs) a = elim (Bool-cases (ltb v.base a)) [
  | inr h ↦ rw (h, irrefl v.base) refl
  | inl h ↦ rw h (next (lower_bound base_of a vs) refl h ∙ choose-walk (some v) vs a)
]
  where
    irrefl : (b : ℕ) → ltb b b ≡ false
    irrefl b = ground arith

    both :
        (o : Option Vma) (v : Vma) (p : Option Vma)
        → or_else (or_else o (some v)) p ≡ or_else o (some v)
    both none v p = refl
    both (some u) v p = refl

    before :
        (v : Vma) (a : ℕ) (w : Vma) → ltb v.base a ≡ true → a ≤ w.base → ltb v.base w.base ≡ true
    before v a w h k = ground arith

    next :
        (o : Option Vma)
        → lower_bound base_of a vs ≡ o
        → ltb v.base a ≡ true
        → choose p (v ∷ vs) a o ≡ choose (some v) vs a o
    next none e h = rw both refl
    next (some w) e h = rw (before v a w h (lower_le vs a w e), both) refl

find-walk : (vs : List Vma) (a : ℕ) → find_vma vs a ≡ walk none vs a
unfolding find_vma
find-walk vs a = start (lower_bound base_of a vs) ∙ choose-walk none vs a
  where
    or_none : (o : Option Vma) → or_else o none ≡ o
    or_none none = refl
    or_none (some u) = refl

    start :
        (o : Option Vma)
        → elim o [
          | some v ↦ if holds v a then some v else held_by (prev_area v.base vs) a
          | none ↦ held_by (last vs) a
        ]
          ≡ choose none vs a o
    start none = rw or_none refl
    start (some w) = rw or_none refl

walk-holder :
    (u : Vma) (vs : List Vma) (a : ℕ)
    → u.base < a
    → u.base + u.size < mod64
    → AllBehind (u.base + u.size) vs
    → Apart vs
    → walk (some u) vs a ≡ (if ltb a (u.base + u.size) then some u else holder vs a)
unfolding walk held_by
walk-holder u [] a h k b i = rw (holds_fit u a k) (ground arith)
walk-holder u (v ∷ vs) a h k (b, bs) (z, m, bv, i) =
    rw (holds_fit u a k, holds_fit v a m)
      (ground (
        arith,
        λ (h : v.base < a). walk-holder v vs a h m bv i,
        holder-AllBehind (v.base + v.size) a vs bv,
      ))

-- In areas that lie apart, `_find_vma` finds the one that holds the address, or NULL if none does.
pub find_vma-holder : (vs : List Vma) (a : ℕ) → Apart vs → find_vma vs a ≡ holder vs a
unfolding walk held_by
find_vma-holder [] a i = find-walk [] a
find_vma-holder (v ∷ vs) a (z, m, b, i) =
    find-walk (v ∷ vs) a
    ∙ rw (holds_fit v a m) (
        ground (
          arith,
          λ (h : v.base < a). walk-holder v vs a h m b i,
          holder-AllBehind (v.base + v.size) a vs b,
        ))
