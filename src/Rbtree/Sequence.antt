-- ===== src/Rbtree/Sequence.antt =====
-- The sequence of the objects of a tree, and what its rotations and repaintings leave_loop of it.
use lapis.Base.{
  ℕ, ◌<◌, ◌≤◌, ◌≡◌, refl, Option, some, none, List, [], ◌∷◌, ◌++◌, arith, ltb, leb, ◌==◌,
  if◌then◌else◌,
}
use mathlib.Core.List.{append_assoc, append-nil}
use lapis.Rbtree.{Color, Tree, leaf, node, Frame, left, right, paint, plug, zip}

module _ {ℓ} {A : Type ℓ} where
  -- In order.
  abbrev pub to_list : Tree A → List A
  to_list leaf = []
  to_list (node k l v r) = to_list l ++ (v ∷ to_list r)

  -- What lies before and behind a place.
  abbrev pub before : List (Frame A) → List A
  before [] = []
  before (left k v r ∷ c) = before c
  before (right k l v ∷ c) = before c ++ (to_list l ++ (v ∷ []))

  abbrev pub behind : List (Frame A) → List A
  behind [] = []
  behind (left k v r ∷ c) = (v ∷ to_list r) ++ behind c
  behind (right k l v ∷ c) = behind c

  pub to_list-zip :
      (c : List (Frame A)) (t : Tree A) → to_list (zip c t) ≡ before c ++ (to_list t ++ behind c)
  unfolding zip plug
  to_list-zip [] t = simp append-nil
  to_list-zip (left k v r ∷ c) t = simp (to_list-zip c (node k t v r), append_assoc)
  to_list-zip (right k l v ∷ c) t = simp (to_list-zip c (node k l v t), append_assoc)

  pub to_list-paint : (k : Color) (t : Tree A) → to_list (paint k t) ≡ to_list t
  unfolding paint
  to_list-paint k leaf = refl
  to_list-paint k (node k' l v r) = refl

-- The first of two results that is there.
abbrev pub or_else {ℓ} : {A : Type ℓ} → Option A → Option A → Option A
or_else none y = y
or_else (some x) y = some x

module _ {ℓ} {A : Type ℓ} (key : A → ℕ) where
  abbrev pub AllBelow : ℕ → List A → Type 0
  AllBelow k [] = Unit {0}
  AllBelow k (x ∷ xs) = (key x < k) × AllBelow k xs

  abbrev pub AllAbove : ℕ → List A → Type 0
  AllAbove k [] = Unit {0}
  AllAbove k (x ∷ xs) = (k < key x) × AllAbove k xs

  -- The keys ascend, so each occurs once.
  abbrev pub Ascending : List A → Type 0
  Ascending [] = Unit {0}
  Ascending (x ∷ xs) = AllAbove (key x) xs × Ascending xs

  pub AllAbove-le : (j k : ℕ) (xs : List A) → j ≤ k → AllAbove k xs → AllAbove j xs
  AllAbove-le j k [] h a = tt
  AllAbove-le j k (x ∷ xs) h (b, a) = (omega arith, AllAbove-le j k xs h a)

  pub AllBelow-le : (j k : ℕ) (xs : List A) → j ≤ k → AllBelow j xs → AllBelow k xs
  AllBelow-le j k [] h a = tt
  AllBelow-le j k (x ∷ xs) h (b, a) = (omega arith, AllBelow-le j k xs h a)

  AllAbove-split :
      (k : ℕ) (xs : List A) (v : A) (ys : List A)
      → AllAbove k (xs ++ (v ∷ ys))
      → AllAbove k xs × (k < key v)
  AllAbove-split k [] v ys (b, a) = (tt, b)
  AllAbove-split k (x ∷ xs) v ys (b, a) = let r = AllAbove-split k xs v ys a in ((b, r.0), r.1)

  -- A place in an ascending sequence.
  pub Ascending-split :
      (xs : List A) (v : A) (ys : List A)
      → Ascending (xs ++ (v ∷ ys))
      → Ascending xs × AllBelow (key v) xs × AllAbove (key v) ys × Ascending ys
  Ascending-split [] v ys (a, b) = (tt, tt, a, b)
  Ascending-split (x ∷ xs) v ys (a, b) =
      let s = AllAbove-split (key x) xs v ys a in
      let r = Ascending-split xs v ys b in ((s.0, r.0), (s.1, r.1), r.2, r.3)

  -- The first object whose key is at least `k`, or above `k`.
  abbrev pub lower_bound : ℕ → List A → Option A
  lower_bound k [] = none
  lower_bound k (x ∷ xs) = if ltb (key x) k then lower_bound k xs else some x

  abbrev pub upper_bound : ℕ → List A → Option A
  upper_bound k [] = none
  upper_bound k (x ∷ xs) = if leb (key x) k then upper_bound k xs else some x

  -- The object with this key.
  abbrev pub find : ℕ → List A → Option A
  find k [] = none
  find k (x ∷ xs) = if k == key x then some x else find k xs

  -- An object in its place.
  abbrev pub insert : A → List A → List A
  insert x [] = x ∷ []
  insert x (y ∷ ys) = if ltb (key x) (key y) then x ∷ (y ∷ ys) else y ∷ insert x ys

  pub lower-append :
      (k : ℕ) (xs ys : List A)
      → lower_bound k (xs ++ ys) ≡ or_else (lower_bound k xs) (lower_bound k ys)
  lower-append k [] ys = refl
  lower-append k (x ∷ xs) ys = ground (arith, lower-append k xs ys)

  pub upper-append :
      (k : ℕ) (xs ys : List A)
      → upper_bound k (xs ++ ys) ≡ or_else (upper_bound k xs) (upper_bound k ys)
  upper-append k [] ys = refl
  upper-append k (x ∷ xs) ys = ground (arith, upper-append k xs ys)

  pub find-append : (k : ℕ) (xs ys : List A) → find k (xs ++ ys) ≡ or_else (find k xs) (find k ys)
  find-append k [] ys = refl
  find-append k (x ∷ xs) ys = ground (arith, find-append k xs ys)

  pub lower-AllBelow : (k : ℕ) (xs : List A) → AllBelow k xs → lower_bound k xs ≡ none
  lower-AllBelow k [] a = refl
  lower-AllBelow k (x ∷ xs) (b, a) = ground (arith, lower-AllBelow k xs a)

  pub upper-AllBelow : (k : ℕ) (xs : List A) → AllBelow k xs → upper_bound k xs ≡ none
  upper-AllBelow k [] a = refl
  upper-AllBelow k (x ∷ xs) (b, a) = ground (arith, upper-AllBelow k xs a)

  pub find-AllBelow : (k : ℕ) (xs : List A) → AllBelow k xs → find k xs ≡ none
  find-AllBelow k [] a = refl
  find-AllBelow k (x ∷ xs) (b, a) = ground (arith, find-AllBelow k xs a)

  pub find-AllAbove : (k : ℕ) (xs : List A) → AllAbove k xs → find k xs ≡ none
  find-AllAbove k [] a = refl
  find-AllAbove k (x ∷ xs) (b, a) = ground (arith, find-AllAbove k xs a)

  pub insert-AllBelow :
      (x : A) (xs ys : List A) → AllBelow (key x) xs → insert x (xs ++ ys) ≡ xs ++ insert x ys
  insert-AllBelow x [] ys a = refl
  insert-AllBelow x (y ∷ xs) ys (b, a) = ground (arith, insert-AllBelow x xs ys a)

  pub insert-AllAbove : (x : A) (ys : List A) → AllAbove (key x) ys → insert x ys ≡ x ∷ ys
  insert-AllAbove x [] a = refl
  insert-AllAbove x (y ∷ ys) (b, a) = ground arith
