-- ===== src/Rbtree/Search.antt =====
-- The walks through a tree are walks along its sequence.
use lapis.Base.{ℕ, ◌≤◌, ◌≡◌, refl, sym, ap, ◌∙◌, Option, some, none, List, [], ◌∷◌, ◌++◌, arith}
use mathlib.Core.List.{append_assoc, append-nil}
use lapis.Rbtree.{
  Color, Tree, leaf, node, Frame, left, right, first_under, last_under, rb_first, rb_last, next_up,
  prev_up, rb_next, rb_prev, rb_find, lower_loop, rb_lower_bound, upper_loop, rb_upper_bound, zip,
}
use lapis.Rbtree.Sequence.{
  to_list, before, behind, or_else, Ascending, Ascending-split, lower_bound, upper_bound, find,
  lower-append, upper-append, find-append, lower-AllBelow, upper-AllBelow, find-AllBelow,
  find-AllAbove, AllBelow, AllAbove, AllBelow-le, AllAbove-le, to_list-zip,
}

module _ {ℓ} {A : Type ℓ} where
  -- The first and the last object of a sequence.
  abbrev pub head : List A → Option A
  head [] = none
  head (x ∷ xs) = some x

  abbrev pub last : List A → Option A
  last [] = none
  last (x ∷ xs) = or_else (last xs) (some x)

  last-append : (xs : List A) (v : A) (ys : List A) → last (xs ++ (v ∷ ys)) ≡ last (v ∷ ys)
  last-append [] v ys = refl
  last-append (x ∷ xs) v ys = rw (last-append xs v ys) (ends x v ys)
    where
      ends : (x v : A) (ys : List A) → or_else (last (v ∷ ys)) (some x) ≡ last (v ∷ ys)
      ends x v ys = ground arith

  last-append_nil : (xs : List A) (v : A) → last (xs ++ (v ∷ [])) ≡ some v
  last-append_nil xs v = last-append xs v []

  head-first :
      (v : A) (l : Tree A) (ys : List A) → head (to_list l ++ (v ∷ ys)) ≡ some (first_under v l)
  unfolding first_under
  head-first v leaf ys = refl
  head-first v (node k l w r) ys = rw append_assoc (head-first w l (to_list r ++ (v ∷ ys)))

  last-last :
      (v : A) (r : Tree A) (xs : List A) → last (xs ++ (v ∷ to_list r)) ≡ some (last_under v r)
  unfolding last_under
  last-last v leaf xs = last-append_nil xs v
  last-last v (node k l w r) xs =
      ap last (sym (append_assoc xs (v ∷ to_list l) (w ∷ to_list r)))
      ∙ last-last w r (xs ++ (v ∷ to_list l))

  -- `rb_first` and `rb_last` give the ends of the sequence.
  pub rb_ends : (t : Tree A) → (rb_first t ≡ head (to_list t)) × (rb_last t ≡ last (to_list t))
  unfolding rb_first rb_last
  rb_ends leaf = (refl, refl)
  rb_ends (node k l v r) = (sym (head-first v l (to_list r)), sym (last-last v r (to_list l)))

  head-behind : (c : List (Frame A)) → next_up c ≡ head (behind c)
  unfolding next_up
  head-behind [] = refl
  head-behind (left k v r ∷ c) = refl
  head-behind (right k l v ∷ c) = head-behind c

  last-before : (c : List (Frame A)) → prev_up c ≡ last (before c)
  unfolding prev_up
  last-before [] = refl
  last-before (left k v r ∷ c) = last-before c
  last-before (right k l v ∷ c) =
      sym (last-append_nil (before c ++ to_list l) v)
      ∙ ap last (append_assoc (before c) (to_list l) (v ∷ []))

  next-behind : (c : List (Frame A)) (l r : Tree A) → rb_next c l r ≡ head (to_list r ++ behind c)
  unfolding rb_next
  next-behind c l leaf = head-behind c
  next-behind c l (node k rl v rr) = sym (
      ap head (append_assoc (to_list rl) (v ∷ to_list rr) (behind c))
      ∙ head-first v rl (to_list rr ++ behind c))

  prev-before : (c : List (Frame A)) (l r : Tree A) → rb_prev c l r ≡ last (before c ++ to_list l)
  unfolding rb_prev
  prev-before c leaf r = last-before c ∙ ap last (sym (append-nil (before c)))
  prev-before c (node k ll v lr) r = sym (
      ap last (sym (append_assoc (before c) (to_list ll) (v ∷ to_list lr)))
      ∙ last-last v lr (before c ++ to_list ll))

  -- `rb_next` and `rb_prev` give the neighbours in the sequence, wherever the node stands.
  pub rb_neighbours :
      (c : List (Frame A)) (k : Color) (l : Tree A) (v : A) (r : Tree A)
      → (to_list (zip c (node k l v r)) ≡ (before c ++ to_list l) ++ (v ∷ (to_list r ++ behind c)))
        × (rb_next c l r ≡ head (to_list r ++ behind c))
        × (rb_prev c l r ≡ last (before c ++ to_list l))
  rb_neighbours c k l v r = (
    to_list-zip c (node k l v r)
        ∙ ap (λ xs. before c ++ xs) (append_assoc (to_list l) (v ∷ to_list r) (behind c))
        ∙ sym (append_assoc (before c) (to_list l) (v ∷ (to_list r ++ behind c))),
    next-behind c l r,
    prev-before c l r,
  )

module _ {A : Type 0} (key : A → ℕ) where
  none-before :
      (j k : ℕ) (xs : List A)
      → AllBelow key j xs
      → j ≤ k
      → (lower_bound key k xs ≡ none) × (upper_bound key k xs ≡ none) × (find key k xs ≡ none)
  none-before j k xs a h =
      let b = AllBelow-le key j k xs h a in
      (lower-AllBelow key k xs b, upper-AllBelow key k xs b, find-AllBelow key k xs b)

  find-behind : (j k : ℕ) (xs : List A) → AllAbove key j xs → k ≤ j → find key k xs ≡ none
  find-behind j k xs a h = find-AllAbove key k xs (AllAbove-le key k j xs h a)

  lower_loop_lem :
      (result : Option A) (k : ℕ) (t : Tree A)
      → Ascending key (to_list t)
      → lower_loop key result k t ≡ or_else (lower_bound key k (to_list t)) result
  unfolding lower_loop
  lower_loop_lem result k leaf a = refl
  lower_loop_lem result k (node c l v r) a =
      let s = Ascending-split key (to_list l) v (to_list r) a in
      rw lower-append (
        ground (
          arith,
          lower_loop_lem (some v) k l s.0,
          lower_loop_lem result k r s.3,
          none-before (key v) k (to_list l) s.1,
        ))

  upper_loop_lem :
      (result : Option A) (k : ℕ) (t : Tree A)
      → Ascending key (to_list t)
      → upper_loop key result k t ≡ or_else (upper_bound key k (to_list t)) result
  unfolding upper_loop
  upper_loop_lem result k leaf a = refl
  upper_loop_lem result k (node c l v r) a =
      let s = Ascending-split key (to_list l) v (to_list r) a in
      rw upper-append (
        ground (
          arith,
          upper_loop_lem (some v) k l s.0,
          upper_loop_lem result k r s.3,
          none-before (key v) k (to_list l) s.1,
        ))

  find_lem :
      (k : ℕ) (t : Tree A) → Ascending key (to_list t) → rb_find key k t ≡ find key k (to_list t)
  unfolding rb_find
  find_lem k leaf a = refl
  find_lem k (node c l v r) a =
      let s = Ascending-split key (to_list l) v (to_list r) a in
      rw find-append (
        ground (
          arith,
          find_lem k l s.0,
          find_lem k r s.3,
          none-before (key v) k (to_list l) s.1,
          find-behind (key v) k (to_list r) s.2,
        ))

  or_none : (o : Option A) → or_else o none ≡ o
  or_none none = refl
  or_none (some x) = refl

  -- In a tree whose sequence ascends, the three searches find what a search along the sequence does.
  pub rb_search :
      (k : ℕ) (t : Tree A)
      → Ascending key (to_list t)
      → (rb_find key k t ≡ find key k (to_list t))
        × (rb_lower_bound key k t ≡ lower_bound key k (to_list t))
        × (rb_upper_bound key k t ≡ upper_bound key k (to_list t))
  unfolding rb_lower_bound rb_upper_bound
  rb_search k t a =
      (find_lem k t a, lower_loop_lem none k t a ∙ or_none _, upper_loop_lem none k t a ∙ or_none _)
