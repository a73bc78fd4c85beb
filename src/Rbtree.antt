-- ===== src/Rbtree.antt =====
-- kernel/src/util/rbtree.c: red-black trees. A node is a constructor of its subtree, and a place in
-- the tree is the subtree there with the frames of its ancestors, which stand for the parent links.
pub mod Sequence
pub mod Search
pub mod Insert
pub mod Balance
pub mod Remove
pub mod Rebalance
mod Tests
use Prim.Native.Nat.{compare, Ordering}
use lapis.Base.{
  ℕ, ◌≡◌, Bool, true, false, not, ◌&&◌, Option, some, none, List, [], ◌∷◌, ◌++◌, ◌>>=◌,
  if◌then◌else◌, add64, sub64, ℤ, pos, negsuc,
}

-- `rb_color_t`
pub data Color : Type 0 where
  black red : Color

-- `rb_node_t`, with the object that it is part of. `leaf` is NULL.
pub data Tree {ℓ} (A : Type ℓ) : Type ℓ where
  leaf : Tree A
  node : Color → Tree A → A → Tree A → Tree A

-- A parent as seen from its left or its right child: the colour, the object and the other child.
pub data Frame {ℓ} (A : Type ℓ) : Type ℓ where
  left : Color → A → Tree A → Frame A
  right : Color → Tree A → A → Frame A

-- `rb_tree_t`
pub record RbTree {ℓ} (A : Type ℓ) : Type ℓ where
  pub root : Tree A
  pub size : ℕ

module _ {ℓ} {A : Type ℓ} where
  unfoldable pub is_red : Tree A → Bool
  is_red leaf = false
  is_red (node red l v r) = true
  is_red (node black l v r) = false

  -- The colour of a parent is red.
  unfoldable pub is_red_frame : Frame A → Bool
  is_red_frame (left red v r) = true
  is_red_frame (left black v r) = false
  is_red_frame (right red l v) = true
  is_red_frame (right black l v) = false

  -- A write to the colour of a node.
  unfoldable pub paint : Color → Tree A → Tree A
  paint c leaf = leaf
  paint c (node k l v r) = node c l v r

  -- A parent with its child, and the whole tree around a place.
  unfoldable pub plug : Frame A → Tree A → Tree A
  plug (left k v r) t = node k t v r
  plug (right k l v) t = node k l v t

  unfoldable pub zip : List (Frame A) → Tree A → Tree A
  zip [] t = t
  zip (f ∷ c) t = zip c (plug f t)

  -- `none` is a NULL pointer that is read.
  unfoldable pub rotate_left : Tree A → Option (Tree A)
  rotate_left leaf = none
  rotate_left (node k l v leaf) = none
  rotate_left (node k l v (node k' rl v' rr)) = some (node k' (node k l v rl) v' rr)

  unfoldable pub rotate_right : Tree A → Option (Tree A)
  rotate_right leaf = none
  rotate_right (node k leaf v r) = none
  rotate_right (node k (node k' ll v' lr) v r) = some (node k' ll v' (node k lr v r))

  -- The parent with its child, turned so that the node is an outer grandchild.
  unfoldable pub outer_left : Frame A → Tree A → Option (Tree A)
  outer_left (left k v r) t = some (node k t v r)
  outer_left (right k l v) t = rotate_left (node k l v t)

  unfoldable pub outer_right : Frame A → Tree A → Option (Tree A)
  outer_right (right k l v) t = some (node k l v t)
  outer_right (left k v r) t = rotate_right (node k t v r)

  -- The round of `_insert_fixup` with a black uncle, after which the loop ends.
  unfoldable pub turn : Frame A → Frame A → Tree A → Option (Tree A)
  turn p (left k v uncle) t =
      outer_left p t >>= λ s. rotate_right (node red (paint black s) v uncle)
  turn p (right k uncle v) t =
      outer_right p t >>= λ s. rotate_left (node red uncle v (paint black s))

  unfoldable pub uncle_of : Frame A → Tree A
  uncle_of (left k v r) = r
  uncle_of (right k l v) = l

  -- The round with a red uncle: the grandparent, which is the next node.
  unfoldable pub recolor : Frame A → Frame A → Tree A → Tree A
  recolor p (left k v uncle) t = node red (paint black (plug p t)) v (paint black uncle)
  recolor p (right k uncle v) t = node red (paint black uncle) v (paint black (plug p t))

  unfoldable pub insert_fixup : List (Frame A) → Tree A → Option (Tree A)
  insert_fixup [] t = some (paint black t)
  insert_fixup (p ∷ []) t = if is_red_frame p then none else some (paint black (plug p t))
  insert_fixup (p ∷ (g ∷ c)) t =
      let up = insert_fixup c (recolor p g t) in
      if is_red_frame p
      then (if is_red (uncle_of g) then up else (turn p g t >>= λ s. some (paint black (zip c s))))
      else some (paint black (zip c (plug g (plug p t))))

  unfoldable pub first_under : A → Tree A → A
  first_under v leaf = v
  first_under v (node k l w r) = first_under w l

  unfoldable pub last_under : A → Tree A → A
  last_under v leaf = v
  last_under v (node k l w r) = last_under w r

  unfoldable pub rb_first : Tree A → Option A
  rb_first leaf = none
  rb_first (node k l v r) = some (first_under v l)

  unfoldable pub rb_last : Tree A → Option A
  rb_last leaf = none
  rb_last (node k l v r) = some (last_under v r)

  -- The ancestors up to the first one that the node is left of, or right of.
  unfoldable pub next_up : List (Frame A) → Option A
  next_up [] = none
  next_up (left k v r ∷ c) = some v
  next_up (right k l v ∷ c) = next_up c

  unfoldable pub prev_up : List (Frame A) → Option A
  prev_up [] = none
  prev_up (left k v r ∷ c) = prev_up c
  prev_up (right k l v ∷ c) = some v

  -- `rb_next` and `rb_prev` of the node with these children at the place with these ancestors.
  unfoldable pub rb_next : List (Frame A) → (l r : Tree A) → Option A
  rb_next c l leaf = next_up c
  rb_next c l (node k rl v rr) = some (first_under v rl)

  unfoldable pub rb_prev : List (Frame A) → (l r : Tree A) → Option A
  rb_prev c leaf r = prev_up c
  rb_prev c (node k ll v lr) r = some (last_under v lr)

-- A round of `_remove_fixup` ends the loop with a tree, or the parent is the next node.
pub data Round {ℓ} (A : Type ℓ) : Type ℓ where
  done : Tree A → Round A
  up : Tree A → Round A

module _ {ℓ} {A : Type ℓ} where
  -- The sibling with a red outer child, from one whose inner child is red.
  unfoldable pub outer_red_right : Tree A → Option (Tree A)
  outer_red_right leaf = none
  outer_red_right (node k l v r) =
      if is_red r then some (node k l v r) else rotate_right (node red (paint black l) v r)

  unfoldable pub outer_red_left : Tree A → Option (Tree A)
  outer_red_left leaf = none
  outer_red_left (node k l v r) =
      if is_red l then some (node k l v r) else rotate_left (node red l v (paint black r))

  unfoldable pub raise_left : Color → Tree A → A → Tree A → Option (Round A)
  raise_left k x v leaf = none
  raise_left k x v (node ks l w r) =
      rotate_left (node black x v (node k l w (paint black r))) >>= λ t. some (done t)

  unfoldable pub raise_right : Color → Tree A → A → Tree A → Option (Round A)
  raise_right k leaf v x = none
  raise_right k (node ks l w r) v x =
      rotate_right (node black (node k (paint black l) w r) v x) >>= λ t. some (done t)

  -- A round from the test of the children of the sibling on: the node is `x`, its parent has the
  -- colour `k` and the object `v`, and the sibling is not red.
  unfoldable pub round_left : Color → Tree A → A → Tree A → Option (Round A)
  round_left k x v leaf = none
  round_left k x v (node ks l w r) =
      if not (is_red l) && not (is_red r)
      then some (up (node k x v (node red l w r)))
      else outer_red_right (node ks l w r) >>= λ s. raise_left k x v s

  unfoldable pub round_right : Color → Tree A → A → Tree A → Option (Round A)
  round_right k leaf v x = none
  round_right k (node ks l w r) v x =
      if not (is_red l) && not (is_red r)
      then some (up (node k (node red l w r) v x))
      else outer_red_left (node ks l w r) >>= λ s. raise_right k s v x

  -- The end of a round below these ancestors: the loop is left by the root, or, if the parent is
  -- red, by its test.
  unfoldable pub leave_loop : List (Frame A) → Round A → Tree A
  leave_loop c (done t) = paint black (zip c t)
  leave_loop c (up t) = zip c (paint black t)

  unfoldable pub next_round :
      List (Frame A) → (Tree A → Option (Tree A)) → Round A → Option (Tree A)
  next_round c rest (done t) = some (paint black (zip c t))
  next_round c rest (up t) = rest t

  -- `_remove_fixup` of the node `x` with these ancestors; `none` is a NULL pointer that is read. With
  -- a red sibling the parent gets red, so the loop ends with that round.
  unfoldable pub remove_fixup : List (Frame A) → Tree A → Option (Tree A)
  remove_fixup [] x = some (paint black x)
  remove_fixup (left k v (node red l w r) ∷ c) x =
      if is_red x
      then some (zip c (node k (paint black x) v (node red l w r)))
      else round_left red x v l >>= λ o. some (leave_loop (left black w r ∷ c) o)
  remove_fixup (left k v s ∷ c) x =
      if is_red x
      then some (zip c (node k (paint black x) v s))
      else round_left k x v s >>= next_round c (remove_fixup c)
  remove_fixup (right k (node red l w r) v ∷ c) x =
      if is_red x
      then some (zip c (node k (node red l w r) v (paint black x)))
      else round_right red r v x >>= λ o. some (leave_loop (right black l w ∷ c) o)
  remove_fixup (right k s v ∷ c) x =
      if is_red x
      then some (zip c (node k s v (paint black x)))
      else round_right k s v x >>= next_round c (remove_fixup c)

  -- The leftmost node under a node: its colour, its right child and the ancestors of that.
  unfoldable pub min_under :
      Color → Tree A → A → Tree A → List (Frame A) → Color × Tree A × List (Frame A)
  min_under k leaf v r c = (k, r, c)
  min_under k (node k' l' v' r') v r c = min_under k' l' v' r' (left k v r ∷ c)

  -- What takes the place of a node with these children: the colour that is lost, the node `x` and
  -- its ancestors.
  unfoldable pub replaced :
      List (Frame A) → Color → (l r : Tree A) → Color × Tree A × List (Frame A)
  replaced c k leaf r = (k, r, c)
  replaced c k (node kl ll vl lr) leaf = (k, node kl ll vl lr, c)
  replaced c k (node kl ll vl lr) (node kr rl vr rr) =
      min_under kr rl vr rr (right k (node kl ll vl lr) (first_under vr rl) ∷ c)

  unfoldable pub fix_if : Color → List (Frame A) → Tree A → Option (Tree A)
  fix_if black d x = remove_fixup d x
  fix_if red d x = some (zip d x)

  -- `rb_remove` of the node with this colour and these children, at the place with these ancestors.
  unfoldable pub rb_remove : List (Frame A) → Color → (l r : Tree A) → RbTree A → Option (RbTree A)
  rb_remove c k l r t =
      let (y_orig_color, x, d) = replaced c k l r in
      fix_if y_orig_color d x >>= λ s. some (record { root = s; size = sub64 t.size 1 })

-- The comparison of a tree orders its objects by a number, their key.
module _ {ℓ} {A : Type ℓ} (key : A → ℕ) where
  -- The place for a new object, below its ancestors; `none` if its key is in use.
  unfoldable pub find_link : A → Tree A → List (Frame A) → Option (List (Frame A))
  find_link x leaf c = some c
  find_link x (node k l v r) c = elim (compare (key x) (key v)) [
    | Ordering.lt ↦ find_link x l (left k v r ∷ c)
    | Ordering.eq ↦ none
    | Ordering.gt ↦ find_link x r (right k l v ∷ c)
  ]

  -- The result and the tree; `none` is a NULL pointer that is read.
  unfoldable pub rb_insert : A → RbTree A → Option (ℤ × RbTree A)
  rb_insert x t = elim (find_link x t.root []) [
    | none ↦ some (negsuc 0, t)
    | some c ↦ insert_fixup c (node red leaf x leaf) >>= λ s.
        some (pos 0, record { root = s; size = add64 t.size 1 })
  ]

  unfoldable pub rb_find : ℕ → Tree A → Option A
  rb_find k leaf = none
  rb_find k (node c l v r) = elim (compare k (key v)) [
    | Ordering.lt ↦ rb_find k l
    | Ordering.eq ↦ some v
    | Ordering.gt ↦ rb_find k r
  ]

  unfoldable pub lower_loop : Option A → ℕ → Tree A → Option A
  lower_loop result k leaf = result
  lower_loop result k (node c l v r) = elim (compare k (key v)) [
    | Ordering.lt ↦ lower_loop (some v) k l
    | Ordering.eq ↦ some v
    | Ordering.gt ↦ lower_loop result k r
  ]

  unfoldable pub rb_lower_bound : ℕ → Tree A → Option A
  rb_lower_bound k t = lower_loop none k t

  unfoldable pub upper_loop : Option A → ℕ → Tree A → Option A
  upper_loop result k leaf = result
  upper_loop result k (node c l v r) = elim (compare k (key v)) [
    | Ordering.lt ↦ upper_loop (some v) k l
    | Ordering.eq ↦ upper_loop result k r
    | Ordering.gt ↦ upper_loop result k r
  ]

  unfoldable pub rb_upper_bound : ℕ → Tree A → Option A
  rb_upper_bound k t = upper_loop none k t
