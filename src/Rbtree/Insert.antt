-- ===== src/Rbtree/Insert.antt =====
-- `rb_insert` puts the object in its place in the sequence.
use Prim.Native.Nat.{compare, Ordering}
use lapis.Base.{
  ℕ, ◌<◌, ◌≡◌, refl, sym, ap, ◌∙◌, Bool-cases, inl, inr, some_inj, Option, some, none, ◌⊎◌, List,
  [], ◌∷◌, ◌++◌, arith, ◌>>=◌,
}
use mathlib.Core.List.{append_assoc}
use lapis.Rbtree.{
  black, red, Tree, leaf, node, Frame, left, right, plug, zip, paint, is_red, is_red_frame,
  uncle_of, rotate_left, rotate_right, outer_left, outer_right, turn, recolor, insert_fixup,
  find_link,
}
use lapis.Rbtree.Sequence.{
  to_list, before, behind, to_list-zip, to_list-paint, Ascending, Ascending-split, AllBelow,
  AllAbove, find, insert, find-AllAbove, AllAbove-le,
}

module _ {A : Type 0} where
  rotate_left-list : (t s : Tree A) → rotate_left t ≡ some s → to_list s ≡ to_list t
  unfolding rotate_left
  rotate_left-list leaf s e = cc
  rotate_left-list (node k l v leaf) s e = cc
  rotate_left-list (node k l v (node k' rl v' rr)) s e =
      ap to_list (sym (some_inj.0 e)) ∙ append_assoc (to_list l) (v ∷ to_list rl) (v' ∷ to_list rr)

  rotate_right-list : (t s : Tree A) → rotate_right t ≡ some s → to_list s ≡ to_list t
  unfolding rotate_right
  rotate_right-list leaf s e = cc
  rotate_right-list (node k leaf v r) s e = cc
  rotate_right-list (node k (node k' ll v' lr) v r) s e =
      ap to_list (sym (some_inj.0 e))
      ∙ sym (append_assoc (to_list ll) (v' ∷ to_list lr) (v ∷ to_list r))

  outer_left-list :
      (p : Frame A) (t s : Tree A) → outer_left p t ≡ some s → to_list s ≡ to_list (plug p t)
  unfolding outer_left plug
  outer_left-list (left k v r) t s e = ap to_list (sym (some_inj.0 e))
  outer_left-list (right k l v) t s e = rotate_left-list (node k l v t) s e

  outer_right-list :
      (p : Frame A) (t s : Tree A) → outer_right p t ≡ some s → to_list s ≡ to_list (plug p t)
  unfolding outer_right plug
  outer_right-list (left k v r) t s e = rotate_right-list (node k t v r) s e
  outer_right-list (right k l v) t s e = ap to_list (sym (some_inj.0 e))

  pub no_result : {P : Type 0} {a : A} → none ≡ some a → P
  no_result e = cc

  pub bind_some :
      {B : Type 0} (o : Option A) (f : A → Option B) (b : B)
      → (o >>= f) ≡ some b
      → (a : A) × (o ≡ some a) × (f a ≡ some b)
  bind_some none f b e = cc
  bind_some (some a) f b e = (a, refl, e)

module _ {A : Type 0} where
  turn-list :
      (p g : Frame A) (t s : Tree A) → turn p g t ≡ some s → to_list s ≡ to_list (plug g (plug p t))
  unfolding turn plug
  turn-list p (left k v u) t s e =
      let r = bind_some (outer_left p t) _ s e in
      rotate_right-list (node red (paint black r.0) v u) s r.2
      ∙ ap (λ xs. xs ++ (v ∷ to_list u)) (to_list-paint black r.0 ∙ outer_left-list p t r.0 r.1)
  turn-list p (right k u v) t s e =
      let r = bind_some (outer_right p t) _ s e in
      rotate_left-list (node red u v (paint black r.0)) s r.2
      ∙ ap (λ xs. to_list u ++ (v ∷ xs)) (to_list-paint black r.0 ∙ outer_right-list p t r.0 r.1)

  recolor-list :
      (p g : Frame A) (t : Tree A) → to_list (recolor p g t) ≡ to_list (plug g (plug p t))
  unfolding recolor plug
  recolor-list p (left k v u) t = rw (to_list-paint black u, to_list-paint black (plug p t)) refl
  recolor-list p (right k u v) t = rw (to_list-paint black u, to_list-paint black (plug p t)) refl

  pub zip-list :
      (c : List (Frame A)) (s t : Tree A)
      → to_list s ≡ to_list t
      → to_list (zip c s) ≡ to_list (zip c t)
  zip-list c s t e =
      to_list-zip c s ∙ ap (λ xs. before c ++ (xs ++ behind c)) e ∙ sym (to_list-zip c t)

  -- The rotations and colours leave_loop the sequence.
  pub insert_fixup-list :
      (c : List (Frame A)) (t s : Tree A)
      → insert_fixup c t ≡ some s
      → to_list s ≡ to_list (zip c t)
  unfolding insert_fixup zip
  insert_fixup-list [] t s e = ap to_list (sym (some_inj.0 e)) ∙ to_list-paint black t
  insert_fixup-list (p ∷ []) t s e = elim (Bool-cases (is_red_frame p)) [
    | inl h ↦ no_result (rw h at e)
    | inr h ↦ ap to_list (sym (some_inj.0 (rw h at e))) ∙ to_list-paint black (plug p t)
  ]
  insert_fixup-list (p ∷ (g ∷ c)) t s e = elim (Bool-cases (is_red_frame p)) [
    | inl h ↦ elim (Bool-cases (is_red (uncle_of g))) [
      | inl u ↦
          insert_fixup-list c (recolor p g t) s (rw (h, u) at e)
          ∙ zip-list c (recolor p g t) (plug g (plug p t)) (recolor-list p g t)
      | inr u ↦
          let r = bind_some (turn p g t) _ s (rw (h, u) at e) in
          ap to_list (sym (some_inj.0 r.2))
          ∙ to_list-paint black (zip c r.0)
          ∙ zip-list c r.0 (plug g (plug p t)) (turn-list p g t r.0 r.1)
    ]
    | inr h ↦
        ap to_list (sym (some_inj.0 (rw h at e))) ∙ to_list-paint black (zip c (plug g (plug p t)))
  ]

pub Ordering-cases : (o : Ordering) → (o ≡ Ordering.lt) ⊎ ((o ≡ Ordering.eq) ⊎ (o ≡ Ordering.gt))
Ordering-cases Ordering.lt = inl refl
Ordering-cases Ordering.eq = inr (inl refl)
Ordering-cases Ordering.gt = inr (inr refl)

lt_of_compare : (a b : ℕ) → compare a b ≡ Ordering.lt → a < b
lt_of_compare a b e = ground arith

eq_of_compare : (a b : ℕ) → compare a b ≡ Ordering.eq → a ≡ b
eq_of_compare a b e = ground arith

gt_of_compare : (a b : ℕ) → compare a b ≡ Ordering.gt → b < a
gt_of_compare a b e = ground arith

module _ {A : Type 0} (key : A → ℕ) where
  insert_before :
      (x : A) (xs : List A) (v : A) (ys : List A)
      → key x < key v
      → insert key x (xs ++ (v ∷ ys)) ≡ insert key x xs ++ (v ∷ ys)
  insert_before x [] v ys h = ground arith
  insert_before x (y ∷ xs) v ys h = ground (arith, insert_before x xs v ys h)

  find_before :
      (x : A) (xs : List A) (v : A) (ys : List A)
      → key x < key v
      → AllAbove key (key v) ys
      → find key (key x) (xs ++ (v ∷ ys)) ≡ find key (key x) xs
  find_before x [] v ys h a =
      ground
        (arith, find-AllAbove key (key x) ys (AllAbove-le key (key x) (key v) ys (omega arith) a))
  find_before x (y ∷ xs) v ys h a = ground (arith, find_before x xs v ys h a)

  find_after :
      (x : A) (xs : List A) (v : A) (ys : List A)
      → key v < key x
      → AllBelow key (key v) xs
      → find key (key x) (xs ++ (v ∷ ys)) ≡ find key (key x) ys
  find_after x [] v ys h a = ground arith
  find_after x (y ∷ xs) v ys h (b, a) = ground (arith, find_after x xs v ys h a)

  insert_after :
      (x : A) (xs : List A) (v : A) (ys : List A)
      → key v < key x
      → AllBelow key (key v) xs
      → insert key x (xs ++ (v ∷ ys)) ≡ xs ++ (v ∷ insert key x ys)
  insert_after x [] v ys h a = ground arith
  insert_after x (y ∷ xs) v ys h (b, a) = ground (arith, insert_after x xs v ys h a)

  find_here :
      (x : A) (xs : List A) (v : A) (ys : List A)
      → key x ≡ key v
      → AllBelow key (key v) xs
      → find key (key x) (xs ++ (v ∷ ys)) ≡ some v
  find_here x [] v ys h a = ground arith
  find_here x (y ∷ xs) v ys h (b, a) = ground (arith, find_here x xs v ys h a)

  -- The walk ends at the place of a new key, or at the object that has the key.
  abbrev pub Linked : A → Tree A → List (Frame A) → Type 0
  Linked x t c =
      ((find key (key x) (to_list t) ≡ none)
        × ((c' : List (Frame A)) × (find_link key x t c ≡ some c')
            × (before c' ++ (x ∷ behind c') ≡ before c ++ (insert key x (to_list t) ++ behind c))))
      ⊎ (((v : A) × (find key (key x) (to_list t) ≡ some v)) × (find_link key x t c ≡ none))

  pub find_link_lem :
      (x : A) (t : Tree A) (c : List (Frame A)) → Ascending key (to_list t) → Linked x t c
  unfolding find_link
  find_link_lem x leaf c a = inl (refl, (c, refl, refl))
  find_link_lem x (node k l v r) c a =
      let s = Ascending-split key (to_list l) v (to_list r) a in
      elim (Ordering-cases (compare (key x) (key v))) [
        | inl e ↦
            let h = lt_of_compare (key x) (key v) e in
            elim (find_link_lem x l (left k v r ∷ c) s.0) [
              | inl (f, (c', g, w)) ↦ inl (
                find_before x (to_list l) v (to_list r) h s.2 ∙ f,
                (
                  c',
                  rw (e, find_link) g,
                  w
                      ∙ rw (insert_before x (to_list l) v (to_list r) h) (
                          ap (λ xs. before c ++ xs)
                            (sym (
                              append_assoc (insert key x (to_list l)) (v ∷ to_list r) (behind c)))),
                ),
              )
              | inr ((y, f), g) ↦
                  inr ((y, find_before x (to_list l) v (to_list r) h s.2 ∙ f), rw (e, find_link) g)
            ]
        | inr (inl e) ↦ inr (
          (v, find_here x (to_list l) v (to_list r) (eq_of_compare (key x) (key v) e) s.1),
          rw (e, find_link) refl,
        )
        | inr (inr e) ↦
            let h = gt_of_compare (key x) (key v) e in
            elim (find_link_lem x r (right k l v ∷ c) s.3) [
              | inl (f, (c', g, w)) ↦ inl (
                find_after x (to_list l) v (to_list r) h s.1 ∙ f,
                (
                  c',
                  rw (e, find_link) g,
                  w ∙ rw (insert_after x (to_list l) v (to_list r) h s.1) (simp append_assoc),
                ),
              )
              | inr ((y, f), g) ↦
                  inr ((y, find_after x (to_list l) v (to_list r) h s.1 ∙ f), rw (e, find_link) g)
            ]
      ]
