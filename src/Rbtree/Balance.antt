-- ===== src/Rbtree/Balance.antt =====
-- `_insert_fixup` reads no NULL pointer and restores the colours.
use Prim.Native.Nat.{compare}
use mathlib.Core.List.{append-nil}
use lapis.Base.{
  ℕ, suc, ◌≡◌, refl, ◌∙◌, Bool, true, false, Bool-cases, inl, inr, Option, some, none, some_inj, ℤ,
  pos, negsuc, add64, ◌⊎◌, subst, List, [], ◌∷◌, ◌&&◌,
}
use lapis.Rbtree.{
  black, red, Tree, leaf, node, Frame, left, right, plug, zip, paint, is_red, is_red_frame,
  uncle_of, rotate_left, rotate_right, outer_left, outer_right, turn, recolor, insert_fixup,
  find_link, RbTree, rb_insert,
}
use lapis.Rbtree.Sequence.{to_list, to_list-zip, Ascending, find, insert}
use lapis.Rbtree.Insert.{Ordering-cases, no_result, insert_fixup-list, find_link_lem}

pub and_false : (b : Bool) → (b && false) ≡ false
and_false true = refl
and_false false = refl

pub and_left : (b : Bool) → (b && true) ≡ false → b ≡ false
and_left true e = cc
and_left false e = refl

module _ {A : Type 0} where
  -- Every path down has `h` black nodes.
  abbrev pub Height : Tree A → ℕ → Type 0
  Height leaf h = h ≡ 0
  Height (node red l v r) h = Height l h × Height r h
  Height (node black l v r) h = (m : ℕ) × (h ≡ suc m) × Height l m × Height r m

  -- A red node has no red child.
  abbrev pub Calm : Tree A → Type 0
  Calm leaf = Unit {0}
  Calm (node red l v r) = (is_red l ≡ false) × (is_red r ≡ false) × Calm l × Calm r
  Calm (node black l v r) = Calm l × Calm r

  -- The same of the tree around a place, for a subtree of the height `h`; the root is black.
  abbrev pub top_red : List (Frame A) → Bool
  top_red [] = true
  top_red (f ∷ c) = is_red_frame f

  abbrev pub Around : List (Frame A) → ℕ → Type 0
  Around [] h = Unit {0}
  Around (left red v r ∷ c) h =
      Height r h × Calm r × (is_red r ≡ false) × (top_red c ≡ false) × Around c h
  Around (right red l v ∷ c) h =
      Height l h × Calm l × (is_red l ≡ false) × (top_red c ≡ false) × Around c h
  Around (left black v r ∷ c) h = Height r h × Calm r × Around c (suc h)
  Around (right black l v ∷ c) h = Height l h × Calm l × Around c (suc h)

  -- A red-black tree.
  pub record IsRedBlack (t : Tree A) : Type 0 where
    pub calm : Calm t
    pub root_black : is_red t ≡ false
    pub height : (h : ℕ) × Height t h

  pub painted : (t : Tree A) (h : ℕ) → Calm t → Height t h → IsRedBlack (paint black t)
  unfolding paint is_red
  painted leaf h c e = record { calm = tt; root_black = refl; height = (h, e) }
  painted (node red l v r) h (a, b, c, d) (e, f) = record {
    calm = (c, d);
    root_black = refl;
    height = (suc h, (h, refl, e, f));
  }
  painted (node black l v r) h c e = record { calm = c; root_black = refl; height = (h, e) }

  abbrev pub clash : Tree A → List (Frame A) → Bool
  clash t [] = false
  clash t (f ∷ c) = is_red t && is_red_frame f

  pub clash_apart : (t : Tree A) (c : List (Frame A)) → top_red c ≡ false → clash t c ≡ false
  clash_apart t [] e = refl
  clash_apart t (f ∷ c) e = rw e (and_false (is_red t))

  pub clash_black : (t : Tree A) (c : List (Frame A)) → is_red t ≡ false → clash t c ≡ false
  clash_black t [] e = refl
  clash_black t (f ∷ c) e = rw e refl

  -- A sound subtree in sound surroundings.
  pub zip_sound :
      (c : List (Frame A)) (t : Tree A) (h : ℕ)
      → Around c h
      → Calm t
      → Height t h
      → clash t c ≡ false
      → Calm (zip c t) × ((j : ℕ) × Height (zip c t) j)
  unfolding zip plug is_red is_red_frame
  zip_sound [] t h a q e n = (q, (h, e))
  zip_sound (left red v r ∷ c) t h (a, b, d, k, i) q e n =
      zip_sound c (node red t v r) h i (and_left (is_red t) n, d, q, b) (e, a)
        (clash_apart (node red t v r) c k)
  zip_sound (right red l v ∷ c) t h (a, b, d, k, i) q e n =
      zip_sound c (node red l v t) h i (d, and_left (is_red t) n, b, q) (a, e)
        (clash_apart (node red l v t) c k)
  zip_sound (left black v r ∷ c) t h (a, b, i) q e n =
      zip_sound c (node black t v r) (suc h) i (q, b) (h, refl, e, a)
        (clash_black (node black t v r) c refl)
  zip_sound (right black l v ∷ c) t h (a, b, i) q e n =
      zip_sound c (node black l v t) (suc h) i (b, q) (h, refl, a, e)
        (clash_black (node black l v t) c refl)

  -- What a round with a red parent and a black uncle leaves.
  abbrev Turned : List (Frame A) → ℕ → Option (Tree A) → Type 0
  Turned c h o =
      (s : Tree A) × (o ≡ some s)
      × Calm s
      × Height s (suc h)
      × (is_red s ≡ false)
      × Around c (suc h)

  module _ (tl : Tree A) (x : A) (tr : Tree A) (h : ℕ) (tc : Calm (node red tl x tr))
      (th : Height (node red tl x tr) h) where
    turn_sound :
        (p g : Frame A) (c : List (Frame A))
        → Around (p ∷ (g ∷ c)) h
        → is_red_frame p ≡ true
        → is_red (uncle_of g) ≡ false
        → Turned c h (turn p g (node red tl x tr))
    unfolding turn outer_left outer_right rotate_left rotate_right paint is_red is_red_frame
        uncle_of
    turn_sound (left black v r) g c a p u = cc
    turn_sound (right black l v) g c a p u = cc
    turn_sound (left red v r) (left red w u) c (a, b, d, k, i) p n = cc
    turn_sound (left red v r) (right red u w) c (a, b, d, k, i) p n = cc
    turn_sound (right red l v) (left red w u) c (a, b, d, k, i) p n = cc
    turn_sound (right red l v) (right red u w) c (a, b, d, k, i) p n = cc
    turn_sound (left red v r) (left black w u) c (a, b, d, k, (e, f, i)) p n = (
      node black (node red tl x tr) v (node red r w u),
      refl,
      (tc, (d, n, b, f)),
      (h, refl, th, (a, e)),
      refl,
      i,
    )
    turn_sound (right red l v) (left black w u) c (a, b, d, k, (e, f, i)) p n = (
      node black (node red l v tl) x (node red tr w u),
      refl,
      ((d, tc.0, b, tc.2), (tc.1, n, tc.3, f)),
      (h, refl, (a, th.0), (th.1, e)),
      refl,
      i,
    )
    turn_sound (left red v r) (right black u w) c (a, b, d, k, (e, f, i)) p n = (
      node black (node red u w tl) x (node red tr v r),
      refl,
      ((n, tc.0, f, tc.2), (tc.1, d, tc.3, b)),
      (h, refl, (e, th.0), (th.1, a)),
      refl,
      i,
    )
    turn_sound (right red l v) (right black u w) c (a, b, d, k, (e, f, i)) p n = (
      node black (node red u w l) v (node red tl x tr),
      refl,
      ((n, d, f, b), tc),
      (h, refl, (e, a), th),
      refl,
      i,
    )

    -- What a round with a red parent and a red uncle hands to the next round.
    recolor_sound :
        (p g : Frame A) (c : List (Frame A))
        → Around (p ∷ (g ∷ c)) h
        → is_red_frame p ≡ true
        → is_red (uncle_of g) ≡ true
        → (l : Tree A) × ((v : A) × ((r : Tree A) × (recolor p g (node red tl x tr)
                ≡ node red l v r)
              × Calm (node red l v r)
              × Height (node red l v r) (suc h)
              × Around c (suc h)))
    unfolding recolor plug paint is_red is_red_frame uncle_of
    recolor_sound (left black v r) g c a e n = cc
    recolor_sound (right black l v) g c a e n = cc
    recolor_sound (left red v r) (left red w u) c (a, b, d, k, i) e n = cc
    recolor_sound (left red v r) (right red u w) c (a, b, d, k, i) e n = cc
    recolor_sound (right red l v) (left red w u) c (a, b, d, k, i) e n = cc
    recolor_sound (right red l v) (right red u w) c (a, b, d, k, i) e n = cc
    recolor_sound (left red v r) (left black w leaf) c a e n = cc
    recolor_sound (left red v r) (left black w (node black ul uv ur)) c a e n = cc
    recolor_sound (left red v r) (left black w (node red ul uv ur)) c (a, b, d, k, (ue, f, i)) e n =
        (
          node black (node red tl x tr) v r,
          (
            w,
            (
              node black ul uv ur,
              refl,
              (refl, refl, (tc, b), (f.2, f.3)),
              ((h, refl, th, a), (h, refl, ue.0, ue.1)),
              i,
            ),
          ),
        )
    recolor_sound (left red v r) (right black leaf w) c a e n = cc
    recolor_sound (left red v r) (right black (node black ul uv ur) w) c a e n = cc
    recolor_sound (left red v r) (right black (node red ul uv ur) w) c (a, b, d, k, (ue, f, i)) e
          n =
        (
          node black ul uv ur,
          (
            w,
            (
              node black (node red tl x tr) v r,
              refl,
              (refl, refl, (f.2, f.3), (tc, b)),
              ((h, refl, ue.0, ue.1), (h, refl, th, a)),
              i,
            ),
          ),
        )
    recolor_sound (right red l v) (left black w leaf) c a e n = cc
    recolor_sound (right red l v) (left black w (node black ul uv ur)) c a e n = cc
    recolor_sound (right red l v) (left black w (node red ul uv ur)) c (a, b, d, k, (ue, f, i)) e
          n =
        (
          node black l v (node red tl x tr),
          (
            w,
            (
              node black ul uv ur,
              refl,
              (refl, refl, (b, tc), (f.2, f.3)),
              ((h, refl, a, th), (h, refl, ue.0, ue.1)),
              i,
            ),
          ),
        )
    recolor_sound (right red l v) (right black leaf w) c a e n = cc
    recolor_sound (right red l v) (right black (node black ul uv ur) w) c a e n = cc
    recolor_sound (right red l v) (right black (node red ul uv ur) w) c (a, b, d, k, (ue, f, i)) e
          n =
        (
          node black ul uv ur,
          (
            w,
            (
              node black l v (node red tl x tr),
              refl,
              (refl, refl, (f.2, f.3), (b, tc)),
              ((h, refl, ue.0, ue.1), (h, refl, a, th)),
              i,
            ),
          ),
        )

  -- What the fix-up gives.
  abbrev pub Fixed : Option (Tree A) → Type 0
  Fixed o = (s : Tree A) × (o ≡ some s) × IsRedBlack s

  pub zip-fixed :
      (c : List (Frame A)) (t : Tree A) (h : ℕ)
      → Around c h
      → Calm t
      → Height t h
      → clash t c ≡ false
      → IsRedBlack (paint black (zip c t))
  zip-fixed c t h a q e n = let z = zip_sound c t h a q e n in painted (zip c t) z.1.0 z.0 z.1.1

  clash_right :
      (t : Tree A) (p : Frame A) (c : List (Frame A))
      → is_red_frame p ≡ false
      → clash t (p ∷ c) ≡ false
  clash_right t p c e = clash_apart t (p ∷ c) e

  root_not_red : (p : Frame A) (h : ℕ) → Around (p ∷ []) h → is_red_frame p ≡ false
  unfolding is_red_frame
  root_not_red (left red v r) h (a, b, d, k, i) = cc
  root_not_red (right red l v) h (a, b, d, k, i) = cc
  root_not_red (left black v r) h a = refl
  root_not_red (right black l v) h a = refl

  pub insert_fixup_sound :
      (c : List (Frame A)) (l : Tree A) (x : A) (r : Tree A) (h : ℕ)
      → Calm (node red l x r)
      → Height (node red l x r) h
      → Around c h
      → Fixed (insert_fixup c (node red l x r))
  unfolding insert_fixup zip
  insert_fixup_sound [] l x r h q e a =
      (paint black (node red l x r), refl, painted (node red l x r) h q e)
  insert_fixup_sound (p ∷ []) l x r h q e a =
      let k = root_not_red p h a in
      (
        paint black (plug p (node red l x r)),
        rw k refl,
        zip-fixed (p ∷ []) (node red l x r) h a q e (clash_right (node red l x r) p [] k),
      )
  insert_fixup_sound (p ∷ (g ∷ c)) l x r h q e a = elim (Bool-cases (is_red_frame p)) [
    | inl k ↦ elim (Bool-cases (is_red (uncle_of g))) [
      | inl u ↦
          let w = recolor_sound l x r h q e p g c a k u in
          let f = insert_fixup_sound c w.0 w.1.0 w.1.1.0 (suc h) w.1.1.2 w.1.1.3 w.1.1.4 in
          (f.0, rw (k, u, w.1.1.1) f.1, f.2)
      | inr u ↦
          let w = turn_sound l x r h q e p g c a k u in
          (
            paint black (zip c w.0),
            rw (k, u, w.1) refl,
            zip-fixed c w.0 (suc h) w.5 w.2 w.3 (clash_black w.0 c w.4),
          )
    ]
    | inr k ↦ (
      paint black (zip c (plug g (plug p (node red l x r)))),
      rw k refl,
      zip-fixed (p ∷ (g ∷ c)) (node red l x r) h a q e (clash_right (node red l x r) p (g ∷ c) k),
    )
  ]

module _ {A : Type 0} (key : A → ℕ) where
  -- The place that `rb_insert` finds is for a subtree without nodes.
  find_link-Around :
      (x : A) (t : Tree A) (c d : List (Frame A)) (h : ℕ)
      → Calm t
      → Height t h
      → Around c h
      → (is_red t && top_red c) ≡ false
      → find_link key x t c ≡ some d
      → Around d 0
  unfolding find_link is_red is_red_frame
  find_link-Around x leaf c d h q e a n f =
      subst (λ c. Around c 0) (some_inj.0 f) (subst (Around c) e a)
  find_link-Around x (node red l v r) c d h (m, k, q, q') (e, e') a n f =
      elim (Ordering-cases (compare (key x) (key v))) [
        | inl w ↦
            find_link-Around x l (left red v r ∷ c) d h q e (e', q', k, n, a) (rw m refl)
              (rw (w, find_link) at f)
        | inr (inl w) ↦ no_result (rw (w, find_link) at f)
        | inr (inr w) ↦
            find_link-Around x r (right red l v ∷ c) d h q' e' (e, q, m, n, a) (rw k refl)
              (rw (w, find_link) at f)
      ]
  find_link-Around x (node black l v r) c d h (q, q') (m, z, e, e') a n f =
      let i = subst (Around c) z a in
      elim (Ordering-cases (compare (key x) (key v))) [
        | inl w ↦
            find_link-Around x l (left black v r ∷ c) d m q e (e', q', i) (and_false (is_red l))
              (rw (w, find_link) at f)
        | inr (inl w) ↦ no_result (rw (w, find_link) at f)
        | inr (inr w) ↦
            find_link-Around x r (right black l v ∷ c) d m q' e' (e, q, i) (and_false (is_red r))
              (rw (w, find_link) at f)
      ]

  -- Insertion into a red-black tree with ascending keys reads no NULL pointer and leaves such a
  -- tree. A new key gets its place in the sequence and is counted; for a key in use the result is -1
  -- and the tree stays.
  pub rb_insert-IsRedBlack :
      (x : A) (t : RbTree A)
      → IsRedBlack t.root
      → Ascending key (to_list t.root)
      → (r : ℤ × RbTree A) × (rb_insert key x t ≡ some r)
        × IsRedBlack r.1.root
        × (((find key (key x) (to_list t.root) ≡ none)
              × (r.0 ≡ pos 0)
              × (to_list r.1.root ≡ insert key x (to_list t.root))
              × (r.1.size ≡ add64 t.size 1))
            ⊎ (((v : A) × (find key (key x) (to_list t.root) ≡ some v)) × (r ≡ (negsuc 0, t))))
  unfolding rb_insert is_red
  rb_insert-IsRedBlack x t i a = elim (find_link_lem key x t.root [] a) [
    | inr (v, g) ↦ ((negsuc 0, t), rw (rb_insert, g) refl, i, inr (v, refl))
    | inl (f, (c, g, w)) ↦
        let n = node red leaf x leaf in
        let z =
          find_link-Around x t.root [] c i.height.0 i.calm i.height.1 tt (rw i.root_black refl) g in
        let s = insert_fixup_sound c leaf x leaf 0 (refl, refl, tt, tt) (refl, refl) z in
        (
          (pos 0, record { root = s.0; size = add64 t.size 1 }),
          rw (rb_insert, g, s.1) refl,
          s.2,
          inl (
            f,
            refl,
            insert_fixup-list c n s.0 s.1
                ∙ to_list-zip c n
                ∙ w
                ∙ append-nil (insert key x (to_list t.root)),
            refl,
          ),
        )
  ]
