-- ===== src/Rbtree/Remove/Fixup.antt =====
-- `_remove_fixup` repairs a tree that is a black node short at one place.
use lapis.Base.{
  ℕ, suc, ◌≡◌, refl, sym, ◌∙◌, true, false, ◌&&◌, Bool-cases, inl, inr, Option, some, List, [], ◌∷◌,
  ◌++◌, ◌>>=◌, if◌then◌else◌,
}
use mathlib.Core.List.{append_assoc}
use lapis.Rbtree.{
  Color, black, red, Tree, leaf, node, Frame, left, right, Round, done, up, plug, zip, paint,
  is_red, is_red_frame, round_left, round_right, leave_loop, next_round, remove_fixup,
}
use lapis.Rbtree.Sequence.{to_list, to_list-paint}
use lapis.Rbtree.Balance.{
  Height, Calm, Around, top_red, IsRedBlack, clash, clash_apart, clash_black, zip_sound, zip-fixed,
  painted, and_left,
}
use lapis.Rbtree.Insert.{zip-list}
use lapis.Rbtree.Rebalance.{After, lift, tells_red, round_left_sound, reddened, is_red-paint}
use lapis.Rbtree.Rebalance.Right.{round_right_sound}

module _ {A : Type 0} where
  zip-black :
      (c : List (Frame A)) (t : Tree A) (h : ℕ)
      → Around c h
      → (is_red t && top_red c) ≡ false
      → is_red (zip c t) ≡ false
  unfolding zip plug is_red is_red_frame
  zip-black [] t h a n = and_left (is_red t) n
  zip-black (left red v r ∷ c) t h (a, b, d, k, i) n = zip-black c (node red t v r) h i k
  zip-black (right red l v ∷ c) t h (a, b, d, k, i) n = zip-black c (node red l v t) h i k
  zip-black (left black v r ∷ c) t h (a, b, i) n = zip-black c (node black t v r) (suc h) i refl
  zip-black (right black l v ∷ c) t h (a, b, i) n = zip-black c (node black l v t) (suc h) i refl

  -- A sound tree with this sequence.
  abbrev pub Kept : List A → Option (Tree A) → Type 0
  Kept xs o = (s : Tree A) × (o ≡ some s) × IsRedBlack s × (to_list s ≡ xs)

  pub zip-IsRedBlack :
      (c : List (Frame A)) (t : Tree A) (h : ℕ)
      → Around c h
      → Calm t
      → Height t h
      → is_red t ≡ false
      → IsRedBlack (zip c t)
  zip-IsRedBlack c t h a q e n =
      let z = zip_sound c t h a q e (clash_black t c n) in
      record { calm = z.0; root_black = zip-black c t h a (rw n refl); height = z.1 }

  fixup_red :
      (c : List (Frame A)) (x : Tree A)
      → is_red x ≡ true
      → remove_fixup c x ≡ some (zip c (paint black x))
  unfolding remove_fixup zip plug
  fixup_red [] x n = refl
  fixup_red (left k v leaf ∷ c) x n = rw n refl
  fixup_red (left k v (node red l w r) ∷ c) x n = rw n refl
  fixup_red (left k v (node black l w r) ∷ c) x n = rw n refl
  fixup_red (right k leaf v ∷ c) x n = rw n refl
  fixup_red (right k (node red l w r) v ∷ c) x n = rw n refl
  fixup_red (right k (node black l w r) v ∷ c) x n = rw n refl

  Kept-red :
      (c : List (Frame A)) (x : Tree A) (h : ℕ)
      → Around c (suc h)
      → Calm (paint black x)
      → Height (paint black x) (suc h)
      → is_red x ≡ true
      → Kept (to_list (zip c x)) (remove_fixup c x)
  Kept-red c x h a q e n = (
    zip c (paint black x),
    fixup_red c x n,
    zip-IsRedBlack c (paint black x) (suc h) a q e (is_red-paint x),
    zip-list c (paint black x) x (to_list-paint black x),
  )

  -- The tree of a round that ends the loop with the root.
  Kept-done :
      (c : List (Frame A)) (k : Color) (h : ℕ) (xs : List A) (u t : Tree A)
      → to_list u ≡ xs
      → After k h xs (done t)
      → Around c (lift k (suc h))
      → clash t c ≡ false
      → Kept (to_list (zip c u)) (some (paint black (zip c t)))
  Kept-done c k h xs u t l (w, q, e, n) a m = (
    paint black (zip c t),
    refl,
    zip-fixed c t (lift k (suc h)) a q e m,
    to_list-paint black (zip c t) ∙ zip-list c t u (w ∙ sym l),
  )

  -- The tree of a round that ends the loop with the red parent.
  Kept-up :
      (c : List (Frame A)) (h : ℕ) (xs : List A) (u t : Tree A)
      → to_list u ≡ xs
      → After red h xs (up t)
      → Around c (suc h)
      → Kept (to_list (zip c u)) (some (zip c (paint black t)))
  Kept-up c h xs u t l (w, q, e, n) a = (
    zip c (paint black t),
    refl,
    zip-IsRedBlack c (paint black t) (suc h) a q e (is_red-paint t),
    zip-list c (paint black t) u (to_list-paint black t ∙ w ∙ sym l),
  )

  -- With a red sibling, after the rotation.
  Kept-leave :
      (c : List (Frame A)) (h : ℕ) (xs : List A) (u : Tree A) (o : Round A)
      → to_list u ≡ xs
      → After red h xs o
      → Around c (suc h)
      → (top_red c ≡ false)
      → Kept (to_list (zip c u)) (some (leave_loop c o))
  unfolding leave_loop
  Kept-leave c h xs u (done t) l w a n = Kept-done c red h xs u t l w a (clash_apart t c n)
  Kept-leave c h xs u (up t) l w a n = Kept-up c h xs u t l w a

  -- `_remove_fixup` at a node that is a black node short.
  abbrev pub Repaired : List (Frame A) → Tree A → Type 0
  Repaired c x = Kept (to_list (zip c x)) (remove_fixup c x)

  unpainted :
      (t : Tree A) (h : ℕ)
      → is_red t ≡ false
      → Calm (paint black t)
      → Height (paint black t) h
      → Calm t × Height t h
  unfolding is_red paint
  unpainted leaf h n q e = (q, e)
  unpainted (node red l v r) h n q e = cc
  unpainted (node black l v r) h n q e = (q, e)

  -- After a round with a black sibling.
  next_sound :
      (k : Color) (h : ℕ) (xs : List A) (u : Tree A) (c : List (Frame A)) (o : Round A)
      → to_list u ≡ xs
      → After k h xs o
      → Around c (lift k (suc h))
      → (tells_red k && top_red c) ≡ false
      → ((t : Tree A) → Calm t → Height t (suc h) → Around c (suc (suc h)) → Repaired c t)
      → Kept (to_list (zip c u)) (next_round c (remove_fixup c) o)
  unfolding next_round
  next_sound red h xs u c (done t) l w a n rest = Kept-done c red h xs u t l w a (clash_apart t c n)
  next_sound black h xs u c (done t) l w a n rest =
      Kept-done c black h xs u t l w a (clash_black t c w.3)
  next_sound red h xs u c (up t) l w a n rest =
      let r = Kept-red c t h a w.1 w.2 w.3 in (r.0, r.1, r.2, r.3 ∙ zip-list c t u (w.0 ∙ sym l))
  next_sound black h xs u c (up t) l w a n rest =
      let b = unpainted t (suc h) w.3 w.1 w.2 in
      let r = rest t b.0 b.1 a in (r.0, r.1, r.2, r.3 ∙ zip-list c t u (w.0 ∙ sym l))

  left_frame :
      (k : Color) (v : A) (s : Tree A) (c : List (Frame A)) (h : ℕ)
      → Around (left k v s ∷ c) h
      → Height s h × Calm s × Around c (lift k h) × ((tells_red k && top_red c) ≡ false)
  left_frame red v s c h (a, b, d, m, i) = (a, b, i, m)
  left_frame black v s c h (a, b, i) = (a, b, i, refl)

  left_sound :
      (k : Color) (v : A) (s : Tree A) (c : List (Frame A)) (x : Tree A) (h : ℕ)
      → Around (left k v s ∷ c) (suc h)
      → Calm x
      → Height x h
      → is_red s ≡ false
      → (remove_fixup (left k v s ∷ c) x ≡ (
          if is_red x
          then some (zip c (node k (paint black x) v s))
          else (round_left k x v s >>= next_round c (remove_fixup c))))
      → ((t : Tree A) → Calm t → Height t (suc h) → Around c (suc (suc h)) → Repaired c t)
      → Repaired (left k v s ∷ c) x
  unfolding zip plug
  left_sound k v s c x h a q e b w rest = elim (Bool-cases (is_red x)) [
    | inl n ↦ let p = reddened x h n q e in Kept-red (left k v s ∷ c) x h a p.0 p.1 n
    | inr n ↦
        let f = left_frame k v s c (suc h) a in
        let o = round_left_sound k x v h q e s f.1 f.0 b in
        let r = next_sound k h _ (node k x v s) c o.0 refl o.2 f.2 f.3 rest in
        (r.0, w ∙ rw (n, o.1) r.1, r.2, r.3)
  ]

  right_frame :
      (k : Color) (v : A) (s : Tree A) (c : List (Frame A)) (h : ℕ)
      → Around (right k s v ∷ c) h
      → Height s h × Calm s × Around c (lift k h) × ((tells_red k && top_red c) ≡ false)
  right_frame red v s c h (a, b, d, m, i) = (a, b, i, m)
  right_frame black v s c h (a, b, i) = (a, b, i, refl)

  right_sound :
      (k : Color) (v : A) (s : Tree A) (c : List (Frame A)) (x : Tree A) (h : ℕ)
      → Around (right k s v ∷ c) (suc h)
      → Calm x
      → Height x h
      → is_red s ≡ false
      → (remove_fixup (right k s v ∷ c) x ≡ (
          if is_red x
          then some (zip c (node k s v (paint black x)))
          else (round_right k s v x >>= next_round c (remove_fixup c))))
      → ((t : Tree A) → Calm t → Height t (suc h) → Around c (suc (suc h)) → Repaired c t)
      → Repaired (right k s v ∷ c) x
  unfolding zip plug
  right_sound k v s c x h a q e b w rest = elim (Bool-cases (is_red x)) [
    | inl n ↦ let p = reddened x h n q e in Kept-red (right k s v ∷ c) x h a p.0 p.1 n
    | inr n ↦
        let f = right_frame k v s c (suc h) a in
        let o = round_right_sound k x v h q e s f.1 f.0 b in
        let r = next_sound k h _ (node k s v x) c o.0 refl o.2 f.2 f.3 rest in
        (r.0, w ∙ rw (n, o.1) r.1, r.2, r.3)
  ]

  pub remove_fixup_sound :
      (c : List (Frame A)) (x : Tree A) (h : ℕ)
      → Around c (suc h)
      → Calm x
      → Height x h
      → Repaired c x
  unfolding remove_fixup zip plug is_red is_red_frame
  remove_fixup_sound [] x h a q e = (paint black x, refl, painted x h q e, to_list-paint black x)
  remove_fixup_sound (left k v leaf ∷ c) x h a q e =
      left_sound k v leaf c x h a q e refl refl (λ t q e a. remove_fixup_sound c t (suc h) a q e)
  remove_fixup_sound (left k v (node black l w r) ∷ c) x h a q e =
      left_sound k v (node black l w r) c x h a q e refl refl
        (λ t q e a. remove_fixup_sound c t (suc h) a q e)
  remove_fixup_sound (left red v (node red l w r) ∷ c) x h (a, b, d, m, i) q e = cc
  remove_fixup_sound (left black v (node red l w r) ∷ c) x h (a, (bl, br, cl, cr), i) q e =
      elim (Bool-cases (is_red x)) [
        | inl n ↦
            let p = reddened x h n q e in
            Kept-red (left black v (node red l w r) ∷ c) x h (a, (bl, br, cl, cr), i) p.0 p.1 n
        | inr n ↦
            let o = round_left_sound red x v h q e l cl a.0 bl in
            let g =
              Kept-leave (left black w r ∷ c) h (to_list x ++ (v ∷ to_list l)) (node red x v l) o.0
                refl o.2 (a.1, cr, i) refl in
            (
              g.0,
              rw (n, o.1) g.1,
              g.2,
              g.3
                  ∙ zip-list c (node black (node red x v l) w r) (node black x v (node red l w r))
                      (append_assoc (to_list x) (v ∷ to_list l) (w ∷ to_list r)),
            )
      ]
  remove_fixup_sound (right k leaf v ∷ c) x h a q e =
      right_sound k v leaf c x h a q e refl refl (λ t q e a. remove_fixup_sound c t (suc h) a q e)
  remove_fixup_sound (right k (node black l w r) v ∷ c) x h a q e =
      right_sound k v (node black l w r) c x h a q e refl refl
        (λ t q e a. remove_fixup_sound c t (suc h) a q e)
  remove_fixup_sound (right red (node red l w r) v ∷ c) x h (a, b, d, m, i) q e = cc
  remove_fixup_sound (right black (node red l w r) v ∷ c) x h (a, (bl, br, cl, cr), i) q e =
      elim (Bool-cases (is_red x)) [
        | inl n ↦
            let p = reddened x h n q e in
            Kept-red (right black (node red l w r) v ∷ c) x h (a, (bl, br, cl, cr), i) p.0 p.1 n
        | inr n ↦
            let o = round_right_sound red x v h q e r cr a.1 br in
            let s =
              Kept-leave (right black l w ∷ c) h (to_list r ++ (v ∷ to_list x)) (node red r v x) o.0
                refl o.2 (a.0, cl, i) refl in
            (
              s.0,
              rw (n, o.1) s.1,
              s.2,
              s.3
                  ∙ zip-list c (node black l w (node red r v x)) (node black (node red l w r) v x)
                      (sym (append_assoc (to_list l) (w ∷ to_list r) (v ∷ to_list x))),
            )
      ]
