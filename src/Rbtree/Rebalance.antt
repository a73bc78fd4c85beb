-- ===== src/Rbtree/Rebalance.antt =====
-- A round of `_remove_fixup` at a left child, which is a black node short.
pub mod Right
use lapis.Base.{
  ℕ, suc, ◌+◌, ◌<◌, ◌≤◌, ◌≡◌, refl, sym, ap, ◌∙◌, Bool, true, false, not, ◌&&◌, Bool-cases, inl,
  inr, Option, some, none, subst, List, [], ◌∷◌, ◌++◌, arith, ◌>>=◌, if◌then◌else◌,
}
use mathlib.Core.List.{append_assoc}
use lapis.Rbtree.{
  Color, black, red, Tree, leaf, node, Round, done, up, paint, is_red, rotate_left, rotate_right,
  outer_red_right, raise_left, round_left,
}
use lapis.Rbtree.Sequence.{to_list, to_list-paint}
use lapis.Rbtree.Balance.{Height, Calm}

-- The height of a node of a colour over children of the height `n`.
abbrev pub lift : Color → ℕ → ℕ
lift red n = n
lift black n = suc n

abbrev pub tells_red : Color → Bool
tells_red red = true
tells_red black = false

module _ {A : Type 0} where
  -- The parent has the colour `k` and is over a node of the height `h` and a sibling that is higher
  -- by one. The round gives a tree with the sequence `xs`: sound, or a black node short itself.
  abbrev pub After : Color → ℕ → List A → Round A → Type 0
  After k h xs (done t) =
      (to_list t ≡ xs) × Calm t × Height t (lift k (suc h)) × (is_red t ≡ tells_red k)
  After k h xs (up t) =
      (to_list t ≡ xs)
      × Calm (paint black t)
      × Height (paint black t) (suc h)
      × (is_red t ≡ tells_red k)

  pub reddened :
      (t : Tree A) (h : ℕ)
      → is_red t ≡ true
      → Calm t
      → Height t h
      → Calm (paint black t) × Height (paint black t) (suc h)
  unfolding is_red paint
  reddened leaf h n c e = cc
  reddened (node black l v r) h n c e = cc
  reddened (node red l v r) h n (a, b, c, d) (e, f) = ((c, d), (h, refl, e, f))

  pub is_red-paint : (t : Tree A) → is_red (paint black t) ≡ false
  unfolding is_red paint
  is_red-paint leaf = refl
  is_red-paint (node k l v r) = refl

  pub After-done :
      (k : Color) (a : Tree A) (v : A) (b : Tree A) (h : ℕ) (xs : List A)
      → (to_list a ++ (v ∷ to_list b) ≡ xs)
      → Calm a
      → Calm b
      → is_red a ≡ false
      → is_red b ≡ false
      → Height a (suc h)
      → Height b (suc h)
      → After k h xs (done (node k a v b))
  unfolding is_red
  After-done red a v b h xs l p q m n e f = (l, (m, n, p, q), (e, f), refl)
  After-done black a v b h xs l p q m n e f = (l, (p, q), (suc h, refl, e, f), refl)

  pub After-up :
      (k : Color) (a : Tree A) (v : A) (b : Tree A) (h : ℕ) (xs : List A)
      → (to_list a ++ (v ∷ to_list b) ≡ xs)
      → Calm a
      → Calm b
      → Height a h
      → Height b h
      → After k h xs (up (node k a v b))
  unfolding is_red paint
  After-up red a v b h xs l p q e f = (l, (p, q), (h, refl, e, f), refl)
  After-up black a v b h xs l p q e f = (l, (p, q), (h, refl, e, f), refl)

  pub below : (t : Tree A) (h m : ℕ) → suc h ≡ suc m → Height t m → Height t h
  below t h m z e = subst (Height t) (omega arith) e

  module _ (k : Color) (x : Tree A) (v : A) (h : ℕ) (xc : Calm x) (xh : Height x h) where
    -- The outer child of the sibling is red.
    outer_raised :
        (l : Tree A) (w : A) (r : Tree A)
        → Calm l
        → Calm r
        → Height l h
        → Height r h
        → is_red r ≡ true
        → After k h
            (to_list x ++ (v ∷ (to_list l ++ (w ∷ to_list r))))
            (done (node k (node black x v l) w (paint black r)))
    unfolding is_red
    outer_raised l w r cl cr el er n =
        let p = reddened r h n cr er in
        After-done k (node black x v l) w (paint black r) h _
          (rw (to_list-paint black r) (append_assoc (to_list x) (v ∷ to_list l) (w ∷ to_list r)))
          (xc, cl) p.0 refl (is_red-paint r) (h, refl, xh, el) p.1

    pub round_left_sound :
        (s : Tree A)
        → Calm s
        → Height s (suc h)
        → is_red s ≡ false
        → (o : Round A) × (round_left k x v s ≡ some o) × After k h (to_list x ++ (v ∷ to_list s)) o
    unfolding round_left raise_left outer_red_right rotate_left rotate_right paint is_red
    round_left_sound leaf c e b = absurd (omega arith)
    round_left_sound (node red l w r) c e b = cc
    round_left_sound (node black (node red la lv lb) w r) ((a, d, ca, cb), cr) (m, z, (el, el'), er)
          b =
        let er' = below r h m z er in
        let ea = below la h m z el in
        let eb = below lb h m z el' in
        elim (Bool-cases (is_red r)) [
          | inl n ↦ (
            done (node k (node black x v (node red la lv lb)) w (paint black r)),
            rw (n, round_left) refl,
            outer_raised (node red la lv lb) w r (a, d, ca, cb) cr (ea, eb) er' n,
          )
          | inr n ↦ (
            done (node k (node black x v la) lv (node black lb w r)),
            rw n refl,
            After-done k (node black x v la) lv (node black lb w r) h _ (simp append_assoc) (xc, ca)
                (cb, cr) refl refl (h, refl, xh, ea) (h, refl, eb, er'),
          )
        ]
    round_left_sound (node black leaf w r) (cl, cr) (m, z, el, er) b =
        let er' = below r h m z er in
        let el' = below leaf h m z el in
        elim (Bool-cases (is_red r)) [
          | inl n ↦ (
            done (node k (node black x v leaf) w (paint black r)),
            rw (n, round_left) refl,
            outer_raised leaf w r tt cr el' er' n,
          )
          | inr n ↦ (
            up (node k x v (node red leaf w r)),
            rw n refl,
            After-up k x v (node red leaf w r) h _ refl xc (refl, n, tt, cr) xh (el', er'),
          )
        ]
    round_left_sound (node black (node black la lv lb) w r) (cl, cr) (m, z, el, er) b =
        let er' = below r h m z er in
        let el' = below (node black la lv lb) h m z el in
        elim (Bool-cases (is_red r)) [
          | inl n ↦ (
            done (node k (node black x v (node black la lv lb)) w (paint black r)),
            rw (n, round_left) refl,
            outer_raised (node black la lv lb) w r cl cr el' er' n,
          )
          | inr n ↦ (
            up (node k x v (node red (node black la lv lb) w r)),
            rw n refl,
            After-up k x v (node red (node black la lv lb) w r) h _ refl xc (refl, n, cl, cr) xh
                (el', er'),
          )
        ]
