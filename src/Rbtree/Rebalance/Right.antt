-- ===== src/Rbtree/Rebalance/Right.antt =====
-- A round of `_remove_fixup` at a right child, which is a black node short.
use lapis.Base.{ℕ, suc, ◌≡◌, refl, sym, true, false, Bool-cases, inl, inr, some, ◌∷◌, ◌++◌, arith}
use mathlib.Core.List.{append_assoc}
use lapis.Rbtree.{
  Color, black, red, Tree, leaf, node, Round, done, up, paint, is_red, rotate_left, rotate_right,
  outer_red_left, raise_right, round_right,
}
use lapis.Rbtree.Sequence.{to_list, to_list-paint}
use lapis.Rbtree.Balance.{Height, Calm}
use lapis.Rbtree.Rebalance.{After, After-done, After-up, below, reddened, is_red-paint}

module _ {A : Type 0} (k : Color) (x : Tree A) (v : A) (h : ℕ) (xc : Calm x) (xh : Height x h) where
  outer_raised :
      (l : Tree A) (w : A) (r : Tree A)
      → Calm l
      → Calm r
      → Height l h
      → Height r h
      → is_red l ≡ true
      → After k h
          ((to_list l ++ (w ∷ to_list r)) ++ (v ∷ to_list x))
          (done (node k (paint black l) w (node black r v x)))
  unfolding is_red
  outer_raised l w r cl cr el er n =
      let p = reddened l h n cl el in
      After-done k (paint black l) w (node black r v x) h _
        (rw (to_list-paint black l)
          (sym (append_assoc (to_list l) (w ∷ to_list r) (v ∷ to_list x))))
        p.0 (cr, xc) (is_red-paint l) refl p.1 (h, refl, er, xh)

  pub round_right_sound :
      (s : Tree A)
      → Calm s
      → Height s (suc h)
      → is_red s ≡ false
      → (o : Round A) × (round_right k s v x ≡ some o) × After k h (to_list s ++ (v ∷ to_list x)) o
  unfolding round_right raise_right outer_red_left rotate_left rotate_right paint is_red
  round_right_sound leaf c e b = absurd (omega arith)
  round_right_sound (node red l w r) c e b = cc
  round_right_sound (node black l w (node red ra rv rb)) (cl, (a, d, ca, cb)) (m, z, el, (er, er'))
        b =
      let el' = below l h m z el in
      let ea = below ra h m z er in
      let eb = below rb h m z er' in
      elim (Bool-cases (is_red l)) [
        | inl n ↦ (
          done (node k (paint black l) w (node black (node red ra rv rb) v x)),
          rw (n, round_right) refl,
          outer_raised l w (node red ra rv rb) cl (a, d, ca, cb) el' (ea, eb) n,
        )
        | inr n ↦ (
          done (node k (node black l w ra) rv (node black rb v x)),
          rw n refl,
          After-done k (node black l w ra) rv (node black rb v x) h _ (simp append_assoc) (cl, ca)
              (cb, xc) refl refl (h, refl, el', ea) (h, refl, eb, xh),
        )
      ]
  round_right_sound (node black l w leaf) (cl, cr) (m, z, el, er) b =
      let el' = below l h m z el in
      let empty : Tree A = leaf in
      let er' = below empty h m z er in
      elim (Bool-cases (is_red l)) [
        | inl n ↦ (
          done (node k (paint black l) w (node black leaf v x)),
          rw (n, round_right) refl,
          outer_raised l w leaf cl tt el' er' n,
        )
        | inr n ↦ (
          up (node k (node red l w leaf) v x),
          rw n refl,
          After-up k (node red l w leaf) v x h _ refl (n, refl, cl, tt) xc (el', er') xh,
        )
      ]
  round_right_sound (node black l w (node black ra rv rb)) (cl, cr) (m, z, el, er) b =
      let el' = below l h m z el in
      let er' = below (node black ra rv rb) h m z er in
      elim (Bool-cases (is_red l)) [
        | inl n ↦ (
          done (node k (paint black l) w (node black (node black ra rv rb) v x)),
          rw (n, round_right) refl,
          outer_raised l w (node black ra rv rb) cl cr el' er' n,
        )
        | inr n ↦ (
          up (node k (node red l w (node black ra rv rb)) v x),
          rw n refl,
          After-up k (node red l w (node black ra rv rb)) v x h _ refl (n, refl, cl, cr) xc
              (el', er') xh,
        )
      ]
