-- ===== src/Rbtree/Remove.antt =====
-- `rb_remove` takes one object out of the sequence and keeps the tree red-black.
mod Fixup
use lapis.Base.{
  ℕ, suc, ◌+◌, ◌≡◌, refl, sym, ap, ◌∙◌, Bool, true, false, ◌&&◌, Option, some, none, subst, List,
  [], ◌∷◌, ◌++◌, arith, ◌>>=◌, sub64,
}
use mathlib.Core.List.{append_assoc, append-nil}
use lapis.Rbtree.{
  Color, black, red, Tree, leaf, node, Frame, left, right, RbTree, zip, plug, is_red, is_red_frame,
  min_under, replaced, fix_if, rb_remove, first_under,
}
use lapis.Rbtree.Sequence.{to_list, to_list-zip, before, behind}
use lapis.Rbtree.Balance.{Height, Calm, Around, top_red, IsRedBlack, and_false}
use lapis.Rbtree.Rebalance.{lift, tells_red}
use lapis.Rbtree.Remove.Fixup.{zip-IsRedBlack, remove_fixup_sound, Kept}

module _ {A : Type 0} where
  -- The leftmost object is the first of the sequence, and the rest stays around its right child.
  min_list :
      (k : Color) (l : Tree A) (v : A) (r : Tree A) (c : List (Frame A))
      → (rest : List A) × (to_list l ++ (v ∷ to_list r) ≡ first_under v l ∷ rest)
        × (before (min_under k l v r c).2
              ++ (to_list (min_under k l v r c).1 ++ behind (min_under k l v r c).2)
            ≡ before c ++ (rest ++ behind c))
  unfolding min_under first_under
  min_list k leaf v r c = (to_list r, refl, refl)
  min_list k (node k' l' v' r') v r c =
      let m = min_list k' l' v' r' (left k v r ∷ c) in
      (
        m.0 ++ (v ∷ to_list r),
        ap (λ xs. xs ++ (v ∷ to_list r)) m.1,
        m.2 ∙ ap (λ xs. before c ++ xs) (sym (append_assoc m.0 (v ∷ to_list r) (behind c))),
      )

  -- The surroundings that are left when a node of the colour `y` goes and `x` takes its place.
  abbrev Left : Color × Tree A × List (Frame A) → Type 0
  Left (y, x, d) =
      (j : ℕ) × Calm x × Height x j × Around d (lift y j) × ((tells_red y && is_red x) ≡ false)

  end-Left :
      (k : Color) (v : A) (r : Tree A) (c : List (Frame A)) (h : ℕ)
      → Calm (node k leaf v r)
      → Height (node k leaf v r) h
      → Around c h
      → Left (k, r, c)
  end-Left red v r c h (m, n, q, q') (e, e') a = (h, q', e', a, n)
  end-Left black v r c h (q, q') (m, z, e, e') a = (m, q', e', subst (Around c) z a, refl)

  end_right :
      (k : Color) (v : A) (l : Tree A) (c : List (Frame A)) (h : ℕ)
      → Calm (node k l v leaf)
      → Height (node k l v leaf) h
      → Around c h
      → Left (k, l, c)
  end_right red v l c h (m, n, q, q') (e, e') a = (h, q, e, a, m)
  end_right black v l c h (q, q') (m, z, e, e') a = (m, q, e, subst (Around c) z a, refl)

  min-Left :
      (k : Color) (l : Tree A) (v : A) (r : Tree A) (c : List (Frame A)) (h : ℕ)
      → Calm (node k l v r)
      → Height (node k l v r) h
      → Around c h
      → (tells_red k && top_red c) ≡ false
      → Left (min_under k l v r c)
  unfolding min_under is_red is_red_frame
  min-Left k leaf v r c h q e a n = end-Left k v r c h q e a
  min-Left red (node red l' v' r') v r c h (m, k, q, q') (e, e') a n = cc
  min-Left red (node black l' v' r') v r c h (m, k, q, q') (e, e') a n =
      min-Left black l' v' r' (left red v r ∷ c) h q e (e', q', k, n, a) refl
  min-Left black (node k' l' v' r') v r c h (q, q') (m, z, e, e') a n =
      min-Left k' l' v' r' (left black v r ∷ c) m q e (e', q', subst (Around c) z a)
        (and_false (tells_red k'))

  taken-Left :
      (c : List (Frame A)) (k : Color) (l : Tree A) (v : A) (r : Tree A) (h : ℕ)
      → Calm (node k l v r)
      → Height (node k l v r) h
      → Around c h
      → (tells_red k && top_red c) ≡ false
      → Left (replaced c k l r)
  unfolding replaced is_red is_red_frame
  taken-Left c k leaf v r h q e a n = end-Left k v r c h q e a
  taken-Left c k (node kl ll vl lr) v leaf h q e a n = end_right k v (node kl ll vl lr) c h q e a
  taken-Left c red (node kl ll vl lr) v (node red rl vr rr) h (m, k, q, q') (e, e') a n = cc
  taken-Left c red (node kl ll vl lr) v (node black rl vr rr) h (m, k, q, q') (e, e') a n =
      min-Left black rl vr rr (right red (node kl ll vl lr) (first_under vr rl) ∷ c) h q' e'
        (e, q, m, n, a) refl
  taken-Left c black (node kl ll vl lr) v (node kr rl vr rr) h (q, q') (m, z, e, e') a n =
      min-Left kr rl vr rr (right black (node kl ll vl lr) (first_under vr rl) ∷ c) m q' e'
        (e, q, subst (Around c) z a) (and_false (tells_red kr))

  taken-list :
      (c : List (Frame A)) (k : Color) (l r : Tree A)
      → to_list (zip (replaced c k l r).2 (replaced c k l r).1)
        ≡ (before c ++ to_list l) ++ (to_list r ++ behind c)
  unfolding replaced
  taken-list c k leaf r =
      to_list-zip c r ∙ ap (λ xs. xs ++ (to_list r ++ behind c)) (sym (append-nil (before c)))
  taken-list c k (node kl ll vl lr) leaf =
      to_list-zip c (node kl ll vl lr)
      ∙ sym (append_assoc (before c) (to_list (node kl ll vl lr)) (behind c))
  taken-list c k (node kl ll vl lr) (node kr rl vr rr) =
      let f = first_under vr rl in
      let l = node kl ll vl lr in
      let m = min_list kr rl vr rr (right k l f ∷ c) in
      let t = min_under kr rl vr rr (right k l f ∷ c) in
      to_list-zip t.2 t.1
      ∙ m.2
      ∙ regroup (before c) (to_list l) f m.0 (behind c)
      ∙ ap (λ xs. (before c ++ to_list l) ++ (xs ++ behind c)) (sym m.1)
    where
      regroup :
          (bs ls : List A) (f : A) (ms es : List A)
          → (bs ++ (ls ++ (f ∷ []))) ++ (ms ++ es) ≡ (bs ++ ls) ++ ((f ∷ ms) ++ es)
      regroup bs ls f ms es = simp append_assoc

  fix_if_sound :
      (y : Color) (d : List (Frame A)) (x : Tree A)
      → Left (y, x, d)
      → Kept (to_list (zip d x)) (fix_if y d x)
  unfolding fix_if
  fix_if_sound red d x (j, q, e, a, n) = (zip d x, refl, zip-IsRedBlack d x j a q e n, refl)
  fix_if_sound black d x (j, q, e, a, n) = remove_fixup_sound d x j a q e

  -- A sound tree is sound around and below each of its places.
  unzip_sound :
      (c : List (Frame A)) (t : Tree A) (j : ℕ)
      → Calm (zip c t)
      → Height (zip c t) j
      → is_red (zip c t) ≡ false
      → (h : ℕ) × Around c h × Calm t × Height t h × ((is_red t && top_red c) ≡ false)
  unfolding zip plug is_red is_red_frame
  unzip_sound [] t j q e n = (j, tt, q, e, rw n refl)
  unzip_sound (left red v r ∷ c) t j q e n =
      let (h, a, (m, k, p, p'), (f, f'), b) = unzip_sound c (node red t v r) j q e n in
      (h, (f', p', k, b, a), p, f, rw m refl)
  unzip_sound (right red l v ∷ c) t j q e n =
      let (h, a, (m, k, p, p'), (f, f'), b) = unzip_sound c (node red l v t) j q e n in
      (h, (f, p, m, b, a), p', f', rw k refl)
  unzip_sound (left black v r ∷ c) t j q e n =
      let (h, a, (p, p'), (m, z, f, f'), b) = unzip_sound c (node black t v r) j q e n in
      (m, (f', p', subst (Around c) z a), p, f, and_false (is_red t))
  unzip_sound (right black l v ∷ c) t j q e n =
      let (h, a, (p, p'), (m, z, f, f'), b) = unzip_sound c (node black l v t) j q e n in
      (m, (f, p, subst (Around c) z a), p', f', and_false (is_red t))

  tells : (k : Color) (l : Tree A) (v : A) (r : Tree A) → is_red (node k l v r) ≡ tells_red k
  unfolding is_red
  tells red l v r = refl
  tells black l v r = refl

  -- Removal of a node, wherever it stands in a red-black tree, reads no NULL pointer and leaves a
  -- red-black tree: its object is gone from the sequence, the others keep their order, and the size
  -- is one less.
  pub rb_remove-IsRedBlack :
      (c : List (Frame A)) (k : Color) (l : Tree A) (v : A) (r : Tree A) (t : RbTree A)
      → t.root ≡ zip c (node k l v r)
      → IsRedBlack t.root
      → (t' : RbTree A) × (rb_remove c k l r t ≡ some t')
        × IsRedBlack t'.root
        × (to_list t.root ≡ (before c ++ to_list l) ++ (v ∷ (to_list r ++ behind c)))
        × (to_list t'.root ≡ (before c ++ to_list l) ++ (to_list r ++ behind c))
        × (t'.size ≡ sub64 t.size 1)
  unfolding rb_remove
  rb_remove-IsRedBlack c k l v r t w i =
      let n = node k l v r in
      let i' : IsRedBlack (zip c n) = subst IsRedBlack w i in
      let (h, a, q, e, b) = unzip_sound c n i'.height.0 i'.calm i'.height.1 i'.root_black in
      let o = replaced c k l r in
      let s =
        fix_if_sound o.0 o.2 o.1
          (taken-Left c k l v r h q e a (ap (λ m. m && top_red c) (sym (tells k l v r)) ∙ b)) in
      (
        record { root = s.0; size = sub64 t.size 1 },
        rw s.1 refl,
        s.2,
        ap to_list w ∙ to_list-zip c n ∙ simp append_assoc,
        s.3 ∙ taken-list c k l r,
        refl,
      )
