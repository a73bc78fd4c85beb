-- ===== src/Rbtree/Tests.antt =====
-- A tree of five numbers, each its own key.
use lapis.Base.{ℕ, ◌≡◌, refl, ◌⊎◌, some, none, List, [], ◌∷◌, arith, add64, sub64, ℤ, pos, negsuc}
use lapis.Rbtree.{
  black, red, Tree, leaf, node, Frame, left, RbTree, zip, plug, is_red, rb_insert, rb_remove,
  rb_next, rb_prev, rb_find, rb_lower_bound, rb_upper_bound, insert_fixup, find_link, is_red_frame,
  turn, outer_left, rotate_right, paint, uncle_of,
}
use lapis.Rbtree.Sequence.{to_list, find, insert}
use lapis.Rbtree.Search.{rb_neighbours, rb_search}
use lapis.Rbtree.Balance.{IsRedBlack, rb_insert-IsRedBlack}
use lapis.Rbtree.Remove.{rb_remove-IsRedBlack}

abbrev id : ℕ → ℕ
id n = n

abbrev low : Tree ℕ
low = node black (node red leaf 5 leaf) 10 leaf

abbrev five : RbTree ℕ
five = record { root = node black low 20 (node black leaf 30 (node red leaf 40 leaf)); size = 5 }

five-IsRedBlack : IsRedBlack five.root
unfolding is_red
five-IsRedBlack = record {
  calm = (((refl, refl, tt, tt), tt), (tt, (refl, refl, tt, tt)));
  root_black = refl;
  height = (2, (1, refl, (0, refl, (refl, refl), refl), (0, refl, refl, (refl, refl))));
}

-- 3 goes below 5: the uncle is black, so the parent is turned.
inserted_three :
    rb_insert id 3 five
    ≡ some (
      pos 0,
      record {
        root =
            node black
              (node black (node red leaf 3 leaf) 5 (node red leaf 10 leaf))
              20
              (node black leaf 30 (node red leaf 40 leaf));
        size = 6;
      },
    )
unfolding rb_insert find_link insert_fixup is_red_frame is_red uncle_of turn outer_left rotate_right
    plug paint zip
inserted_three = refl

abbrev above : List (Frame ℕ)
above = left black 20 (node black leaf 30 (node red leaf 40 leaf)) ∷ []

rb_insert-IsRedBlack_example :
    (r : ℤ × RbTree ℕ) × (rb_insert id 3 five ≡ some r)
    × IsRedBlack r.1.root
    × (((find id 3 (to_list five.root) ≡ none)
          × (r.0 ≡ pos 0)
          × (to_list r.1.root ≡ insert id 3 (to_list five.root))
          × (r.1.size ≡ add64 5 1))
        ⊎ (((v : ℕ) × (find id 3 (to_list five.root) ≡ some v)) × (r ≡ (negsuc 0, five))))
rb_insert-IsRedBlack_example = rb_insert-IsRedBlack id 3 five five-IsRedBlack (omega arith)

rb_remove-IsRedBlack_example :
    (t' : RbTree ℕ) × (rb_remove above black (node red leaf 5 leaf) leaf five ≡ some t')
    × IsRedBlack t'.root
    × (to_list five.root ≡ 5 ∷ 10 ∷ 20 ∷ 30 ∷ 40 ∷ [])
    × (to_list t'.root ≡ 5 ∷ 20 ∷ 30 ∷ 40 ∷ [])
    × (t'.size ≡ sub64 5 1)
unfolding zip plug
rb_remove-IsRedBlack_example =
    rb_remove-IsRedBlack above black (node red leaf 5 leaf) 10 leaf five refl five-IsRedBlack

rb_search_example :
    (rb_find id 20 five.root ≡ some 20)
    × (rb_lower_bound id 20 five.root ≡ some 20)
    × (rb_upper_bound id 20 five.root ≡ some 30)
rb_search_example = rb_search id 20 five.root (omega arith)

rb_neighbours_example :
    (to_list (zip above low) ≡ 5 ∷ 10 ∷ 20 ∷ 30 ∷ 40 ∷ [])
    × (rb_next above (node red leaf 5 leaf) leaf ≡ some 20)
    × (rb_prev above (node red leaf 5 leaf) leaf ≡ some 5)
rb_neighbours_example = rb_neighbours above black (node red leaf 5 leaf) 10 leaf
