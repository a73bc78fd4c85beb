-- ===== src/Dll/Ends.antt =====
-- The ends of a doubly linked list: the nodes without a neighbour on one side, and the tail pointer
-- after a removal.
use lapis.Base.{
  ℕ, ◌≡◌, inl, inr, true, List, [], ◌∷◌, arith, ◌==◌, ap, sym, ◌∙◌, Bool-cases, eq_of_test,
  if◌then◌else◌, ne_zero-of_has, has, erase, first_of, last_of, Distinct,
}
use lapis.Dll.{Links}
use lapis.Dll.Neighbours.{prev-in}

-- A node of the list with none before it is the first.
pub first_of-start :
    (nx pv : ℕ → ℕ) (a : ℕ) (xs : List ℕ)
    → Distinct xs
    → has a xs ≡ true
    → Links nx pv 0 xs
    → pv a ≡ 0
    → first_of xs ≡ a
first_of-start nx pv a [] d h l e = ground arith
first_of-start nx pv a (x ∷ xs) (z, f, d) h (p, n, l) e = elim (Bool-cases (a == x)) [
  | inl t ↦ sym (eq_of_test a x t)
  | inr t ↦ elim (prev-in nx pv x a xs l (ground arith)) [
    | inl w ↦ absurd (z (sym w ∙ e))
    | inr w ↦ absurd (ne_zero-of_has (pv a) xs d w e)
  ]
]

-- A node of the list with none behind it is the last.
pub last_of-end :
    (nx pv : ℕ → ℕ) (a prev : ℕ) (xs : List ℕ)
    → Distinct xs
    → has a xs ≡ true
    → Links nx pv prev xs
    → nx a ≡ 0
    → last_of prev xs ≡ a
last_of-end nx pv a prev [] d h l e = ground arith
last_of-end nx pv a prev (x ∷ []) d h l e = ground (arith, eq_of_test a x)
last_of-end nx pv a prev (x ∷ (y ∷ ys)) (z, f, (w, g, d)) h (p, n, l) e =
    elim (Bool-cases (a == x)) [
      | inl t ↦ absurd (w (sym n ∙ ap nx (sym (eq_of_test a x t)) ∙ e))
      | inr t ↦ last_of-end nx pv a x (y ∷ ys) (w, g, d) (ground arith) l e
    ]

-- The last node of what is left, as the tail pointer is set.
pub last_of-erase :
    (nx pv : ℕ → ℕ) (a prev : ℕ) (xs : List ℕ)
    → Distinct xs
    → has a xs ≡ true
    → Links nx pv prev xs
    → (if nx a == 0 then pv a else last_of prev xs) ≡ last_of prev (erase a xs)
last_of-erase nx pv a prev [] d h l = ground arith
last_of-erase nx pv a prev (x ∷ xs) (z, f, d) h (p, n, l) = elim (Bool-cases (a == x)) [
  | inl t ↦ let e = eq_of_test a x t in rw t (at_front xs d (ap nx e ∙ n) (ap pv e ∙ p))
  | inr t ↦ rw t (last_of-erase nx pv a x xs d (ground arith) l)
]
  where
    at_front :
        (ys : List ℕ)
        → Distinct ys
        → nx a ≡ first_of ys
        → pv a ≡ prev
        → (if nx a == 0 then pv a else last_of x ys) ≡ last_of prev ys
    at_front [] d n p = ground arith
    at_front (y ∷ ys) (w, f, d) n p = ground arith
