-- ===== src/Dll/Neighbours.antt =====
-- Where the neighbours of a node of a doubly linked list lie.
use lapis.Base.{
  ℕ, ◌≡◌, refl, ◌≢◌, ◌⊎◌, inl, inr, true, false, List, [], ◌∷◌, arith, ap, sym, ◌∙◌, has, Distinct,
}
use lapis.Dll.{Links, ne-of_has, has-here, has-there, has-split}

-- Where the neighbours of a node of the list lie.
module _ (nx pv : ℕ → ℕ) where
  pub next-in :
      (prev a : ℕ) (xs : List ℕ)
      → Links nx pv prev xs
      → has a xs ≡ true
      → (nx a ≡ 0) ⊎ (has (nx a) xs ≡ true)
  next-in prev a [] l h = ground arith
  next-in prev a (x ∷ []) l h = ground arith
  next-in prev a (x ∷ (y ∷ ys)) (p, n, l) h = elim (has-split a x (y ∷ ys) h) [
    | inl e ↦ inr (has-there (nx a) x (y ∷ ys) (has-here (nx a) y ys (rw e n)))
    | inr k ↦ elim (next-in x a (y ∷ ys) l k) [
      | inl e ↦ inl e
      | inr m ↦ inr (has-there (nx a) x (y ∷ ys) m)
    ]
  ]

  pub prev-in :
      (prev a : ℕ) (xs : List ℕ)
      → Links nx pv prev xs
      → has a xs ≡ true
      → (pv a ≡ prev) ⊎ (has (pv a) xs ≡ true)
  prev-in prev a [] l h = ground arith
  prev-in prev a (x ∷ xs) (p, n, l) h = elim (has-split a x xs h) [
    | inl e ↦ inl (rw e p)
    | inr k ↦ elim (prev-in x a xs l k) [
      | inl e ↦ inr (has-here (pv a) x xs e)
      | inr m ↦ inr (has-there (pv a) x xs m)
    ]
  ]

  -- No node is its own neighbour.
  pub next-ne :
      (prev a : ℕ) (xs : List ℕ) → Distinct xs → has a xs ≡ true → Links nx pv prev xs → nx a ≢ a
  next-ne prev a [] d h l = ground arith
  next-ne prev a (x ∷ []) (z, f, d) h (p, n, l) = ground arith
  next-ne prev a (x ∷ (y ∷ ys)) (z, f, d) h (p, n, l) = elim (has-split a x (y ∷ ys) h) [
    | inl e ↦
        λ w. ne-of_has y x (y ∷ ys) (has-here y y ys refl) f (sym n ∙ (ap nx (sym e) ∙ (w ∙ e)))
    | inr k ↦ next-ne x a (y ∷ ys) d k l
  ]

  pub prev-ne :
      (prev a : ℕ) (xs : List ℕ)
      → Distinct xs
      → has prev xs ≡ false
      → has a xs ≡ true
      → Links nx pv prev xs
      → pv a ≢ a
  prev-ne prev a [] d fresh h l = ground arith
  prev-ne prev a (x ∷ xs) (z, f, d) fresh h (p, n, l) = elim (has-split a x xs h) [
    | inl e ↦ λ w.
        ne-of_has x prev (x ∷ xs) (has-here x x xs refl) fresh (sym e ∙ (sym w ∙ (ap pv e ∙ p)))
    | inr k ↦ prev-ne x a xs d f k l
  ]
