-- ===== src/Vfs/Best.antt =====
-- The loop of `vfs_resolve_mount` of kernel/src/fs/vfs/vfs.c: the longest match in the list.
use lapis.Base.{
  ℕ, ◌≤◌, ◌<◌, ◌≡◌, refl, sym, subst, true, false, ◌⊎◌, inl, inr, List, [], ◌∷◌, ◌==◌, ltb, length,
  has, Bool-cases, arith, eq_of_test,
}
use lapis.Vfs.{Str, World, fits, mount_path, best_match}

module _ {ℓ} {F : Type ℓ} (w : World F) (path : Str) where
  -- A mounted file system that the path belongs to.
  abbrev Candidate : ℕ → Type 0
  Candidate v = (((w.fss v).root_vnode == 0) ≡ false) × (fits (mount_path w v) path ≡ true)

  -- What the loop has found, from `best` on along `vs`: it is as long as `best` and any candidate.
  abbrev Best : List ℕ → (best len b n : ℕ) → Type 0
  Best vs best len b n =
      (((b ≡ best) × (n ≡ len))
        ⊎ ((has b vs ≡ true) × Candidate b × (n ≡ length (mount_path w b)) × (len < n)))
      × (len ≤ n)
      × ((v : ℕ) → has v vs ≡ true → Candidate v → length (mount_path w v) ≤ n)

  Best-skip :
      (v : ℕ) (vs : List ℕ) (best len b n : ℕ)
      → (Candidate v → length (mount_path w v) ≤ len)
      → Best vs best len b n
      → Best (v ∷ vs) best len b n
  Best-skip v vs best len b n k (from, le, all) = (
    elim from [ inl e ↦ inl e | inr (h, c, m, l) ↦ inr (ground (arith, h), c, m, l) ],
    le,
    λ u h c. elim (Bool-cases (u == v)) [
      | inl e ↦
          let q = eq_of_test u v e in
          let x = k (subst Candidate q c) in
          subst (λ a. length (mount_path w a) ≤ n) (sym q) (omega arith)
      | inr e ↦ all u (ground (arith, h, e)) c
    ],
  )

  Best-take :
      (v : ℕ) (vs : List ℕ) (best len b n : ℕ)
      → Candidate v
      → len < length (mount_path w v)
      → Best vs v (length (mount_path w v)) b n
      → Best (v ∷ vs) best len b n
  Best-take v vs best len b n c l (from, le, all) = (
    inr (elim from [
      | inl (e, m) ↦ (
        ground (arith, e),
        subst Candidate (sym e) c,
        subst (λ a. n ≡ length (mount_path w a)) (sym e) m,
        omega arith,
      )
      | inr (h, c2, m, l2) ↦ (ground (arith, h), c2, m, omega arith)
    ]),
    omega arith,
    λ u h c2. elim (Bool-cases (u == v)) [
      | inl e ↦ subst (λ a. length (mount_path w a) ≤ n) (sym (eq_of_test u v e)) le
      | inr e ↦ all u (ground (arith, h, e)) c2
    ],
  )

  pub best_match-Best :
      (vs : List ℕ) (best len : ℕ)
      → Best vs best len (best_match w path vs best len).0 (best_match w path vs best len).1
  unfolding best_match
  best_match-Best [] best len = (inl (refl, refl), omega arith, λ v h. absurd (ground (arith, h)))
  best_match-Best (v ∷ vs) best len = elim (Bool-cases ((w.fss v).root_vnode == 0)) [
    | inl e ↦
        let q : best_match w path (v ∷ vs) best len ≡ best_match w path vs best len =
          rw (best_match, e) refl in
        let k =
          Best-skip v vs best len _ _ (λ c. absurd (ground (arith, e, c.0)))
            (best_match-Best vs best len) in
        subst (λ p. Best (v ∷ vs) best len p.0 p.1) (sym q) k
    | inr e ↦ elim (Bool-cases (fits (mount_path w v) path)) [
      | inr f ↦
          let q : best_match w path (v ∷ vs) best len ≡ best_match w path vs best len =
            rw (best_match, e, f) refl in
          let k =
            Best-skip v vs best len _ _ (λ c. absurd (ground (arith, f, c.1)))
              (best_match-Best vs best len) in
          subst (λ p. Best (v ∷ vs) best len p.0 p.1) (sym q) k
      | inl f ↦ elim (Bool-cases (ltb len (length (mount_path w v)))) [
        | inl l ↦
            let q : best_match w path (v ∷ vs) best len
                ≡ best_match w path vs v (length (mount_path w v)) =
              rw (best_match, e, f, l) refl in
            let k =
              Best-take v vs best len _ _ (e, f) (ground (arith, l))
                (best_match-Best vs v (length (mount_path w v))) in
            subst (λ p. Best (v ∷ vs) best len p.0 p.1) (sym q) k
        | inr l ↦
            let q : best_match w path (v ∷ vs) best len ≡ best_match w path vs best len =
              rw (best_match, e, f, l) refl in
            let k =
              Best-skip v vs best len _ _ (λ _. ground (arith, l)) (best_match-Best vs best len) in
            subst (λ p. Best (v ∷ vs) best len p.0 p.1) (sym q) k
      ]
    ]
  ]
