-- ===== src/Mm/Pmm/Bound.antt =====
-- How long the free list can be.
use lapis.Base.{
  ℕ, zero, suc, ◌+◌, ◌≤◌, ◌<◌, ◌≡◌, refl, ◌≢◌, true, false, List, [], ◌∷◌, arith, ap, sym, ◌∙◌, has,
  erase, length, Distinct, not-has-erase, length-erase, has_of_erase, Distinct-erase, inl, inr,
  Bool-cases,
}
use lapis.Dll.{ne-of_has, has-here, has-split}
use lapis.Mm.Pmm.{Pmm, at}
use lapis.Mm.Pmm.Inv.{InDb, listed, IsValid}

-- Among `n` descriptors there are at most `n` different ones.
length-le_of_in :
    (db n : ℕ) (xs : List ℕ)
    → Distinct xs
    → ((a : ℕ) → has a xs ≡ true → (i : ℕ) × (i < n) × (a ≡ at db i))
    → length xs ≤ n
length-le_of_in db n [] d within = omega arith
length-le_of_in db zero (x ∷ xs) d within =
    let (i, lt, e) = within x (has-here x x xs refl) in absurd (omega arith)
length-le_of_in db (suc n) (x ∷ xs) d within = elim (Bool-cases (has top all)) [
  | inl t ↦ omega (
    arith,
    length-erase top all t,
    length-le_of_in db n (erase top all) (Distinct-erase top all d) (λ a k.
        lower a (has_of_erase a top all k)
          (ne-of_has a top (erase top all) k (not-has-erase top all d))),
  )
  | inr t ↦ omega (arith, length-le_of_in db n all d (λ a k. lower a k (ne-of_has a top all k t)))
]
  where
    top : ℕ
    top = at db n

    all : List ℕ
    all = x ∷ xs

    lower : (a : ℕ) → has a all ≡ true → a ≢ top → (i : ℕ) × (i < n) × (a ≡ at db i)
    lower a k ne = let (i, lt, e) = within a k in (i, strictly i lt (λ w. ne (e ∙ ap (at db) w)), e)
      where
        strictly : (i : ℕ) → i < suc n → i ≢ n → i < n
        strictly i lt ne = omega arith

-- No descriptor is at NULL.
pub InDb-ne : (s : Pmm) (p : ℕ) → s.db ≢ 0 → InDb s p → p ≢ 0
InDb-ne s p set (i, le, e) w = set (omega (arith, e, w))

module _ {s : Pmm} {xs : List ℕ} (v : IsValid s xs) where
  -- One more descriptor fits only if the list is not that long yet.
  pub length-lt : (p : ℕ) → InDb s p → has p xs ≡ false → length xs < s.max_pfn + 1
  length-lt p (i, le, e) out =
      length-le_of_in s.db (s.max_pfn + 1) (p ∷ xs)
        (InDb-ne s p v.db_set (i, le, e), out, v.list.distinct)
        (λ a k. elim (has-split a p xs k) [
          | inl w ↦ (i, omega arith, w ∙ e)
          | inr w ↦ let (j, lt, f) = v.in_db a w in (j, omega arith, f)
        ])

  pub listed-off : (p : ℕ) → InDb s p → has p xs ≡ false → listed (s.mem p).flags ≡ false
  listed-off p (i, le, e) out =
      ap (λ b. listed (s.mem b).flags) e ∙ (sym (v.exact i le) ∙ (ap (λ b. has b xs) (sym e) ∙ out))

  pub listed-has : (p : ℕ) → InDb s p → has p xs ≡ listed (s.mem p).flags
  listed-has p (i, le, e) =
      ap (λ b. has b xs) e ∙ (v.exact i le ∙ ap (λ b. listed (s.mem b).flags) (sym e))
