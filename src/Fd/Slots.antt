-- ===== src/Fd/Slots.antt =====
-- The slots of a descriptor table: which entries they hold, and how often.
use lapis.Base.{
  ℕ, zero, suc, ◌+◌, ◌<◌, ◌≤◌, ◌≡◌, refl, ◌≢◌, sym, ap, subst, Bool, true, false, some, none, List,
  [], ◌∷◌, ◌++◌, ◌==◌, arith, length, set, replicate, Bool-cases, inl, inr, ne_of_test, eq_of_test,
}
use lapis.Fd.{slot, first_free}

abbrev pub one_if : Bool → ℕ
one_if true = 1
one_if false = 0

-- How often an entry stands in the slots.
abbrev pub uses : ℕ → List ℕ → ℕ
uses e [] = 0
uses e (x ∷ xs) = one_if (x == e) + uses e xs

pub uses-set :
    (e v i : ℕ) (xs : List ℕ)
    → i < length xs
    → uses e (set xs i v) + one_if (slot xs i == e) ≡ uses e xs + one_if (v == e)
unfolding slot
uses-set e v i [] k = omega arith
uses-set e v zero (x ∷ xs) k = omega arith
uses-set e v (suc i) (x ∷ xs) k = step _ _ _ _ (one_if (x == e)) (uses-set e v i xs (omega arith))
  where
    step : (a b c d o : ℕ) → a + b ≡ c + d → (o + a) + b ≡ (o + c) + d
    step a b c d o p = omega arith

pub uses-append_zeros : (e n : ℕ) (xs : List ℕ) → e ≢ 0 → uses e (xs ++ replicate n 0) ≡ uses e xs
uses-append_zeros e n (x ∷ xs) z = ap (λ m. one_if (x == e) + m) (uses-append_zeros e n xs z)
uses-append_zeros e zero [] z = refl
uses-append_zeros e (suc n) [] z = ground (arith, uses-append_zeros e n [] z)

pub slot-set_self : (v i : ℕ) (xs : List ℕ) → i < length xs → slot (set xs i v) i ≡ v
unfolding slot
slot-set_self v i [] k = omega arith
slot-set_self v zero (x ∷ xs) k = refl
slot-set_self v (suc i) (x ∷ xs) k = slot-set_self v i xs (omega arith)

pub slot-set_ne : (v i j : ℕ) (xs : List ℕ) → i ≢ j → slot (set xs i v) j ≡ slot xs j
unfolding slot
slot-set_ne v i j [] k = refl
slot-set_ne v zero zero (x ∷ xs) k = absurd (k refl)
slot-set_ne v zero (suc j) (x ∷ xs) k = refl
slot-set_ne v (suc i) zero (x ∷ xs) k = refl
slot-set_ne v (suc i) (suc j) (x ∷ xs) k = slot-set_ne v i j xs (λ e. k (ap suc e))

pub slot-append_zeros : (n i : ℕ) (xs : List ℕ) → slot (xs ++ replicate n 0) i ≡ slot xs i
unfolding slot
slot-append_zeros n zero (x ∷ xs) = refl
slot-append_zeros n (suc i) (x ∷ xs) = slot-append_zeros n i xs
slot-append_zeros zero i [] = refl
slot-append_zeros (suc n) zero [] = refl
slot-append_zeros (suc n) (suc i) [] = slot-append_zeros n i []

-- A slot that holds an entry is in the table.
pub in_range : (i : ℕ) (xs : List ℕ) → slot xs i ≢ 0 → i < length xs
unfolding slot
in_range i [] z = absurd (z refl)
in_range zero (x ∷ xs) z = omega arith
in_range (suc i) (x ∷ xs) z = above (in_range i xs z)
  where
    above : {n : ℕ} → i < n → suc i < suc n
    above k = omega arith

pub slot-outside : (i : ℕ) (xs : List ℕ) → length xs ≤ i → slot xs i ≡ 0
unfolding slot
slot-outside i [] k = refl
slot-outside zero (x ∷ xs) k = omega arith
slot-outside (suc i) (x ∷ xs) k = slot-outside i xs (omega arith)

-- What `first_free` finds is free, in the table, and the first such slot.
first_free-some :
    (b i : ℕ) (xs : List ℕ)
    → first_free b xs ≡ some i
    → (j : ℕ) × (i ≡ b + j) × (j < length xs) × (slot xs j ≡ 0) × ((k : ℕ) → k < j → slot xs k ≢ 0)
unfolding first_free slot
first_free-some b i [] e = ground arith
first_free-some b i (x ∷ xs) e = elim (Bool-cases (x == 0)) [
  | inl h ↦ (0, ground arith, omega arith, eq_of_test x 0 h, λ k l. absurd (below l))
  | inr h ↦
      let r = first_free-some (suc b) i xs (ground arith) in
      (suc r.0, shifted r.0 r.1, above r.2, r.3, earlier h r.0 r.4)
]
  where
    below : {k : ℕ} → k < 0 → ⊥
    below l = omega arith

    shifted : (n : ℕ) → i ≡ suc b + n → i ≡ b + suc n
    shifted n p = omega arith

    above : {m n : ℕ} → m < n → suc m < suc n
    above p = omega arith

    earlier :
        (x == 0) ≡ false
        → (n : ℕ) → ((k : ℕ) → k < n → slot xs k ≢ 0)
        → (k : ℕ) → k < suc n
        → slot (x ∷ xs) k ≢ 0
    earlier h n f zero l = ne_of_test x 0 h
    earlier h n f (suc k) l = f k (omega arith)

pub first_free_at :
    (i : ℕ) (xs : List ℕ)
    → first_free 0 xs ≡ some i
    → (i < length xs) × (slot xs i ≡ 0) × ((k : ℕ) → k < i → slot xs k ≢ 0)
first_free_at i xs e =
    let r = first_free-some 0 i xs e in
    subst (λ j. (j < length xs) × (slot xs j ≡ 0) × ((k : ℕ) → k < j → slot xs k ≢ 0))
      (sym (plain r.1)) (r.2, r.3, r.4)
  where
    plain : {j : ℕ} → i ≡ 0 + j → i ≡ j
    plain e = omega arith

-- If it finds none, every slot holds an entry.
pub first_free-none :
    (b : ℕ) (xs : List ℕ) → first_free b xs ≡ none → (k : ℕ) → k < length xs → slot xs k ≢ 0
unfolding first_free slot
first_free-none b [] e k l = absurd (empty k l)
  where
    empty : (k : ℕ) → k < 0 → ⊥
    empty k l = omega arith
first_free-none b (x ∷ xs) e zero l = ground arith
first_free-none b (x ∷ xs) e (suc k) l = first_free-none (suc b) xs (ground arith) k (omega arith)
