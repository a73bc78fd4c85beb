-- ===== src/Base/Lists.antt =====
-- Lists measured and indexed by native numbers, and lists of addresses with Boolean membership.
use Prim.Native.Nat.{ℕ, zero, suc, ◌+◌, ◌<◌}
use mathlib.Core.Path.{◌≡◌, refl, ap}
use mathlib.Core.Logic.{◌≢◌}
use mathlib.Core.Bool.{Bool, true, false, ◌||◌, or_assoc}
use mathlib.Core.List.{List, [], ◌∷◌, ◌++◌}
use mathlib.Core.Option.{Option, none, some}
use native.Mathlib.Omega.{arith}
use lapis.Base.Tests.{◌==◌, if◌then◌else◌}

module _ {ℓ} {A : Type ℓ} where
  abbrev pub length : List A → ℕ
  length [] = 0
  length (x ∷ xs) = suc (length xs)

  abbrev pub get_elem? : List A → ℕ → Option A
  get_elem? [] i = none
  get_elem? (x ∷ xs) zero = some x
  get_elem? (x ∷ xs) (suc i) = get_elem? xs i

  -- A write out of bounds changes nothing.
  abbrev pub set : List A → ℕ → A → List A
  set [] i v = []
  set (x ∷ xs) zero v = v ∷ xs
  set (x ∷ xs) (suc i) v = x ∷ set xs i v

  abbrev pub replicate : ℕ → A → List A
  replicate zero a = []
  replicate (suc n) a = a ∷ replicate n a

  pub length-append : (xs ys : List A) → length (xs ++ ys) ≡ length xs + length ys
  length-append [] ys = omega arith
  length-append (x ∷ xs) ys = omega (arith, length-append xs ys)

  pub length-set : (xs : List A) (i : ℕ) (v : A) → length (set xs i v) ≡ length xs
  length-set [] i v = refl
  length-set (x ∷ xs) zero v = refl
  length-set (x ∷ xs) (suc i) v = ap suc (length-set xs i v)

  pub length-replicate : (n : ℕ) (a : A) → length (replicate n a) ≡ n
  length-replicate zero a = refl
  length-replicate (suc n) a = ap suc (length-replicate n a)

  pub get_elem?-set_self :
      (xs : List A) (i : ℕ) (v : A) → i < length xs → get_elem? (set xs i v) i ≡ some v
  get_elem?-set_self [] i v h = elim h [ ]
  get_elem?-set_self (x ∷ xs) zero v h = refl
  get_elem?-set_self (x ∷ xs) (suc i) v h = get_elem?-set_self xs i v (omega arith)

  pub get_elem?-set_ne :
      (xs : List A) (i j : ℕ) (v : A) → i ≢ j → get_elem? (set xs i v) j ≡ get_elem? xs j
  get_elem?-set_ne [] i j v h = refl
  get_elem?-set_ne (x ∷ xs) zero zero v h = absurd (h refl)
  get_elem?-set_ne (x ∷ xs) zero (suc j) v h = refl
  get_elem?-set_ne (x ∷ xs) (suc i) zero v h = refl
  get_elem?-set_ne (x ∷ xs) (suc i) (suc j) v h = get_elem?-set_ne xs i j v (λ e. h (ap suc e))

  pub get_elem?-append :
      (xs ys : List A) (i : ℕ) → i < length xs → get_elem? (xs ++ ys) i ≡ get_elem? xs i
  get_elem?-append [] ys i h = elim h [ ]
  get_elem?-append (x ∷ xs) ys zero h = refl
  get_elem?-append (x ∷ xs) ys (suc i) h = get_elem?-append xs ys i (omega arith)

-- Addresses: is `a` one of them, without its first occurrence, the first and the last of them.
abbrev pub has : ℕ → List ℕ → Bool
has a [] = false
has a (x ∷ xs) = (a == x) || has a xs

abbrev pub erase : ℕ → List ℕ → List ℕ
erase a [] = []
erase a (x ∷ xs) = if a == x then xs else x ∷ erase a xs

abbrev pub first_of : List ℕ → ℕ
first_of [] = 0
first_of (x ∷ xs) = x

abbrev pub last_of : ℕ → List ℕ → ℕ
last_of d [] = d
last_of d (x ∷ xs) = last_of x xs

pub has-append : (a : ℕ) (xs ys : List ℕ) → has a (xs ++ ys) ≡ (has a xs || has a ys)
has-append a [] ys = refl
has-append a (x ∷ xs) ys = rw (has-append a xs ys, or_assoc)

pub has-erase : (a b : ℕ) (xs : List ℕ) → has b xs ≡ false → has b (erase a xs) ≡ false
has-erase a b [] h = refl
has-erase a b (x ∷ xs) h = ground (arith, has-erase a b xs)

pub has-erase_ne : (a b : ℕ) (xs : List ℕ) → a ≢ b → has b (erase a xs) ≡ has b xs
has-erase_ne a b [] h = refl
has-erase_ne a b (x ∷ xs) h = ground (arith, has-erase_ne a b xs)

pub length-erase : (a : ℕ) (xs : List ℕ) → has a xs ≡ true → length xs ≡ suc (length (erase a xs))
length-erase a [] h = ground arith
length-erase a (x ∷ xs) h = ground (arith, length-erase a xs)

pub last_of-append : (d x : ℕ) (xs : List ℕ) → last_of d (xs ++ (x ∷ [])) ≡ x
last_of-append d x [] = refl
last_of-append d x (y ∷ ys) = last_of-append y x ys

-- No address is NULL and none occurs twice.
abbrev pub Distinct : List ℕ → Type 0
Distinct [] = Unit {0}
Distinct (x ∷ xs) = (x ≢ 0) × (has x xs ≡ false) × Distinct xs

pub Distinct-erase : (a : ℕ) (xs : List ℕ) → Distinct xs → Distinct (erase a xs)
Distinct-erase a [] d = tt
Distinct-erase a (x ∷ xs) (p, q, d) = ground (arith, Distinct-erase a xs d, has-erase a x xs q)

pub not-has-erase : (a : ℕ) (xs : List ℕ) → Distinct xs → has a (erase a xs) ≡ false
not-has-erase a [] d = refl
not-has-erase a (x ∷ xs) (p, q, d) = ground (arith, not-has-erase a xs d)

pub Distinct-snoc :
    (a : ℕ) (xs : List ℕ) → a ≢ 0 → has a xs ≡ false → Distinct xs → Distinct (xs ++ (a ∷ []))
Distinct-snoc a [] z h d = (z, refl, tt)
Distinct-snoc a (x ∷ xs) z h (p, q, d) =
    (p, rw has-append (ground arith), Distinct-snoc a xs z (ground arith) d)

pub ne_zero-of_has : (a : ℕ) (xs : List ℕ) → Distinct xs → has a xs ≡ true → a ≢ 0
ne_zero-of_has a [] d h = ground arith
ne_zero-of_has a (x ∷ xs) (p, q, d) h = ground (arith, ne_zero-of_has a xs d)

pub not-has-zero : (xs : List ℕ) → Distinct xs → has 0 xs ≡ false
not-has-zero [] d = refl
not-has-zero (x ∷ xs) (p, q, d) = ground (arith, not-has-zero xs d)

pub has_of_erase : (a b : ℕ) (xs : List ℕ) → has a (erase b xs) ≡ true → has a xs ≡ true
has_of_erase a b [] h = h
has_of_erase a b (x ∷ xs) h = ground (arith, has_of_erase a b xs)

pub erase_none : (a : ℕ) (xs : List ℕ) → has a xs ≡ false → erase a xs ≡ xs
erase_none a [] h = refl
erase_none a (x ∷ xs) h = ground (arith, erase_none a xs)
