-- ===== src/Memory/Strings.antt =====
-- Strings end at their first zero byte.
use lapis.Base.{
  ℕ, suc, ◌+◌, ◌≤◌, ◌≡◌, refl, ◌≢◌, sym, ◌∙◌, some, List, [], ◌∷◌, arith, length, put, test_ne,
}
use lapis.Memory.{Bytes, strlen, strcpy, memcpy, copy_up}

-- The string of these bytes lies at the address.
abbrev pub StringAt : Bytes → ℕ → List ℕ → Type 0
StringAt mem p [] = mem p ≡ 0
StringAt mem p (x ∷ xs) = (x ≢ 0) × (mem p ≡ x) × StringAt mem (suc p) xs

-- With fuel for its length and the final zero, `strlen` gives the length of a string.
pub strlen-length :
    (p : ℕ) (xs : List ℕ) (mem : Bytes)
    → StringAt mem p xs
    → strlen (suc (length xs)) p mem ≡ some (length xs)
unfolding strlen
strlen-length p [] mem e = rw e refl
strlen-length p (x ∷ xs) mem (z, e, r) = rw (e, test_ne x 0 z, strlen-length (suc p) xs mem r) refl

StringAt-put :
    (mem : Bytes) (q v p : ℕ) (xs : List ℕ)
    → ((j : ℕ) → j ≤ length xs → p + j ≢ q)
    → StringAt mem p xs
    → StringAt (put mem q v) p xs
unfolding put
StringAt-put mem q v p [] h e = rw (test_ne p q (λ w. h 0 (omega arith) (plain w))) e
  where
    plain : p ≡ q → p + 0 ≡ q
    plain w = omega arith
StringAt-put mem q v p (x ∷ xs) h (z, e, r) = (
  z,
  rw (test_ne p q (λ w. h 0 (omega arith) (plain w))) e,
  StringAt-put mem q v (suc p) xs (λ j k w. h (suc j) (up k) (shift j w)) r,
)
  where
    plain : p ≡ q → p + 0 ≡ q
    plain w = omega arith

    up : {j n : ℕ} → j ≤ n → suc j ≤ suc n
    up k = omega arith

    shift : (j : ℕ) → suc p + j ≡ q → p + suc j ≡ q
    shift j w = omega arith

-- With fuel for its length and the final zero, `strcpy` copies a string with its final zero, if the
-- copy does not write to the string.
pub strcpy-memcpy :
    (d s : ℕ) (xs : List ℕ) (mem : Bytes)
    → StringAt mem s xs
    → ((j : ℕ) → j ≤ length xs → s + j ≢ d)
    → strcpy (suc (length xs)) d s mem ≡ some (memcpy d s (suc (length xs)) mem)
unfolding strcpy memcpy copy_up
strcpy-memcpy d s [] mem e h = rw (e) refl
strcpy-memcpy d s (x ∷ xs) mem (z, e, r) h = rw (test_ne (mem s) 0 (λ w. z (sym e ∙ w))) (
    strcpy-memcpy (suc d) (suc s) xs (put mem d (mem s))
      (StringAt-put mem d (mem s) (suc s) xs (λ j k w. h (suc j) (up k) (shift j w)) r)
      (λ j k w. h j (weaker k) (lower j w)))
  where
    up : {j n : ℕ} → j ≤ n → suc j ≤ suc n
    up k = omega arith

    weaker : {j n : ℕ} → j ≤ n → j ≤ suc n
    weaker k = omega arith

    shift : (j : ℕ) → suc s + j ≡ d → s + suc j ≡ d
    shift j w = omega arith

    lower : (j : ℕ) → suc s + j ≡ suc d → s + j ≡ d
    lower j w = omega arith
