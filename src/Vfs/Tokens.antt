-- ===== src/Vfs/Tokens.antt =====
-- `strtok` of kernel/src/util/memory.c: what it finds in a path, and where it stops.
use lapis.Base.{
  ℕ, zero, suc, ◌≤◌, ◌<◌, ◌≡◌, refl, sym, ◌∙◌, ap, subst, Bool, true, false, ◌⊎◌, inl, inr, some,
  none, [], ◌∷◌, ◌==◌, length, Bool-cases, arith,
}
use lapis.Vfs.{Str, Cursor, unset, inside, dangling, slash, skip, drop, token, strtok}

-- How much of the path the next call of `strtok` still has.
abbrev pub todo : Cursor → ℕ
todo unset = 0
todo (inside s) = length (skip s)
todo dangling = 0

-- The last byte is a slash, or there is none.
abbrev pub ends_slash : Str → Bool
ends_slash [] = true
ends_slash (c ∷ []) = c == slash
ends_slash (c ∷ (d ∷ cs)) = ends_slash (d ∷ cs)

-- The pointer stands in a path that ends with a slash, or in one that does not: then it is NULL once
-- the last token has been found.
abbrev pub Ending : Bool → Cursor → Type 0
Ending b unset = b ≡ false
Ending b (inside s) = ends_slash s ≡ b
Ending b dangling = ⊥

-- Where it stands when nothing is left.
abbrev pub spent : Bool → Cursor
spent true = inside []
spent false = unset

pub skip_le : (s : Str) → length (skip s) ≤ length s
unfolding skip
skip_le [] = omega arith
skip_le (c ∷ cs) = ground (arith, skip_le cs)

token_le : (s : Str) → todo (token s).1 ≤ length s
unfolding token
token_le [] = omega arith
token_le (c ∷ cs) = ground (arith, skip_le cs, token_le cs)

-- What is left to find is nothing, or it starts with a byte that is not a slash. The end of the path
-- is the same.
pub skip-cases :
    (s : Str)
    → ((skip s ≡ []) × (ends_slash s ≡ true))
      ⊎ ((c : ℕ) × (cs : Str) × (skip s ≡ c ∷ cs)
          × ((c == slash) ≡ false)
          × (ends_slash (c ∷ cs) ≡ ends_slash s))
unfolding skip
skip-cases [] = inl (refl, refl)
skip-cases (c ∷ []) = elim (Bool-cases (c == slash)) [
  | inl e ↦ inl (rw e refl, e)
  | inr e ↦ inr (c, [], rw e refl, e, refl)
]
skip-cases (c ∷ (d ∷ cs)) = elim (Bool-cases (c == slash)) [
  | inl e ↦ rw e (skip-cases (d ∷ cs))
  | inr e ↦ inr (c, d ∷ cs, rw e refl, e, refl)
]

token_lt : (c : ℕ) (cs : Str) → (c == slash) ≡ false → todo (token (c ∷ cs)).1 ≤ length cs
unfolding token
token_lt c cs e = rw e (token_le cs)

token-Ending :
    (c : ℕ) (cs : Str) → (c == slash) ≡ false → Ending (ends_slash (c ∷ cs)) (token (c ∷ cs)).1
unfolding token
token-Ending c [] e = rw (token, e) refl
token-Ending c (d ∷ []) e = elim (Bool-cases (d == slash)) [
  | inl f ↦ rw (token, e, f) refl
  | inr f ↦ rw (token, e, f) refl
]
token-Ending c (d ∷ (x ∷ xs)) e = elim (Bool-cases (d == slash)) [
  | inl f ↦ rw (token, e, f) refl
  | inr f ↦ rw (token, e) (token-Ending d (x ∷ xs) f)
]

-- A call at a path that has not been freed: nothing is left, or there is a token, and less is left
-- behind it.
abbrev pub Moved : Bool → Cursor → Type 0
Moved b n =
    (strtok n ≡ some (none, spent b))
    ⊎ ((t : Str) × (n' : Cursor) × (strtok n ≡ some (some t, n'))
        × Ending b n'
        × (todo n' < todo n))

pub strtok-Moved : (b : Bool) (n : Cursor) → Ending b n → Moved b n
unfolding strtok
strtok-Moved b unset e = inl (rw e refl)
strtok-Moved b dangling e = elim e [ ]
strtok-Moved b (inside s) e = elim (skip-cases s) [
  | inl (h, k) ↦ inl (rw (strtok, h, sym e, k) refl)
  | inr (c, cs, h, f, k) ↦ inr (
    (token (c ∷ cs)).0,
    (token (c ∷ cs)).1,
    rw (strtok, h) refl,
    subst (λ b. Ending b (token (c ∷ cs)).1) (k ∙ e) (token-Ending c cs f),
    rw h (omega (arith, token_lt c cs f)),
  )
]

-- What a lookup leaves of the path that it has walked, and freed: NULL if the path does not end with
-- a slash, and else a pointer into freed memory.
abbrev pub left : Bool → Cursor
left true = dangling
left false = unset

pub ends_slash-drop : (n : ℕ) (s : Str) → (drop n s ≡ []) ⊎ (ends_slash (drop n s) ≡ ends_slash s)
unfolding drop
ends_slash-drop zero s = inr refl
ends_slash-drop (suc n) [] = inl refl
ends_slash-drop (suc n) (c ∷ []) = inl (drop_nil n)
  where
    drop_nil : (n : ℕ) → drop n [] ≡ []
    drop_nil zero = refl
    drop_nil (suc n) = refl
ends_slash-drop (suc n) (c ∷ (d ∷ cs)) = ends_slash-drop n (d ∷ cs)

-- The rest of a path that does not end with a slash does not end with one either.
pub ends_slash-rest :
    (n c : ℕ) (cs s : Str)
    → ends_slash s ≡ false
    → skip (drop n s) ≡ c ∷ cs
    → ends_slash (c ∷ cs) ≡ false
unfolding skip
ends_slash-rest n c cs s e q = elim (skip-cases (drop n s)) [
  | inl (h, _) ↦ absurd (ground (arith, ap length (sym h ∙ q)))
  | inr (d, ds, h, _, k) ↦ elim (ends_slash-drop n s) [
    | inl z ↦ absurd (ground (arith, ap length (sym q ∙ ap skip z)))
    | inr z ↦ subst (λ x. ends_slash x ≡ false) (sym h ∙ q) (k ∙ z ∙ e)
  ]
]
