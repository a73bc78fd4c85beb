-- ===== src/Memory/Copy.antt =====
-- The copies copy, whether the areas overlap or not.
use lapis.Base.{
  ℕ, zero, suc, ◌+◌, ◌-◌, ◌<◌, ◌≤◌, ◌≡◌, refl, ◌≢◌, sym, ap, ◌∙◌, true, false, ◌==◌, ◌&&◌,
  if◌then◌else◌, arith, ltb, leb, put, Bool-cases, inl, inr, pos, eq_of_test, test_ne, ◌⊎◌,
  lt_of_test,
}
use lapis.Memory.{Bytes, copy_up, copy_down, memcpy, memmove, memcmp}

-- The memory whose `n` bytes from `dest` on are those from `src` on.
abbrev pub moved : (dest src n : ℕ) → Bytes → Bytes
moved dest src n mem q = if leb dest q && ltb q (dest + n) then mem (src + (q - dest)) else mem q

copy_up_lem :
    (n d s q : ℕ) (mem : Bytes)
    → ((j : ℕ) → j < n → s + j ≢ d)
    → copy_up n d s mem q ≡ moved d s n mem q
unfolding copy_up put
copy_up_lem zero d s q mem h = ground arith
copy_up_lem (suc n) d s q mem h =
    copy_up_lem n (suc d) (suc s) q (put mem d (mem s)) (λ j k e. h j (omega arith) (omega arith))
    ∙ step (Bool-cases (q == d))
  where
    index : leb (suc d) q ≡ true → suc s + (q - suc d) ≡ s + (q - d)
    index k = ground arith

    apart : leb (suc d) q ≡ true → ltb q (suc d + n) ≡ true → (s + (q - d) == d) ≡ false
    apart k l = test_ne (s + (q - d)) d (h (q - d) (ground arith))

    at_start : q ≡ d → mem s ≡ mem (s + (q - d))
    at_start e = ap mem (plus_none e)
      where
        plus_none : q ≡ d → s ≡ s + (q - d)
        plus_none e = omega arith

    step :
        ((q == d) ≡ true) ⊎ ((q == d) ≡ false)
        → moved (suc d) (suc s) n (put mem d (mem s)) q ≡ moved d s (suc n) mem q
    step (inl e) = rw e (ground (arith, at_start (eq_of_test q d e)))
    step (inr e) = elim (Bool-cases (leb (suc d) q && ltb q (suc d + n))) [
      | inl w ↦ rw (w, index (ground arith), apart (ground arith) (ground arith)) (ground arith)
      | inr w ↦ rw (w, e) (ground arith)
    ]

copy_down_lem : (n d s q : ℕ) (mem : Bytes) → s < d → copy_down n d s mem q ≡ moved d s n mem q
unfolding copy_down put
copy_down_lem zero d s q mem k = ground arith
copy_down_lem (suc n) d s q mem k =
    copy_down_lem n d s q (put mem (d + n) (mem (s + n))) k ∙ step (Bool-cases (q == d + n))
  where
    apart : ltb q (d + n) ≡ true → leb d q ≡ true → (s + (q - d) == d + n) ≡ false
    apart l m = ground arith

    at_end : q ≡ d + n → mem (s + n) ≡ mem (s + (q - d))
    at_end e = ap mem (last e)
      where
        last : q ≡ d + n → s + n ≡ s + (q - d)
        last e = omega arith

    step :
        ((q == d + n) ≡ true) ⊎ ((q == d + n) ≡ false)
        → moved d s n (put mem (d + n) (mem (s + n))) q ≡ moved d s (suc n) mem q
    step (inl e) = rw e (ground (arith, at_end (eq_of_test q (d + n) e)))
    step (inr e) = elim (Bool-cases (leb d q && ltb q (d + n))) [
      | inl w ↦ rw (w, apart (ground arith) (ground arith)) (ground arith)
      | inr w ↦ rw (w, e) (ground arith)
    ]

-- Moving `n` bytes gives every byte of the destination the byte that the source had before, and
-- leaves the rest of the memory, wherever the two areas lie.
pub memmove_lem : (d s n q : ℕ) (mem : Bytes) → memmove d s n mem q ≡ moved d s n mem q
unfolding memmove
memmove_lem d s n q mem = elim (Bool-cases (ltb d s)) [
  | inl e ↦ rw e (copy_up_lem n d s q mem (λ j k w. behind j (lt_of_test d s e) w))
  | inr e ↦ elim (Bool-cases (ltb s d)) [
    | inl f ↦ rw (e, f) (copy_down_lem n d s q mem (lt_of_test s d f))
    | inr f ↦ rw (e, f) (in_place (same e f))
  ]
]
  where
    behind : (j : ℕ) → d < s → s + j ≡ d → ⊥
    behind j k w = omega arith

    same : ltb d s ≡ false → ltb s d ≡ false → s ≡ d
    same e f = ground arith

    index : s ≡ d → leb d q ≡ true → s + (q - d) ≡ q
    index e k = ground arith

    in_place : s ≡ d → mem q ≡ moved d s n mem q
    in_place e = elim (Bool-cases (leb d q && ltb q (d + n))) [
      | inl w ↦ rw (w, index e (ground arith)) refl
      | inr w ↦ rw w refl
    ]

-- Copying `n` bytes between areas that do not overlap is moving them.
pub memcpy-memmove :
    (d s n q : ℕ) (mem : Bytes)
    → (d + n ≤ s) ⊎ (s + n ≤ d)
    → memcpy d s n mem q ≡ memmove d s n mem q
unfolding memcpy
memcpy-memmove d s n q mem h =
    copy_up_lem n d s q mem (λ j k e. apart h k e) ∙ sym (memmove_lem d s n q mem)
  where
    apart : {j : ℕ} → (d + n ≤ s) ⊎ (s + n ≤ d) → j < n → s + j ≡ d → ⊥
    apart (inl a) k e = omega arith
    apart (inr a) k e = omega arith

-- A comparison gives 0 just for equal areas.
pub memcmp-equal :
    (s1 s2 n : ℕ) (mem : Bytes)
    → memcmp s1 s2 n mem ≡ pos 0
    → (i : ℕ) → i < n
    → mem (s1 + i) ≡ mem (s2 + i)
unfolding memcmp
memcmp-equal s1 s2 zero mem e i k = omega arith
memcmp-equal s1 s2 (suc n) mem e zero k = ground arith
memcmp-equal s1 s2 (suc n) mem e (suc i) k =
    ap mem (shift s1)
    ∙ memcmp-equal (suc s1) (suc s2) n mem (ground arith) i (omega arith)
    ∙ ap mem (sym (shift s2))
  where
    shift : (p : ℕ) → p + suc i ≡ suc p + i
    shift p = omega arith
