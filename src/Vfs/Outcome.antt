-- ===== src/Vfs/Outcome.antt =====
-- Lookups of kernel/src/fs/vfs/vfs.c, and what they leave in the static pointer of `strtok`.
use lapis.Base.{
  ℕ, zero, suc, ◌≡◌, refl, Bool, true, false, ◌⊎◌, inl, inr, Option, some, ◌==◌, ◌>>=◌,
  if◌then◌else◌, ℤ, pos, negsuc, Bool-cases, arith,
}
use lapis.Vfs.{Cursor, unset, State, free_path}
use lapis.Vfs.Lookup.{cross, on_world, stay}
use lapis.Kfile.{is_eok}
use lapis.Vfs.Tokens.{spent, left}

-- The pointer is the one before, or, if that may be (`strict` is false), NULL.
abbrev pub After : (strict : Bool) → (before now : Cursor) → Type 0
After strict n m = (m ≡ n) ⊎ ((strict ≡ false) × (m ≡ unset))

pub After-unset :
    (strict : Bool) (n m : Cursor) → strict ≡ false → After strict unset m → After strict n m
After-unset strict n m e (inl h) = inr (e, h)
After-unset strict n m e (inr h) = inr h

pub After-free :
    (strict b : Bool) (m : Cursor) → After strict (spent b) m → After strict (left b) (free_path m)
unfolding free_path
After-free strict true m (inl h) = inl (rw h refl)
After-free strict false m (inl h) = inl (rw h refl)
After-free strict b m (inr (e, h)) = inr (e, rw h refl)

module _ {ℓ} {F : Type ℓ} where
  pub cross-rest :
      (v : ℕ) (s : State F)
      → ((cross v s).1.next ≡ s.next) × ((cross v s).1.list_locked ≡ s.list_locked)
  unfolding cross on_world
  cross-rest v s = elim (Bool-cases ((s.world.vnodes v).vfs_here == 0)) [
    | inl e ↦ rw e (refl, refl)
    | inr e ↦ rw e (refl, refl)
  ]

  -- The outcome of a lookup: the list is unlocked, and after a success the pointer is such.
  abbrev pub Outcome : (Cursor → Type 0) → Option (ℤ × ℕ × State F) → Type ℓ
  Outcome P o =
      (r : ℤ) × (v : ℕ) × (s : State F) × (o ≡ some (r, v, s))
      × (s.list_locked ≡ false)
      × (is_eok r ≡ true → P s.next)

  abbrev pub Follows : (strict : Bool) → (ℕ → State F → Option (ℤ × ℕ × State F)) → Type ℓ
  Follows strict follow =
      (v : ℕ) (s : State F) → s.list_locked ≡ false → Outcome (After strict s.next) (follow v s)

  pub Outcome-some :
      (P : Cursor → Type 0) (r : ℤ) (v : ℕ) (s : State F)
      → s.list_locked ≡ false
      → (is_eok r ≡ true → P s.next)
      → Outcome P (some (r, v, s))
  Outcome-some P r v s u t = (r, v, s, refl, u, t)

  pub Outcome-if :
      (P : Cursor → Type 0) (b : Bool) (x y : Option (ℤ × ℕ × State F))
      → Outcome P x
      → (b ≡ false → Outcome P y)
      → Outcome P (if b then x else y)
  Outcome-if P true x y p q = p
  Outcome-if P false x y p q = q refl

  pub Outcome-bind :
      (P Q : Cursor → Type 0) (o : Option (ℤ × ℕ × State F))
      (k : ℤ × ℕ × State F → Option (ℤ × ℕ × State F))
      → Outcome P o
      → ((r : ℤ) (v : ℕ) (s : State F)
          → s.list_locked ≡ false
          → (is_eok r ≡ true → P s.next)
          → Outcome Q (k (r, v, s)))
      → Outcome Q (o >>= k)
  Outcome-bind P Q o k (r, v, s, e, u, t) f = rw e (f r v s u t)

  pub Outcome-of :
      (P Q : Cursor → Type 0) (o : Option (ℤ × ℕ × State F))
      → ((m : Cursor) → P m → Q m)
      → Outcome P o
      → Outcome Q o
  Outcome-of P Q o f (r, v, s, e, u, t) = (r, v, s, e, u, λ h. f s.next (t h))

  -- A failure ends the walk.
  pub Outcome-after :
      (P : Cursor → Type 0) (r : ℤ) (v : ℕ) (s : State F) (o : Option (ℤ × ℕ × State F))
      → s.list_locked ≡ false
      → (is_eok r ≡ true → Outcome P o)
      → Outcome P (elim r [
        | pos zero ↦ o
        | pos (suc k) ↦ some (pos (suc k), 0, s)
        | negsuc k ↦ some (negsuc k, 0, s)
      ])
  Outcome-after P (pos zero) v s o u p = p refl
  Outcome-after P (pos (suc k)) v s o u p = Outcome-some P _ _ _ u (λ e. absurd (ground (arith, e)))
  Outcome-after P (negsuc k) v s o u p = Outcome-some P _ _ _ u (λ e. absurd (ground (arith, e)))

  pub Outcome-stay : Follows true (stay {F = F})
  unfolding stay
  Outcome-stay v s u = (pos 0, v, s, refl, u, λ _. inl refl)
