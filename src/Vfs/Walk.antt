-- ===== src/Vfs/Walk.antt =====
-- kernel/src/fs/vfs/vfs.c: lookups return, and what they leave in the static pointer of `strtok`.
use lapis.Base.{
  ℕ, ◌≡◌, refl, sym, ◌∙◌, subst, Bool, true, false, ◌⊎◌, inl, inr, Option, some, none, [], ◌∷◌,
  ◌==◌, if◌then◌else◌, leb, ℤ, pos, negsuc, Bool-cases, arith, some_inj,
}
use lapis.Vfs.{
  Str, Cursor, skip, State, matched, drop, allocate, acquire, release, vfs_resolve_mount,
}
use lapis.Vfs.Lookup.{FsOps, on_world, stay, at_root, below_root, lookup_with}
use lapis.Vfs.Tokens.{ends_slash, left}
use lapis.Vfs.Outcome.{After, Outcome, Follows, Outcome-some, Outcome-if, Outcome-of, Outcome-stay}
use lapis.Vfs.Rounds.{below_root-Outcome}

module _ {ℓ} {F : Type ℓ} (ops : FsOps F) where
  -- A path is resolved unless the list of file systems is locked.
  resolve-unlocked :
      (path : Str) (s : State F)
      → s.list_locked ≡ false
      → (r : ℤ) × (vfs : ℕ) × (rel : Option Str) × (t : State F) × (n : ℕ) × (vfs_resolve_mount path
            s
          ≡ some (r, vfs, rel, t))
        × (t.list_locked ≡ false)
        × (t.next ≡ s.next)
        × ((rel ≡ none) ⊎ (rel ≡ some (skip (drop n path))))
  unfolding vfs_resolve_mount acquire release
  resolve-unlocked path s u =
      let (best, best_len) = matched s.world path s.vfs_list in
      let (ok, w) = allocate s.world in
      let t : State F = record s { list_locked = false } in
      let rel : Option Str = if ok then some (skip (drop best_len path)) else none in
      elim (Bool-cases (best == 0)) [
        | inl e ↦ (
          negsuc 1,
          0,
          none,
          t,
          0,
          rw (vfs_resolve_mount, acquire, u, e) refl,
          refl,
          refl,
          inl refl,
        )
        | inr e ↦ (
          pos 0,
          best,
          rel,
          record t { world = w },
          best_len,
          rw (vfs_resolve_mount, acquire, u, e) refl,
          refl,
          refl,
          elim (Bool-cases ok) [ inl k ↦ inr (rw k refl) | inr k ↦ inl (rw k refl) ],
        )
      ]

  resolved-Outcome :
      (P : Cursor → Type 0) (strict : Bool) (follow : ℕ → State F → Option (ℤ × ℕ × State F))
      → Follows strict follow
      → (vfs : ℕ) (rel : Option Str) (s : State F) → s.list_locked ≡ false
      → P s.next
      → ((c : ℕ) (cs : Str)
          → rel ≡ some (c ∷ cs)
          → (m : Cursor) → After strict (left (ends_slash (c ∷ cs))) m
          → P m)
      → Outcome P (elim rel [
        | none ↦ some (at_root ops vfs s)
        | some [] ↦ some (at_root ops vfs s)
        | some (c ∷ cs) ↦ below_root ops follow vfs (c ∷ cs) s
      ])
  unfolding at_root on_world
  resolved-Outcome P strict follow f vfs none s u p q = Outcome-some P _ _ _ u (λ _. p)
  resolved-Outcome P strict follow f vfs (some []) s u p q = Outcome-some P _ _ _ u (λ _. p)
  resolved-Outcome P strict follow f vfs (some (c ∷ cs)) s u p q =
      Outcome-of (After strict (left (ends_slash (c ∷ cs)))) P _ (q c cs refl)
        (below_root-Outcome ops strict follow f vfs (c ∷ cs) s u)

  -- The pointer is as it was, or it is what is left of the rest of the path.
  lookup_with-Outcome :
      (P : Cursor → Type 0) (strict : Bool) (follow : ℕ → State F → Option (ℤ × ℕ × State F))
      → Follows strict follow
      → (path : Str) (depth : ℕ) (s : State F) → s.list_locked ≡ false
      → P s.next
      → ((n c : ℕ) (cs : Str)
          → skip (drop n path) ≡ c ∷ cs
          → (m : Cursor) → After strict (left (ends_slash (c ∷ cs))) m
          → P m)
      → Outcome P (lookup_with ops follow path depth s)
  unfolding lookup_with
  lookup_with-Outcome P strict follow f path depth s u p q =
      let (r, vfs, rel, t, n, e, u2, k, g) = resolve-unlocked path s u in
      let p2 : P t.next = subst P (sym k) p in
      elim (Bool-cases (leb 10 depth)) [
        | inl d ↦ rw (lookup_with, d) (Outcome-some P _ _ _ u (λ _. p))
        | inr d ↦
            rw (lookup_with, d, e)
              (Outcome-if P _ _ _ (Outcome-some P _ _ _ u2 (λ _. p2)) (λ _.
                resolved-Outcome P strict follow f vfs rel t u2 p2
                  (λ c cs z. q n c cs (rest rel n c cs g z))))
      ]
    where
      rest :
          (rel : Option Str) (n c : ℕ) (cs : Str)
          → (rel ≡ none) ⊎ (rel ≡ some (skip (drop n path)))
          → rel ≡ some (c ∷ cs)
          → skip (drop n path) ≡ c ∷ cs
      rest rel n c cs (inl a) z = absurd (ground (arith, sym a ∙ z))
      rest rel n c cs (inr a) z = some_inj.0 (sym a ∙ z)

  -- A lookup that follows no link returns.
  pub stay-Outcome :
      (path : Str) (depth : ℕ) (s : State F)
      → s.list_locked ≡ false
      → Outcome (λ _. Unit {0}) (lookup_with ops stay path depth s)
  stay-Outcome path depth s u =
      lookup_with-Outcome (λ _. Unit {0}) true stay Outcome-stay path depth s u tt
        (λ _ _ _ _ _ _. tt)
