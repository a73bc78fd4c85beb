-- ===== src/Vfs/Rounds.antt =====
-- kernel/src/fs/vfs/vfs.c: the loop over the components of a path, and what it
-- leaves in the static pointer of `strtok`.
use lapis.Base.{
  ℕ, zero, suc, ◌<◌, ◌≡◌, refl, sym, ◌∙◌, subst, Bool, true, false, not, inl, inr, Option, some,
  ◌==◌, if◌then◌else◌, length, ℤ, pos, Bool-cases, arith,
}
use lapis.Vfs.{Str, Cursor, unset, inside, free_path, State, is_dir, lookup, vnode_ref, vnode_unref}
use lapis.Vfs.Lookup.{FsOps, cross, on_world, step, walk, below_root}
use lapis.Kfile.{is_eok}
use lapis.Vfs.Tokens.{todo, skip_le, ends_slash, Ending, spent, left, strtok-Moved}
use lapis.Vfs.Outcome.{
  After, After-unset, After-free, cross-rest, Outcome, Follows, Outcome-some, Outcome-bind,
  Outcome-of, Outcome-after,
}

module _ {ℓ} {F : Type ℓ} (ops : FsOps F) where
  -- What a step does with the vnode that the link leads to.
  step_rest :
      (P : Cursor → Type 0) (current next' : ℕ) (r : ℤ) (v : ℕ) (s : State F)
      → s.list_locked ≡ false
      → (is_eok r ≡ true → P s.next)
      → Outcome P (
          if not (is_eok r)
          then some (r, 0, on_world (λ w. vnode_unref current (vnode_unref next' w)) s)
          else if v == next'
          then some (pos 0, v, on_world (vnode_unref current) s)
          else some
              (pos 0, v, on_world (λ w. vnode_unref current (vnode_ref v (vnode_unref next' w))) s))
  unfolding on_world
  step_rest P current next' r v s u t = elim (Bool-cases (is_eok r)) [
    | inr e ↦ rw e (Outcome-some P _ _ _ u t)
    | inl e ↦ elim (Bool-cases (v == next')) [
      | inl e2 ↦ rw (e, e2) (Outcome-some P _ _ _ u (λ _. t e))
      | inr e2 ↦ rw (e, e2) (Outcome-some P _ _ _ u (λ _. t e))
    ]
  ]

  step-Outcome :
      (strict : Bool) (follow : ℕ → State F → Option (ℤ × ℕ × State F))
      → Follows strict follow
      → (current : ℕ) (name : Str) (s : State F) → s.list_locked ≡ false
      → Outcome (After strict s.next) (step ops follow current name s)
  unfolding step on_world
  step-Outcome strict follow f current name s u =
      let (r, next, w) = ops.operate lookup current name 0 s.world in
      let (next', s2) = cross next (record s { world = w }) in
      let P = After strict s.next in
      let c = cross-rest next (record s { world = w }) in
      elim (Bool-cases (is_dir (s.world.vnodes current).vtype)) [
        | inr e ↦ rw (step, e) (Outcome-some P _ _ _ u (λ _. inl refl))
        | inl e ↦ elim (Bool-cases ((s.world.vnodes current).provides lookup)) [
          | inr e2 ↦ rw (step, e, e2) (Outcome-some P _ _ _ u (λ _. inl refl))
          | inl e2 ↦ elim (Bool-cases (is_eok r)) [
            | inr e3 ↦ rw (step, e, e2, e3) (Outcome-some P _ _ _ u (λ _. inl refl))
            | inl e3 ↦
                rw (step, e, e2, e3)
                  (Outcome-bind P P (follow next' s2) _
                    (subst (λ x. Outcome (After strict x) (follow next' s2)) c.0
                      (f next' s2 (c.1 ∙ u)))
                    (step_rest P current next'))
          ]
        ]
      ]

  -- The loop over the components ends, and what it leaves in the pointer.
  walk-Outcome :
      (strict : Bool) (follow : ℕ → State F → Option (ℤ × ℕ × State F))
      → Follows strict follow
      → (b : Bool) (fuel current : ℕ) (s : State F) → s.list_locked ≡ false
      → Ending b s.next
      → todo s.next < fuel
      → Outcome (After strict (spent b)) (walk ops follow fuel current s)
  unfolding walk
  walk-Outcome strict follow f b zero current s u d h = absurd (omega arith)
  walk-Outcome strict follow f b (suc n) current s u d h = elim (strtok-Moved b s.next d) [
    | inl e ↦ rw (walk, e) (Outcome-some (After strict (spent b)) _ _ _ u (λ _. inl refl))
    | inr (t, m, e, g, l) ↦
        rw (walk, e)
          (Outcome-bind (After strict m) (After strict (spent b)) _ _
            (step-Outcome strict follow f current t (record s { next = m }) u)
            (λ r v s2 u2 k. Outcome-after (After strict (spent b)) r v s2 _ u2 (λ e2. elim (k e2) [
              | inl q ↦
                  walk-Outcome strict follow f b n v s2 u2 (subst (Ending b) (sym q) g)
                    (subst (λ x. todo x < n) (sym q) (omega arith))
              | inr (z, q) ↦
                  Outcome-of (After strict unset) (After strict (spent b)) _
                    (λ x y. After-unset strict (spent b) x z y)
                    (walk-Outcome strict follow f false n v s2 u2
                      (subst (Ending false) (sym q) refl)
                      (subst (λ x. todo x < n) (sym q) (omega arith)))
            ])))
  ]

  pub below_root-Outcome :
      (strict : Bool) (follow : ℕ → State F → Option (ℤ × ℕ × State F))
      → Follows strict follow
      → (vfs : ℕ) (rel : Str) (s : State F) → s.list_locked ≡ false
      → Outcome (After strict (left (ends_slash rel))) (below_root ops follow vfs rel s)
  unfolding below_root on_world
  below_root-Outcome strict follow f vfs rel s u =
      let root = (s.world.fss vfs).root_vnode in
      let c = cross-rest root (record s { world = vnode_ref root s.world }) in
      let P = After strict (left (ends_slash rel)) in
      elim (Bool-cases (root == 0)) [
        | inl e ↦ rw (below_root, e) (Outcome-some P _ _ _ u (λ e. absurd (ground (arith, e))))
        | inr e ↦
            rw (below_root, e)
              (Outcome-bind (After strict (spent (ends_slash rel))) P _ _
                (walk-Outcome strict follow f (ends_slash rel) (suc (length rel)) _
                  (record ((cross root (record s { world = vnode_ref root s.world })).1) {
                    next = inside rel;
                  })
                  (c.1 ∙ u) refl (omega (arith, skip_le rel)))
                (λ r v s2 u2 k.
                  Outcome-some P r v (record s2 { next = free_path s2.next }) u2
                    (λ h. After-free strict (ends_slash rel) s2.next (k h))))
      ]
