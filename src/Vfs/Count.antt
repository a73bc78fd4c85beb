-- ===== src/Vfs/Count.antt =====
-- kernel/src/fs/vfs/vfs.c: the references that a lookup takes and gives back.
use lapis.Base.{
  ℕ, zero, suc, ◌<◌, ◌≡◌, sym, ◌∙◌, ap, subst, true, false, ◌⊎◌, inl, inr, Option, some, none, [],
  ◌∷◌, ◌==◌, if◌then◌else◌, leb, length, mod32, ℤ, Bool-cases, Option-cases, test_self,
}
use lapis.Vfs.{
  Str, inside, strtok, World, State, is_dir, lookup, vnode_ref, vnode_unref, vfs_resolve_mount,
}
use lapis.Vfs.Lookup.{
  FsOps, cross, on_world, step, walk, stay, at_root, below_root, lookup_with, vfs_lookup_internal,
}
use lapis.Vfs.Walk.{stay-Outcome}
use lapis.Kfile.{is_eok}
use lapis.Vfs.Refs.{
  inc, got, inc_zero, count, count-ref, Held, Added, Taken, Taken-bind, give_back, give_back_first,
  Taken-after, cross-Held, Kept, resolve-Kept,
}

-- What the lookups rely on in the file systems: `lookup` gives a vnode with a new reference, and
-- takes none when it fails.
pub record Refers {ℓ} {F : Type ℓ} (ops : FsOps F) : Type ℓ where
  pub found :
      (v : ℕ) (name : Str) (w : World F)
      → is_eok (ops.operate lookup v name 0 w).0 ≡ true
      → (a : ℕ)
      → count (ops.operate lookup v name 0 w).2 a
        ≡ inc (ops.operate lookup v name 0 w).1 a (count w a)
  pub failed :
      (v : ℕ) (name : Str) (w : World F)
      → is_eok (ops.operate lookup v name 0 w).0 ≡ false
      → (a : ℕ) → count (ops.operate lookup v name 0 w).2 a ≡ count w a

module _ {ℓ} {F : Type ℓ} (ops : FsOps F) (law : Refers ops) where
  step-Taken :
      (c : ℕ → ℕ) (current : ℕ) (name : Str) (s : State F)
      → Held c current s.world
      → Taken c (step ops stay current name s)
  unfolding step stay on_world
  step-Taken c current name s h =
      let (r, next, w) = ops.operate lookup current name 0 s.world in
      elim (Bool-cases (is_dir (s.world.vnodes current).vtype)) [
        | inr e ↦ rw (step, e) (give_back c current s.world h)
        | inl e ↦ elim (Bool-cases ((s.world.vnodes current).provides lookup)) [
          | inr e2 ↦ rw (step, e, e2) (give_back c current s.world h)
          | inl e2 ↦ elim (Bool-cases (is_eok r)) [
            | inr e3 ↦
                let k =
                  give_back c current w (λ a l. law.failed current name s.world e3 a ∙ h a l) in
                rw (step, e, e2, e3)
                  (subst (λ b. Held c (if b then 0 else 0) (vnode_unref current w)) (sym e3) k)
            | inl e3 ↦
                let k =
                  cross-Held c next current (record s { world = w })
                    (λ a l. law.found current name s.world e3 a ∙ ap (inc next a) (h a l)) in
                let next' = (cross next (record s { world = w })).0 in
                let s2 = (cross next (record s { world = w })).1 in
                rw (step, e, e2, e3, stay, test_self next')
                  (give_back_first c current next' s2.world k)
          ]
        ]
      ]

  walk-Taken :
      (c : ℕ → ℕ) (fuel current : ℕ) (s : State F)
      → Held c current s.world
      → Taken c (walk ops stay fuel current s)
  unfolding walk
  walk-Taken c zero current s h = tt
  walk-Taken c (suc n) current s h = elim (Option-cases (strtok s.next)) [
    | inl e ↦ rw (walk, e) tt
    | inr ((none, m), e) ↦ rw (walk, e) h
    | inr ((some t, m), e) ↦
        rw (walk, e)
          (Taken-bind c (step ops stay current t (record s { next = m })) _
            (step-Taken c current t (record s { next = m }) h)
            (λ r v s2 k. Taken-after c r v s2 _ k (λ k2. walk-Taken c n v s2 k2)))
  ]

  below_root-Taken :
      (c : ℕ → ℕ) (vfs : ℕ) (rel : Str) (s : State F)
      → ((a : ℕ) → c a < mod32 → count s.world a ≡ c a)
      → Taken c (below_root ops stay vfs rel s)
  unfolding below_root on_world
  below_root-Taken c vfs rel s q =
      let root = (s.world.fss vfs).root_vnode in
      let s1 : State F = record s { world = vnode_ref root s.world } in
      elim (Bool-cases (root == 0)) [
        | inl e ↦ rw (below_root, e) (λ a l. q a l ∙ sym (inc_zero a (c a)))
        | inr e ↦
            let u : ℕ = 0 in
            let h : (a : ℕ) → c a < mod32 → count s1.world a ≡ inc root a (inc u a (c a)) =
              λ a l. count-ref root s.world a ∙ ap (inc root a) (q a l ∙ sym (inc_zero a (c a))) in
            let k = cross-Held c root u s1 h in
            let v = (cross root s1).0 in
            rw (below_root, e)
              (Taken-bind c
                (walk ops stay (suc (length rel)) v
                  (record ((cross root s1).1) { next = inside rel }))
                _
                (walk-Taken c (suc (length rel)) v
                  (record ((cross root s1).1) { next = inside rel })
                  (λ a l. k a l ∙ ap (inc v a) (inc_zero a (c a))))
                (λ r v s2 k. k))
      ]

  resolved-Taken :
      (c : ℕ → ℕ) (vfs : ℕ) (rel : Option Str) (s : State F)
      → ((a : ℕ) → c a < mod32 → count s.world a ≡ c a)
      → Taken c (elim rel [
        | none ↦ some (at_root ops vfs s)
        | some [] ↦ some (at_root ops vfs s)
        | some (x ∷ xs) ↦ below_root ops stay vfs (x ∷ xs) s
      ])
  unfolding at_root on_world
  resolved-Taken c vfs none s q = λ a l. count-ref _ s.world a ∙ ap (inc _ a) (q a l)
  resolved-Taken c vfs (some []) s q = λ a l. count-ref _ s.world a ∙ ap (inc _ a) (q a l)
  resolved-Taken c vfs (some (x ∷ xs)) s q = below_root-Taken c vfs (x ∷ xs) s q

  lookup_with-Taken :
      (path : Str) (depth : ℕ) (s : State F)
      → Taken (count s.world) (lookup_with ops stay path depth s)
  unfolding lookup_with
  lookup_with-Taken path depth s =
      let c = count s.world in
      elim (Bool-cases (leb 10 depth)) [
        | inl d ↦ rw (lookup_with, d) (λ a l. sym (inc_zero a (c a)))
        | inr d ↦ elim (Option-cases (vfs_resolve_mount path s)) [
          | inl e ↦ rw (lookup_with, d, e) tt
          | inr ((r, v, rel, t), e) ↦
              let q : (a : ℕ) → count t.world a ≡ c a = subst (Kept s) e (resolve-Kept path s) in
              elim (Bool-cases (is_eok r)) [
                | inr f ↦
                    rw (lookup_with, d, e, f)
                      (λ a l.
                        subst (λ x. count t.world a ≡ inc (if x then 0 else 0) a (c a)) (sym f)
                          (q a ∙ sym (inc_zero a (c a))))
                | inl f ↦ rw (lookup_with, d, e, f) (resolved-Taken c v rel t (λ a l. q a))
              ]
        ]
      ]

  -- `vfs_lookup_internal` that follows no link, with the list unlocked, every count below 2 ^ 32, and
  -- file systems whose `lookup` gives a vnode with a new reference and takes none when it fails
  -- (`Refers`): it returns, a success gives its caller just one reference to the vnode found, and a failure none.
  -- All other counts are as before, however long the path and whatever is mounted along it.
  pub vfs_lookup_internal-Counted :
      (path : Str) (depth : ℕ) (s : State F)
      → s.list_locked ≡ false
      → ((a : ℕ) → count s.world a < mod32)
      → (r : ℤ) × (v : ℕ) × (t : State F) × (vfs_lookup_internal ops path depth false s
          ≡ some (r, v, t))
        × (((is_eok r ≡ true) × ((a : ℕ) → count t.world a ≡ inc v a (count s.world a)))
            ⊎ ((is_eok r ≡ false) × ((a : ℕ) → count t.world a ≡ count s.world a)))
  unfolding vfs_lookup_internal
  vfs_lookup_internal-Counted path depth s u b =
      let (r, v, t, e, _, _) = stay-Outcome ops path depth s u in
      let k : Held (count s.world) (got r v) t.world =
        subst (Taken (count s.world)) e (lookup_with-Taken path depth s) in
      (
        r,
        v,
        t,
        e,
        elim (Bool-cases (is_eok r)) [
          | inl h ↦ inl (h, λ a. subst (λ x. Added x v t.world s.world a) h (k a (b a)))
          | inr h ↦ inr (
            h,
            λ a.
                subst (λ x. Added x v t.world s.world a) h (k a (b a))
                ∙ inc_zero a (count s.world a),
          )
        ],
      )
