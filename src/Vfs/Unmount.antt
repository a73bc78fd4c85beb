-- ===== src/Vfs/Unmount.antt =====
-- `vfs_unmount` of kernel/src/fs/vfs/vfs.c.
use lapis.Base.{
  ℕ, ◌≡◌, ◌≢◌, refl, sym, ◌∙◌, subst, Bool, true, false, not, inl, inr, none, List, [], ◌∷◌, ◌++◌,
  ◌==◌, has, Bool-cases, eq_of_test, arith,
}
use lapis.Vfs.{Str, State, is_root, mount_path, acquire, vfs_resolve_mount}
use lapis.Vfs.Lookup.{FsOps, lookup_with, vfs_lookup_internal, vfs_lookup}
use lapis.Vfs.Ops.{same_str, clear_point, unmount_loop, vfs_unmount}

-- An address with a property that the head does not have is further on.
has-tail :
    (P : ℕ → Bool) (b : Bool) (v w : ℕ) (vs : List ℕ)
    → has v (w ∷ vs) ≡ true
    → P v ≡ not b
    → P w ≡ b
    → has v vs ≡ true
has-tail P b v w vs h p q = elim (Bool-cases (v == w)) [
  | inl e ↦
      let k : not b ≡ b = sym p ∙ subst (λ x. P x ≡ b) (sym (eq_of_test v w e)) q in
      absurd (differ b k)
  | inr e ↦ ground (arith, h, e)
]
  where
    differ : (b : Bool) → not b ≢ b
    differ true k = absurd (ground (arith, k))
    differ false k = absurd (ground (arith, k))

module _ {ℓ} {F : Type ℓ} (ops : FsOps F) where
  -- A lookup takes the lock of the list.
  vfs_lookup-locked :
      (path : Str) (s : State F) → s.list_locked ≡ true → vfs_lookup ops path s ≡ none
  unfolding vfs_lookup vfs_lookup_internal lookup_with vfs_resolve_mount acquire
  vfs_lookup-locked path s u = rw (vfs_resolve_mount, acquire, u) refl

  clear_point-locked :
      (path : Str) (s : State F)
      → s.list_locked ≡ true
      → is_root path ≡ false
      → clear_point ops path s ≡ none
  unfolding clear_point
  clear_point-locked path s u r = rw (clear_point, r, vfs_lookup-locked path s u) refl

  unmount_loop-waits :
      (path : Str) (before vs : List ℕ) (s : State F) (v : ℕ)
      → s.list_locked ≡ true
      → is_root path ≡ false
      → has v vs ≡ true
      → ((s.world.fss v).root_vnode == 0) ≡ false
      → same_str (mount_path s.world v) path ≡ true
      → unmount_loop ops path before vs s ≡ none
  unfolding unmount_loop
  unmount_loop-waits path before [] s v u r h m e = absurd (ground (arith, h))
  unmount_loop-waits path before (w ∷ vs) s v u r h m e =
      elim (Bool-cases ((s.world.fss w).root_vnode == 0)) [
        | inl z ↦
            let k = has-tail (λ x. (s.world.fss x).root_vnode == 0) true v w vs h m z in
            rw (unmount_loop, z) (unmount_loop-waits path (before ++ (w ∷ [])) vs s v u r k m e)
        | inr z ↦ elim (Bool-cases (same_str (mount_path s.world w) path)) [
          | inl q ↦ rw (unmount_loop, z, q, clear_point-locked path s u r) refl
          | inr q ↦
              let k = has-tail (λ x. same_str (mount_path s.world x) path) false v w vs h e q in
              rw (unmount_loop, z, q)
                (unmount_loop-waits path (before ++ (w ∷ [])) vs s v u r k m e)
        ]
      ]

  -- `vfs_unmount` of a mounted file system other than "/" never returns: it looks the mount point up
  -- with the lock of the list taken, and with that lock taken no path is resolved.
  pub vfs_unmount-waits :
      (path : Str) (s : State F) (v : ℕ)
      → is_root path ≡ false
      → has v s.vfs_list ≡ true
      → ((s.world.fss v).root_vnode == 0) ≡ false
      → same_str (mount_path s.world v) path ≡ true
      → (vfs_unmount ops path s ≡ none)
        × ((t : State F) → t.list_locked ≡ true → vfs_resolve_mount path t ≡ none)
  unfolding vfs_unmount vfs_resolve_mount acquire
  vfs_unmount-waits path s v r h m e = (
    elim (Bool-cases s.list_locked) [
      | inl u ↦ rw (vfs_unmount, acquire, u) refl
      | inr u ↦
          rw (vfs_unmount, acquire, u)
            (unmount_loop-waits path [] s.vfs_list (record s { list_locked = true }) v refl r h m e)
    ],
    λ t u. rw (vfs_resolve_mount, acquire, u) refl,
  )
