-- ===== src/Vfs/Lookup.antt =====
-- kernel/src/fs/vfs/vfs.c: lookups along a path, the operations that start with one, and the mount
-- and unmount of file systems.
use lapis.Base.{
  ℕ, zero, suc, Bool, true, false, not, ◌||◌, Option, some, none, [], ◌∷◌, ◌==◌, ◌>>=◌,
  if◌then◌else◌, leb, length, ℤ, pos, negsuc,
}
use lapis.Vfs.{
  Str, Op, lookup, readlink, World, State, is_dir, is_link, inside, strtok, free_path, vnode_ref,
  vnode_unref, vfs_resolve_mount,
}
use lapis.Kfile.{is_eok}

-- The operations of the file systems, through the pointers of `vnops_t`, `vfsops_t` and
-- `vfs_fs_driver_t`: their result, the vnode or the file system that they give, and the world after.
-- `readlink` gives the target. A path, or a number for `flags` and `mode`, is an argument.
pub record FsOps {ℓ} (F : Type ℓ) : Type ℓ where
  pub operate : Op → (vnode : ℕ) → Str → (mode : ℕ) → World F → ℤ × ℕ × World F
  pub read_target : (vnode : ℕ) → World F → ℤ × Str × World F
  pub mount : (driver : ℕ) → Str → World F → ℤ × ℕ × World F
  pub unmount : (vfs : ℕ) → World F → World F

module _ {ℓ} {F : Type ℓ} where
  unfoldable pub on_world : (World F → World F) → State F → State F
  on_world f s = record s { world = f s.world }

  -- The vnode that is mounted on `v`, if there is one, in its place, with the reference moved.
  unfoldable pub cross : ℕ → State F → ℕ × State F
  cross v s =
      let here = (s.world.vnodes v).vfs_here in
      if here == 0 then (v, s) else (
        (s.world.fss here).root_vnode,
        on_world (λ w. vnode_ref (s.world.fss here).root_vnode (vnode_unref v w)) s,
      )

  -- No link is followed.
  unfoldable pub stay : ℕ → State F → Option (ℤ × ℕ × State F)
  stay v s = some (pos 0, v, s)

module _ {ℓ} {F : Type ℓ} (ops : FsOps F) where
  -- One component of the path from `current`. `follow` is the treatment of symbolic links.
  unfoldable pub step :
      (ℕ → State F → Option (ℤ × ℕ × State F)) → ℕ → Str → State F → Option (ℤ × ℕ × State F)
  step follow current name s =
      let (r, next, w) = ops.operate lookup current name 0 s.world in
      let (next', s2) = cross next (record s { world = w }) in
      if not (is_dir (s.world.vnodes current).vtype)
      then some (negsuc 19, 0, on_world (vnode_unref current) s)
      else if not ((s.world.vnodes current).provides lookup)
      then some (negsuc 37, 0, on_world (vnode_unref current) s)
      else if not (is_eok r)
      then some (r, 0, on_world (vnode_unref current) (record s { world = w }))
      else (follow next' s2 >>= λ (r2, resolved, s3).
          if not (is_eok r2)
          then some (r2, 0, on_world (λ w. vnode_unref current (vnode_unref next' w)) s3)
          else if resolved == next'
          then some (pos 0, resolved, on_world (vnode_unref current) s3)
          else some (
            pos 0,
            resolved,
            on_world (λ w. vnode_unref current (vnode_ref resolved (vnode_unref next' w))) s3,
          ))

  -- The loop over the components, with fuel. `none` is the end of the fuel, the wait for a lock that
  -- is never released, or a read of freed memory.
  unfoldable pub walk :
      (ℕ → State F → Option (ℤ × ℕ × State F))
      → (fuel current : ℕ) → State F
      → Option (ℤ × ℕ × State F)
  walk follow zero current s = none
  walk follow (suc n) current s = strtok s.next >>= λ (component, rest). elim component [
    | none ↦ some (pos 0, current, record s { next = rest })
    | some name ↦ step follow current name (record s { next = rest }) >>= λ (r, v, s2). elim r [
      | pos zero ↦ walk follow n v s2
      | pos (suc k) ↦ some (pos (suc k), 0, s2)
      | negsuc k ↦ some (negsuc k, 0, s2)
    ]
  ]

  -- A path that ends at a mount: the root of the file system, or of what is mounted on it.
  unfoldable pub at_root : (vfs : ℕ) → State F → ℤ × ℕ × State F
  at_root vfs s =
      let root = (s.world.fss vfs).root_vnode in
      let here = (s.world.vnodes root).vfs_here in
      let out = if (root == 0) || (here == 0) then root else (s.world.fss here).root_vnode in
      (pos 0, out, on_world (vnode_ref out) s)

  -- A path below a mount, which is freed at the end.
  unfoldable pub below_root :
      (ℕ → State F → Option (ℤ × ℕ × State F))
      → (vfs : ℕ) → Str
      → State F
      → Option (ℤ × ℕ × State F)
  below_root follow vfs rel s =
      let root = (s.world.fss vfs).root_vnode in
      let (current, s1) = cross root (on_world (vnode_ref root) s) in
      if root == 0
      then some (negsuc 1, 0, s)
      else (walk follow (suc (length rel)) current (record s1 { next = inside rel })
          >>= λ (r, v, s2). some (r, v, record s2 { next = free_path s2.next }))

  unfoldable pub lookup_with :
      (ℕ → State F → Option (ℤ × ℕ × State F))
      → Str
      → (depth : ℕ) → State F
      → Option (ℤ × ℕ × State F)
  lookup_with follow path depth s =
      if leb 10 depth
      then some (negsuc 39, 0, s)
      else (vfs_resolve_mount path s >>= λ (r, vfs, rel_path, s1).
          if not (is_eok r) then some (r, 0, s1) else elim rel_path [
            | none ↦ some (at_root vfs s1)
            | some [] ↦ some (at_root vfs s1)
            | some (c ∷ cs) ↦ below_root follow vfs (c ∷ cs) s1
          ])

  unfoldable pub vfs_follow_symlink : (depth : ℕ) → ℕ → State F → Option (ℤ × ℕ × State F)
  vfs_follow_symlink depth v s =
      let (r, target, w) = ops.read_target v s.world in
      if leb 10 depth
      then some (negsuc 39, 0, s)
      else if not (is_link (s.world.vnodes v).vtype)
      then some (pos 0, v, s)
      else if not ((s.world.vnodes v).provides readlink)
      then some (negsuc 21, 0, s)
      else if not (is_eok r)
      then some (r, 0, record s { world = w })
      else lookup_with stay target (suc depth) (record s { world = w })

  unfoldable pub vfs_lookup_internal :
      Str → (depth : ℕ) → (follow_symlinks : Bool) → State F → Option (ℤ × ℕ × State F)
  vfs_lookup_internal path depth true s = lookup_with (vfs_follow_symlink (suc depth)) path depth s
  vfs_lookup_internal path depth false s = lookup_with stay path depth s

  unfoldable pub vfs_lookup : Str → State F → Option (ℤ × ℕ × State F)
  vfs_lookup path s = vfs_lookup_internal path 0 true s
