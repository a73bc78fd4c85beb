-- ===== src/Vfs/Ops.antt =====
-- kernel/src/fs/vfs/vfs.c: the operations that take a path, and the mount and unmount of file
-- systems.
use lapis.Base.{
  ℕ, zero, suc, Bool, true, false, not, ◌&&◌, ◌||◌, Option, some, none, List, [], ◌∷◌, ◌++◌, ◌==◌,
  ◌>>=◌, if◌then◌else◌, put, ℤ, pos, negsuc,
}
use lapis.Vfs.{
  Str, slash, Op, opening, close, readlink, create, mkdir, rmdir, remove, getattr, setattr, World,
  State, is_dir, is_link, is_root, vnode_unref, allocate, acquire, release, mount_path,
}
use lapis.Vfs.Lookup.{FsOps, on_world, vfs_lookup, vfs_lookup_internal}
use lapis.Kfile.{has_flag, is_eok}

-- `strrchr(path, '/')`: what is before the last slash and what is behind it.
unfoldable pub split_slash : Str → Option (Str × Str)
split_slash [] = none
split_slash (c ∷ cs) = elim (split_slash cs) [
  | some (a, b) ↦ some (c ∷ a, b)
  | none ↦ if c == slash then some ([], cs) else none
]

-- The path of the parent: "/" if nothing is before the slash.
unfoldable pub parent_path : Str → Str
parent_path [] = slash ∷ []
parent_path (c ∷ cs) = c ∷ cs

-- `strcmp(a, b) == 0`
unfoldable pub same_str : Str → Str → Bool
same_str [] [] = true
same_str [] (d ∷ ds) = false
same_str (c ∷ cs) [] = false
same_str (c ∷ cs) (d ∷ ds) = (c == d) && same_str cs ds

module _ {ℓ} {F : Type ℓ} (ops : FsOps F) where
  -- The parent and the name. `none` also stands for the lookup of a NULL path.
  unfoldable pub vfs_lookup_parent : Str → State F → Option (ℤ × ℕ × Str × State F)
  vfs_lookup_parent path s = elim (split_slash path) [
    | none ↦ some (negsuc 21, 0, [], s)
    | some (before, filename) ↦
        let (ok1, w1) = allocate s.world in
        let (ok2, w2) = allocate w1 in
        let found = vfs_lookup ops (parent_path before) (record s { world = w2 }) in
        if not ok1
        then elim before [ [] ↦ none | c ∷ cs ↦ some (negsuc 11, 0, [], s) ]
        else if not ok2
        then some (negsuc 11, 0, [], record s { world = w1 })
        else (found >>= λ (r, parent, s2). some (r, parent, filename, s2))
  ]

  -- An operation of the parent of a path, as `vfs_mkdir`, `vfs_rmdir`, `vfs_remove`, `vfs_symlink`,
  -- `vfs_create` and `vfs_open` call it: its result and the vnode that it gives.
  unfoldable pub in_parent : Op → Str → (mode : ℕ) → State F → Option (ℤ × ℕ × State F)
  in_parent op path mode s = vfs_lookup_parent path s >>= λ (r, parent, name, s1).
      let (r2, vnode, w) = ops.operate op parent name mode s1.world in
      if not (is_eok r)
      then some (r, 0, s1)
      else if not ((s1.world.vnodes parent).provides op)
      then some (negsuc 37, 0, on_world (vnode_unref parent) s1)
      else some (r2, vnode, on_world (vnode_unref parent) (record s1 { world = w }))

  unfoldable pub vfs_create : Str → (mode : ℕ) → State F → Option (ℤ × State F)
  vfs_create path mode s = in_parent create path mode s >>= λ (r, vnode, s1).
      some (r, if is_eok r then on_world (vnode_unref vnode) s1 else s1)

  unfoldable pub vfs_mkdir : Str → (mode : ℕ) → State F → Option (ℤ × State F)
  vfs_mkdir path mode s = in_parent mkdir path mode s >>= λ (r, _, s1). some (r, s1)

  unfoldable pub vfs_rmdir : Str → State F → Option (ℤ × State F)
  vfs_rmdir path s = in_parent rmdir path 0 s >>= λ (r, _, s1). some (r, s1)

  unfoldable pub vfs_remove : Str → State F → Option (ℤ × State F)
  vfs_remove path s = in_parent remove path 0 s >>= λ (r, _, s1). some (r, s1)

  -- An operation of the vnode of a path, with the reference given back.
  unfoldable pub on_vnode : Op → Str → State F → Option (ℤ × State F)
  on_vnode op path s = vfs_lookup ops path s >>= λ (r, vnode, s1).
      let (r2, _, w) = ops.operate op vnode [] 0 s1.world in
      if not (is_eok r)
      then some (r, s1)
      else if not ((s1.world.vnodes vnode).provides op)
      then some (negsuc 37, on_world (vnode_unref vnode) s1)
      else some (r2, on_world (vnode_unref vnode) (record s1 { world = w }))

  unfoldable pub vfs_stat : Str → State F → Option (ℤ × State F)
  vfs_stat path s = on_vnode getattr path s

  unfoldable pub vfs_setstat : Str → State F → Option (ℤ × State F)
  vfs_setstat path s = on_vnode setattr path s

  -- The result and the target.
  unfoldable pub vfs_readlink : Str → State F → Option (ℤ × Str × State F)
  vfs_readlink path s = vfs_lookup_internal ops path 0 false s >>= λ (r, vnode, s1).
      let (r2, target, w) = ops.read_target vnode s1.world in
      if not (is_eok r)
      then some (r, [], s1)
      else if not (is_link (s1.world.vnodes vnode).vtype)
      then some (negsuc 21, [], on_world (vnode_unref vnode) s1)
      else if not ((s1.world.vnodes vnode).provides readlink)
      then some (negsuc 37, [], on_world (vnode_unref vnode) s1)
      else some (r2, target, on_world (vnode_unref vnode) (record s1 { world = w }))

  -- `vfs_open` from its test of the vnode on: the vnode of the file.
  unfoldable pub open_vnode : (vnode flags : ℕ) → State F → ℤ × ℕ × State F
  open_vnode vnode flags s =
      let (ok, w) = allocate s.world in
      let (r, vnode', w2) = ops.operate opening vnode [] flags w in
      if vnode == 0
      then (negsuc 1, 0, s)
      else if not ((s.world.vnodes vnode).provides opening)
      then (negsuc 37, 0, on_world (vnode_unref vnode) s)
      else if not ok
      then (negsuc 11, 0, on_world (vnode_unref vnode) s)
      else if not (is_eok r)
      then (r, 0, on_world (vnode_unref vnode') (record s { world = w2 }))
      else (pos 0, vnode', record s { world = w2 })

  -- V_CREATE is the bit 0.
  unfoldable pub vfs_open : Str → (flags : ℕ) → State F → Option (ℤ × ℕ × State F)
  vfs_open path flags s = vfs_lookup ops path s >>= λ (r, vnode, s1). elim r [
    | pos zero ↦ some (open_vnode vnode flags s1)
    | pos (suc k) ↦ some (pos (suc k), 0, s1)
    | negsuc k ↦
        if (k == 1) && has_flag flags 1
        then (in_parent create path flags s1 >>= λ (r2, vnode2, s2).
            if is_eok r2 then some (open_vnode vnode2 flags s2) else some (r2, 0, s2))
        else some (negsuc k, 0, s1)
  ]

  unfoldable pub vfs_close : (vnode : ℕ) → State F → ℤ × State F
  vfs_close vnode s =
      let (r, _, w) = ops.operate close vnode [] 0 s.world in
      if vnode == 0
      then (negsuc 13, s)
      else if not ((s.world.vnodes vnode).provides close)
      then (negsuc 37, on_world (vnode_unref vnode) s)
      else (r, on_world (vnode_unref vnode) (record s { world = w }))

  -- A file system is given up: its `unmount`, the reference of its root, its memory.
  unfoldable pub give_up : (vfs : ℕ) → World F → World F
  give_up vfs w =
      let w1 = if (w.fss vfs).unmounts then ops.unmount vfs w else w in
      let w2 = vnode_unref (w1.fss vfs).root_vnode w1 in record w2 { freed = vfs ∷ w2.freed }

  unfoldable pub set_here : (vnode vfs : ℕ) → World F → World F
  set_here v vfs w = record w { vnodes = put w.vnodes v (record (w.vnodes v) { vfs_here = vfs }) }

  -- `vfs_append`
  unfoldable pub vfs_append : (vfs : ℕ) → State F → Option (State F)
  vfs_append vfs s =
      acquire s >>= λ s1. some (release (record s1 { vfs_list = s1.vfs_list ++ (vfs ∷ []) }))

  unfoldable pub append_to : (vfs : ℕ) → State F → Option (ℕ × State F)
  append_to vfs s = vfs_append vfs s >>= λ s1. some (vfs, s1)

  -- `vfs_mount` from the lookup of the mount point on.
  unfoldable pub mount_at : (vfs : ℕ) → Str → State F → Option (ℕ × State F)
  mount_at vfs path s = vfs_lookup ops path s >>= λ (r, mount_point, s1).
      if not (is_eok r)
      then elim (s1.vfs_list) as (λ _. Option (ℕ × State F)) [
        | [] ↦ append_to vfs s1
        | _ ∷ _ ↦ some (0, on_world (give_up vfs) s1)
      ]
      else if not (is_dir (s1.world.vnodes mount_point).vtype)
      then some (0, on_world (λ w. give_up vfs (vnode_unref mount_point w)) s1)
      else append_to vfs (on_world (λ w. vnode_unref mount_point (set_here mount_point vfs w)) s1)

  -- `vfs_mount` with the driver of the file system type, 0 if there is none: the file system, or 0.
  unfoldable pub vfs_mount : (driver : ℕ) → Str → State F → Option (ℕ × State F)
  vfs_mount driver path s =
      let (r, vfs, w) = ops.mount driver path s.world in
      let s1 = record s { world = w } in
      if driver == 0
      then some (0, s)
      else if not (is_eok r) || (vfs == 0)
      then some (0, s1)
      else if (w.fss vfs).root_vnode == 0
      then some (0, on_world (give_up vfs) s1)
      else if is_root path
      then append_to vfs s1
      else mount_at vfs path s1

  -- The vnode that the file system is mounted on is looked up and cleared.
  unfoldable pub clear_point : Str → State F → Option (State F)
  clear_point path s =
      if is_root path
      then some s
      else (vfs_lookup ops path s >>= λ (r, mount_point, s1). some (
          if is_eok r
          then on_world (λ w. vnode_unref mount_point (set_here mount_point 0 w)) s1
          else s1))

  -- The loop of `vfs_unmount`, under the lock of the list: the file systems before the current one,
  -- and those from it on.
  unfoldable pub unmount_loop : Str → (before vs : List ℕ) → State F → Option (ℤ × State F)
  unmount_loop path before [] s = some (negsuc 1, release s)
  unmount_loop path before (v ∷ vs) s =
      if not ((s.world.fss v).root_vnode == 0) && same_str (mount_path s.world v) path
      then (clear_point path s >>= λ s1.
          some (pos 0, release (record (on_world (give_up v) s1) { vfs_list = before ++ vs })))
      else unmount_loop path (before ++ (v ∷ [])) vs s

  unfoldable pub vfs_unmount : Str → State F → Option (ℤ × State F)
  vfs_unmount path s = acquire s >>= λ s1. unmount_loop path [] s1.vfs_list s1
