-- ===== src/Vfs.antt =====
-- kernel/src/fs/vfs/vfs.c: vnodes and their references, the list of mounted file systems, the mount
-- that a path belongs to, and `strtok` of kernel/src/util/memory.c, which the lookups use. A string
-- is the list of its bytes.
pub mod Drivers
pub mod Firsts
pub mod Registry
pub mod Lookup
pub mod Ops
pub mod Resolve
pub mod Tokens
pub mod Outcome
pub mod Prefix
pub mod Best
pub mod Refs
pub mod Rounds
pub mod Walk
pub mod Unmount
pub mod Count
mod Tests
use lapis.Base.{
  ℕ, suc, zero, ◌+◌, Bool, true, false, not, ◌&&◌, ◌||◌, Option, some, none, List, [], ◌∷◌, ◌++◌,
  ◌==◌, if◌then◌else◌, ltb, length, get_elem?, add32, sub32, put, ℤ, pos, negsuc,
}

abbrev pub Str : Type 0
Str = List ℕ

abbrev pub slash : ℕ
slash = 47

-- `vnode_type_t`
pub data VnodeType : Type 0 where
  vnode_null regular dir block char link pipe socket bad : VnodeType

-- The operations of `vnops_t` that these functions call.
pub data Op : Type 0 where
  opening close lookup readlink create mkdir rmdir remove symlink getattr setattr : Op

-- `vnode_t`; `provides` says which pointers of `ops` are set.
pub record Vnode : Type 0 where
  pub path : Str
  pub vtype : VnodeType
  pub provides : Op → Bool
  pub vfs_here : ℕ
  pub refcount : ℕ

-- `vfs_t`; `unmounts` says that `ops->unmount` is set.
pub record Fs : Type 0 where
  pub root_vnode : ℕ
  pub unmounts : Bool

-- The objects by address, those that were freed, how many allocations the heap still grants, and the
-- state `fs_data` of the file systems below.
pub record World {ℓ} (F : Type ℓ) : Type ℓ where
  pub vnodes : ℕ → Vnode
  pub fss : ℕ → Fs
  pub freed : List ℕ
  pub room : ℕ
  pub fs_data : F

-- The static pointer `next` of `strtok`: NULL, inside a path before these bytes, or inside a path that
-- has been freed.
pub data Cursor : Type 0 where
  unset : Cursor
  inside : Str → Cursor
  dangling : Cursor

-- `vfs_list_head` with its lock, and the static pointer `next` of `strtok`.
pub record State {ℓ} (F : Type ℓ) : Type ℓ where
  pub world : World F
  pub vfs_list : List ℕ
  pub list_locked : Bool
  pub next : Cursor

unfoldable pub is_dir : VnodeType → Bool
is_dir dir = true
is_dir _ = false

unfoldable pub is_link : VnodeType → Bool
is_link link = true
is_link _ = false

unfoldable pub skip : Str → Str
skip [] = []
skip (c ∷ cs) = if c == slash then skip cs else c ∷ cs

-- The bytes up to the next slash, and the pointer behind it.
unfoldable pub token : Str → Str × Cursor
token [] = ([], unset)
token (c ∷ cs) = let (t, r) = token cs in if c == slash then ([], inside cs) else (c ∷ t, r)

-- `strtok` with the delimiter "/", at its pointer `next`: the token, if any, and the new `next`.
-- `none` is a read of freed memory, behind which nothing is modelled.
unfoldable pub strtok : Cursor → Option (Option Str × Cursor)
strtok unset = some (none, unset)
strtok (inside s) = elim (skip s) [
  | [] ↦ some (none, inside [])
  | c ∷ cs ↦ let (t, r) = token (c ∷ cs) in some (some t, r)
]
strtok dangling = none

-- `kfree` of the path that the pointer is in.
unfoldable pub free_path : Cursor → Cursor
free_path unset = unset
free_path (inside s) = dangling
free_path dangling = dangling

-- `strncmp(path, prefix, prefix_len) == 0`
unfoldable pub starts : (prefix path : Str) → Bool
starts [] path = true
starts (p ∷ ps) [] = false
starts (p ∷ ps) (c ∷ cs) = (p == c) && starts ps cs

unfoldable pub byte_at : Str → ℕ → ℕ
byte_at s i = elim (get_elem? s i) [ none ↦ 0 | some c ↦ c ]

unfoldable pub is_root : Str → Bool
is_root [] = false
is_root (c ∷ []) = c == slash
is_root (c ∷ (d ∷ cs)) = false

-- The tests of one mounted file system in `vfs_resolve_mount`.
unfoldable pub fits : (prefix path : Str) → Bool
fits prefix path =
    if ltb (length path) (length prefix)
    then false
    else if is_root prefix
    then byte_at path 0 == slash
    else starts prefix path
      && ((byte_at path (length prefix) == 0) || (byte_at path (length prefix) == slash))

unfoldable pub drop : ℕ → Str → Str
drop zero s = s
drop (suc n) [] = []
drop (suc n) (c ∷ cs) = drop n cs

module _ {ℓ} {F : Type ℓ} where
  unfoldable pub vnode_ref : ℕ → World F → World F
  vnode_ref v w = if v == 0 then w else record w {
    vnodes = put w.vnodes v (record (w.vnodes v) { refcount = add32 (w.vnodes v).refcount 1 });
  }

  unfoldable pub vnode_unref : ℕ → World F → World F
  vnode_unref v w = if v == 0 then w else record w {
    vnodes = put w.vnodes v (record (w.vnodes v) { refcount = sub32 (w.vnodes v).refcount 1 });
    freed = if sub32 (w.vnodes v).refcount 1 == 0 then v ∷ w.freed else w.freed;
  }

  -- An allocation: does the heap grant it?
  unfoldable pub allocate : World F → Bool × World F
  allocate w = elim w.room [ zero ↦ (false, w) | suc n ↦ (true, record w { room = n }) ]

  unfoldable pub acquire : State F → Option (State F)
  acquire s = if s.list_locked then none else some (record s { list_locked = true })

  unfoldable pub release : State F → State F
  release s = record s { list_locked = false }

  unfoldable pub mount_path : World F → ℕ → Str
  mount_path w v = (w.vnodes (w.fss v).root_vnode).path

  -- The loop of `vfs_resolve_mount`: the best match so far, 0 for NULL, and its length.
  unfoldable pub best_match : World F → Str → List ℕ → (best best_len : ℕ) → ℕ × ℕ
  best_match w path [] best best_len = (best, best_len)
  best_match w path (v ∷ vs) best best_len =
      if ((w.fss v).root_vnode == 0) || not (fits (mount_path w v) path)
      then best_match w path vs best best_len
      else if ltb best_len (length (mount_path w v))
      then best_match w path vs v (length (mount_path w v))
      else best_match w path vs best best_len

  -- The match, with the root for "/" if there is none.
  unfoldable pub matched : World F → Str → List ℕ → ℕ × ℕ
  matched w path vs =
      let (best, best_len) = best_match w path vs 0 0 in
      if best == 0
      then elim vs [ [] ↦ (0, 0) | v ∷ _ ↦ if is_root path then (v, 1) else (0, 0) ]
      else (best, best_len)

  -- `vfs_resolve_mount`: the result, the file system and the rest of the path, NULL when `strdup`
  -- fails. `none` is the wait for a lock that is never released.
  unfoldable pub vfs_resolve_mount : Str → State F → Option (ℤ × ℕ × Option Str × State F)
  vfs_resolve_mount path s = elim (acquire s) [
    | none ↦ none
    | some s1 ↦
        let (best, best_len) = matched s1.world path s1.vfs_list in
        let s2 = release s1 in
        let (ok, w) = allocate s2.world in
        if best == 0
        then some (negsuc 1, 0, none, s2)
        else some (
          pos 0,
          best,
          (if ok then some (skip (drop best_len path)) else none),
          record s2 { world = w },
        )
  ]
