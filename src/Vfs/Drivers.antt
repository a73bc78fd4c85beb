-- ===== src/Vfs/Drivers.antt =====
-- kernel/src/fs/vfs/vfs.c: the list of the file system drivers.
use lapis.Base.{
  ℕ, ◌+◌, ◌%◌, ◌^◌, Bool, not, ◌||◌, List, [], ◌∷◌, ◌==◌, if◌then◌else◌, put, ℤ, pos, negsuc,
}
use lapis.Vfs.{Str}
use lapis.Vfs.Ops.{same_str}

-- `vfs_driver_list_head`, the ids of the drivers, and `next_vfs_driver_id`, a `uint16_t`.
pub record Registry : Type 0 where
  pub ids : ℕ → ℕ
  pub list : List ℕ
  pub next_id : ℕ

-- The first driver with the property, or NULL.
unfoldable pub find_first : (ℕ → Bool) → List ℕ → ℕ
find_first p [] = 0
find_first p (d ∷ ds) = if p d then d else find_first p ds

unfoldable pub remove_id : (ids : ℕ → ℕ) → (id : ℕ) → List ℕ → List ℕ
remove_id ids id [] = []
remove_id ids id (d ∷ ds) = if ids d == id then ds else d ∷ remove_id ids id ds

unfoldable pub vfs_find_driver_by_id : (id : ℕ) → Registry → ℕ
vfs_find_driver_by_id id r = find_first (λ d. r.ids d == id) r.list

unfoldable pub vfs_unregister_driver : (id : ℕ) → Registry → ℤ × Registry
vfs_unregister_driver id r =
    if vfs_find_driver_by_id id r == 0
    then (negsuc 1, r)
    else (pos 0, record r { list = remove_id r.ids id r.list })

-- The name of each driver, and whether its `mount` is set.
module _ (name : ℕ → Str) (mounts : ℕ → Bool) where
  unfoldable pub vfs_find_driver_by_name : Str → Registry → ℕ
  vfs_find_driver_by_name s r = find_first (λ d. same_str (name d) s) r.list

  unfoldable pub is_nameless : ℕ → Bool
  is_nameless d = same_str (name d) []

  unfoldable pub vfs_register_driver : (driver : ℕ) → Registry → ℤ × Registry
  vfs_register_driver d r =
      if (d == 0) || (is_nameless d || not (mounts d))
      then (negsuc 21, r)
      else if not (vfs_find_driver_by_name (name d) r == 0)
      then (negsuc 16, r)
      else (
        pos r.next_id,
        record r {
          ids = put r.ids d r.next_id;
          list = d ∷ r.list;
          next_id = (r.next_id + 1) % 2 ^ 16;
        },
      )
