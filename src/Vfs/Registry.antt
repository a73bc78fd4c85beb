-- ===== src/Vfs/Registry.antt =====
-- The list of the file system drivers of kernel/src/fs/vfs/vfs.c: what is found in it.
use lapis.Base.{ℕ, ◌<◌, ◌≡◌, ◌≢◌, Bool, true, ◌⊎◌, List, ◌==◌, has, Distinct, ℤ, pos}
use lapis.Vfs.{Str}
use lapis.Vfs.Ops.{same_str}
use lapis.Vfs.Drivers.{Registry, find_first, vfs_find_driver_by_id, vfs_find_driver_by_name}

module _ (name : ℕ → Str) (mounts : ℕ → Bool) where
  -- The driver has an id below the next one, and is found by it and by its name.
  abbrev Found : (ids : ℕ → ℕ) (l : List ℕ) (next : ℕ) → ℕ → Type 0
  Found ids l next a =
      (ids a < next)
      × (find_first (λ d. ids d == ids a) l ≡ a)
      × (find_first (λ d. same_str (name d) (name a)) l ≡ a)

  -- Every registered driver is found, by its id and by its name, and the next id is a new one.
  abbrev pub IsRegistry : Registry → Type 0
  IsRegistry r =
      Distinct r.list
      × ((a : ℕ)
          → has a r.list ≡ true
          → (r.ids a < r.next_id)
            × (vfs_find_driver_by_id (r.ids a) r ≡ a)
            × (vfs_find_driver_by_name name mounts (name a) r ≡ a))

  -- A registration is refused and changes nothing, or it gives the next id and lists the driver.
  abbrev pub Registered : (d : ℕ) → Registry → ℤ × Registry → Type 0
  Registered d r (n, t) =
      IsRegistry t
      × (((t ≡ r) × (n ≢ pos r.next_id)) ⊎ ((n ≡ pos r.next_id) × (has d t.list ≡ true)))
