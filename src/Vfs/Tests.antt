-- ===== src/Vfs/Tests.antt =====
-- Two file systems: the vnode 1 is the root of the one at "/", and 20 is the root of the one at
-- "/a/b", which is mounted on the vnode 3. Every name leads from a vnode to the next one, and the
-- vnode 4 is a link to "/c".
use lapis.Base.{
  ℕ, suc, ◌≡◌, ◌<◌, refl, ◌⊎◌, true, false, Option, some, none, [], ◌∷◌, ◌==◌, if◌then◌else◌, arith,
  ℤ, pos,
}
use lapis.Vfs.{
  Str, inside, slash, dir, link, Vnode, World, State, is_root, vnode_ref, mount_path,
  vfs_resolve_mount,
}
use lapis.Vfs.Lookup.{FsOps, vfs_lookup_internal}
use lapis.Vfs.Ops.{same_str, vfs_unmount}
use lapis.Vfs.Resolve.{Longest, Uncovered, vfs_resolve_mount-Longest}
use lapis.Vfs.Unmount.{vfs_unmount-waits}
use lapis.Vfs.Refs.{count, count-ref, inc}
use lapis.Vfs.Count.{Refers, vfs_lookup_internal-Counted}
use lapis.Vfs.Drivers.{Registry, vfs_find_driver_by_id, vfs_find_driver_by_name}
use lapis.Kfile.{is_eok}

abbrev a_b : Str
a_b = slash ∷ 97 ∷ slash ∷ 98 ∷ []

abbrev a_b_x_y : Str
a_b_x_y = slash ∷ 97 ∷ slash ∷ 98 ∷ slash ∷ 120 ∷ slash ∷ 121 ∷ []

abbrev c_path : Str
c_path = slash ∷ 99 ∷ []

abbrev vnode : ℕ → Vnode
vnode n = record {
  path = if n == 1 then slash ∷ [] else if n == 20 then a_b else [];
  vtype = if n == 4 then link else dir;
  provides = λ op. true;
  vfs_here = if n == 3 then 200 else 0;
  refcount = 1;
}

abbrev world : World ℕ
world = record {
  vnodes = vnode;
  fss = λ v. record { root_vnode = if v == 200 then 20 else 1; unmounts = true };
  freed = [];
  room = 8;
  fs_data = 0;
}

abbrev system : State ℕ
system = record {
  world = world;
  vfs_list = 100 ∷ 200 ∷ [];
  list_locked = false;
  next = inside (120 ∷ slash ∷ 121 ∷ []);
}

abbrev ops : FsOps ℕ
ops = record {
  operate = λ op v name mode w. (pos 0, suc v, vnode_ref (suc v) w);
  read_target = λ v w. (pos 0, c_path, w);
  mount = λ driver path w. (pos 0, 300, w);
  unmount = λ v w. w;
}

ops-Refers : Refers ops
ops-Refers = record {
  found = λ v name w e a. count-ref (suc v) w a;
  failed = λ v name w e. absurd (ground (arith, e));
}

vfs_resolve_mount-Longest_example :
    (r : ℤ) × (v : ℕ) × (rel : Option Str) × (t : State ℕ) × (vfs_resolve_mount a_b_x_y system
      ≡ some (r, v, rel, t))
    × (Longest system a_b_x_y r v rel ⊎ Uncovered system a_b_x_y r v rel)
vfs_resolve_mount-Longest_example =
    vfs_resolve_mount-Longest a_b_x_y system (ground arith) refl refl

vfs_unmount-waits_example :
    (vfs_unmount ops a_b system ≡ none)
    × ((t : State ℕ) → t.list_locked ≡ true → vfs_resolve_mount a_b t ≡ none)
unfolding is_root same_str mount_path
vfs_unmount-waits_example = vfs_unmount-waits ops a_b system 200 refl refl refl refl

vfs_lookup_internal-Counted_example :
    (r : ℤ) × (v : ℕ) × (t : State ℕ) × (vfs_lookup_internal ops a_b_x_y 0 false system
      ≡ some (r, v, t))
    × (((is_eok r ≡ true) × ((a : ℕ) → count t.world a ≡ inc v a (count world a)))
        ⊎ ((is_eok r ≡ false) × ((a : ℕ) → count t.world a ≡ count world a)))
vfs_lookup_internal-Counted_example =
    vfs_lookup_internal-Counted ops ops-Refers a_b_x_y 0 system refl (λ a. omega arith)

-- The driver 9 is registered as "r" with the id 1, and the driver 8, named "f", comes next.
abbrev driver_name : ℕ → Str
driver_name d = if d == 9 then 114 ∷ [] else 102 ∷ []

abbrev one_driver : Registry
one_driver = record { ids = λ d. 1; list = 9 ∷ []; next_id = 2 }

abbrev One : ℕ → Type 0
One a =
    (one_driver.ids a < one_driver.next_id)
    × (vfs_find_driver_by_id (one_driver.ids a) one_driver ≡ a)
    × (vfs_find_driver_by_name driver_name (λ d. true) (driver_name a) one_driver ≡ a)
