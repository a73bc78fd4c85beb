-- ===== src/Fd.antt =====
-- kernel/src/sched/fd.c: the file descriptor tables of the processes, and the counted references to
-- their entries.
pub mod Slots
pub mod Refs
pub mod Keeps
pub mod Install
pub mod Ops
mod Tests
use lapis.Base.{
  ℕ, zero, suc, ◌+◌, ◌*◌, ◌-◌, ◌<◌, Bool, true, false, Option, some, none, List, [], ◌∷◌, ◌++◌,
  ◌==◌, ◌||◌, ◌&&◌, if◌then◌else◌, leb, ltb, not, length, get_elem?, set, replicate, add32, sub32,
  put, ℤ, pos, negsuc,
}

-- `fd_type_t`
pub data FdType : Type 0 where
  fd_none fd_file fd_dir : FdType

-- `fd_entry_t`, as far as its references and its end go.
pub record Entry : Type 0 where
  pub kind : FdType
  pub file : ℕ
  pub dir_vnode : ℕ
  pub dir_buf : ℕ
  pub refcount : ℕ

-- `fd_table_t`: the array holds addresses of entries, and its length is the capacity.
pub record Table : Type 0 where
  pub slots : List ℕ
  pub refcount : ℕ

-- What the last reference to an entry or a table lets go.
pub data Event : Type 0 where
  kclose vnode_unref kfree kfree_slots : ℕ → Event

-- The tables and the entries by their addresses, with what was let go, the last one first.
pub record Fds : Type 0 where
  pub tables : ℕ → Table
  pub entries : ℕ → Entry
  pub events : List Event

abbrev pub fd_table_initial : ℕ
fd_table_initial = 16

abbrev pub fd_table_max : ℕ
fd_table_max = 4096

abbrev pub neg : ℕ → ℤ
neg zero = pos 0
neg (suc n) = negsuc n

abbrev pub ebadf : ℤ
ebadf = neg 9

abbrev pub enomem : ℤ
enomem = neg 12

abbrev pub ebusy : ℤ
ebusy = neg 16

abbrev pub einval : ℤ
einval = neg 22

abbrev pub emfile : ℤ
emfile = neg 24

unfoldable pub set_slots : ℕ → List ℕ → Fds → Fds
set_slots t xs s = record s { tables = put s.tables t (record (s.tables t) { slots = xs }) }

unfoldable pub set_refs : ℕ → ℕ → Fds → Fds
set_refs e n s = record s { entries = put s.entries e (record (s.entries e) { refcount = n }) }

unfoldable pub let_go : Event → Fds → Fds
let_go ev s = record s { events = ev ∷ s.events }

unfoldable pub fd_entry_ref : ℕ → Fds → Fds
fd_entry_ref e s = if e == 0 then s else set_refs e (add32 (s.entries e).refcount 1) s

-- What happens to the parts of an entry that has no references left, by its type.
unfoldable pub drop_parts : FdType → Entry → Fds → Fds
drop_parts fd_none en s = s
drop_parts fd_file en s = if en.file == 0 then s else let_go (kclose en.file) s
drop_parts fd_dir en s =
    let s1 = if en.dir_vnode == 0 then s else let_go (vnode_unref en.dir_vnode) s in
    if en.dir_buf == 0 then s1 else let_go (kfree en.dir_buf) s1

unfoldable pub drop_entry : ℕ → Fds → Fds
drop_entry e s = let_go (kfree e) (drop_parts (s.entries e).kind (s.entries e) s)

unfoldable pub fd_entry_unref : ℕ → Fds → Fds
fd_entry_unref e s =
    let s1 = set_refs e (sub32 (s.entries e).refcount 1) s in
    if e == 0 then s else if ltb 0 (s1.entries e).refcount then s1 else drop_entry e s1

-- `fdtable_grow`: the result, and the slots that the table then has; `ok` says whether there is
-- memory for the array.
unfoldable pub grown_capacity : (capacity min : ℕ) → ℕ
grown_capacity capacity min =
    let twice = capacity * 2 in
    let wide = if ltb twice min then min else twice in
    if ltb fd_table_max wide then fd_table_max else wide

unfoldable pub fdtable_grow : (ok : Bool) (t min : ℕ) → Fds → ℤ × Fds
fdtable_grow ok t min s =
    let xs = (s.tables t).slots in
    let n = grown_capacity (length xs) min in
    if ltb fd_table_max min
    then (emfile, s)
    else if ok
    then (pos 0, set_slots t (xs ++ replicate (n - length xs) 0) s)
    else (enomem, s)

-- The entry in a slot; 0 outside the table.
unfoldable pub slot : List ℕ → ℕ → ℕ
slot xs i = elim (get_elem? xs i) [ none ↦ 0 | some e ↦ e ]

-- The entry is put into a free slot, with a reference of the table.
unfoldable pub put_entry : (t i e : ℕ) → Fds → Fds
put_entry t i e s = fd_entry_ref e (set_slots t (set (s.tables t).slots i e) s)

-- `fdtable_install_at` once the table is wide enough.
unfoldable pub install_in : (t i e : ℕ) → Fds → ℤ × Fds
install_in t i e s =
    if slot (s.tables t).slots i == 0 then (pos i, put_entry t i e s) else (ebusy, s)

abbrev pub is_ok : ℤ → Bool
is_ok (pos zero) = true
is_ok (pos (suc n)) = false
is_ok (negsuc n) = false

unfoldable pub fdtable_install_at : (ok : Bool) → ℕ → ℤ → ℕ → Fds → ℤ × Fds
fdtable_install_at ok t (negsuc n) e s = (einval, s)
fdtable_install_at ok t (pos i) e s =
    let r = fdtable_grow ok t (suc i) s in
    if t == 0 || e == 0
    then (einval, s)
    else if ltb i (length (s.tables t).slots)
    then install_in t i e s
    else if is_ok r.0
    then install_in t i e r.1
    else (r.0, s)

-- The first free slot from the slot `i` on; `none` if there is none.
unfoldable pub first_free : ℕ → List ℕ → Option ℕ
first_free i [] = none
first_free i (x ∷ xs) = let rest = first_free (suc i) xs in if x == 0 then some i else rest

unfoldable pub fdtable_install : (ok : Bool) (t e : ℕ) → Fds → ℤ × Fds
fdtable_install ok t e s =
    let n = length (s.tables t).slots in
    let r = fdtable_grow ok t (n + 1) s in
    if t == 0 || e == 0 then (einval, s) else elim (first_free 0 (s.tables t).slots) [
      | some i ↦ (pos i, put_entry t i e s)
      | none ↦ if is_ok r.0 then (pos n, put_entry t n e r.1) else (r.0, s)
    ]

-- The entry, or NULL, with a reference for the caller.
unfoldable pub fdtable_get : ℕ → ℤ → Fds → ℕ × Fds
fdtable_get t (negsuc n) s = (0, s)
fdtable_get t (pos i) s =
    let e = slot (s.tables t).slots i in if t == 0 then (0, s) else (e, fd_entry_ref e s)

unfoldable pub fdtable_close : ℕ → ℤ → Fds → ℤ × Fds
fdtable_close t (negsuc n) s = (einval, s)
fdtable_close t (pos i) s =
    let xs = (s.tables t).slots in
    let e = slot xs i in
    if t == 0
    then (einval, s)
    else if e == 0
    then (ebadf, s)
    else (pos 0, fd_entry_unref e (set_slots t (set xs i 0) s))

unfoldable pub fdtable_dup : (ok : Bool) → ℕ → ℤ → Fds → ℤ × Fds
fdtable_dup ok t old s =
    let g = fdtable_get t old s in
    let r = fdtable_install ok t g.0 g.1 in
    if g.0 == 0 then (ebadf, g.1) else (r.0, fd_entry_unref g.0 r.1)

abbrev pub is_negative : ℤ → Bool
is_negative (pos n) = false
is_negative (negsuc n) = true

abbrev pub same_fd : ℤ → ℕ → Bool
same_fd (pos i) j = i == j
same_fd (negsuc n) j = false

unfoldable pub fdtable_dup2 : (ok : Bool) → ℕ → (old new : ℤ) → Fds → ℤ × Fds
fdtable_dup2 ok t old (negsuc n) s = (einval, s)
fdtable_dup2 ok t old (pos j) s =
    let g = fdtable_get t old s in
    let c = fdtable_close t (pos j) g.1 in
    let r = fdtable_install_at ok t (pos j) g.0 c.1 in
    let s1 = fd_entry_unref g.0 r.1 in
    if g.0 == 0
    then (ebadf, g.1)
    else if same_fd old j
    then (pos j, fd_entry_unref g.0 g.1)
    else if is_negative r.0
    then (r.0, s1)
    else (pos j, s1)

-- `at` is the address of the new table, or 0 if there is no memory for it.
unfoldable pub fdtable_create : (at : ℕ) (ok : Bool) → Fds → ℕ × Fds
fdtable_create at ok s =
    if at == 0
    then (0, s)
    else if ok
    then (
      at,
      record s {
        tables = put s.tables at (record { slots = replicate fd_table_initial 0; refcount = 1 });
      },
    )
    else (0, let_go (kfree at) s)

unfoldable pub fdtable_ref : ℕ → Fds → Fds
fdtable_ref t s = if t == 0 then s else record s {
  tables = put s.tables t (record (s.tables t) { refcount = add32 (s.tables t).refcount 1 });
}

unfoldable pub unref_all : List ℕ → Fds → Fds
unref_all [] s = s
unref_all (e ∷ es) s = unref_all es (fd_entry_unref e s)

unfoldable pub ref_all : List ℕ → Fds → Fds
ref_all [] s = s
ref_all (e ∷ es) s = ref_all es (fd_entry_ref e s)

unfoldable pub fdtable_unref : ℕ → Fds → Fds
fdtable_unref t s =
    let n = sub32 (s.tables t).refcount 1 in
    let s1 = record s { tables = put s.tables t (record (s.tables t) { refcount = n }) } in
    if t == 0
    then s
    else if ltb 0 n
    then s1
    else let_go (kfree t) (let_go (kfree_slots t) (unref_all (s.tables t).slots s1))

unfoldable pub fdtable_clone : (at : ℕ) (ok : Bool) (src : ℕ) → Fds → ℕ × Fds
fdtable_clone at ok src s =
    let xs = (s.tables src).slots in
    let s1 = record s { tables = put s.tables at (record { slots = xs; refcount = 1 }) } in
    if src == 0
    then fdtable_create at ok s
    else if at == 0
    then (0, s)
    else if ok
    then (at, ref_all xs s1)
    else (0, let_go (kfree at) s)
