-- ===== src/Mm/PfnDb.antt =====
-- kernel/src/mm/pfn_db.c: the database of the page frames, built from the memory map of the boot
-- loader, and the conversions between frames, addresses and descriptors.
pub mod Boot
pub mod Convert
mod Tests
use lapis.Base.{
  ℕ, zero, suc, ◌+◌, ◌-◌, ◌*◌, ◌/◌, ◌%◌, Bool, true, false, Option, some, none, List, [], ◌∷◌, ◌&&◌,
  ◌||◌, ◌==◌, if◌then◌else◌, ltb, leb, put, mod64, add64, sub64,
}
use lapis.Mm.Page.{Flags, Page, no_flags, sizeof_page, page_size}

-- An entry of the memory map; `usable` is its type LIMINE_MEMMAP_USABLE.
pub record Region : Type 0 where
  pub base : ℕ
  pub length : ℕ
  pub usable : Bool

unfoldable pub end_pfn : Region → ℕ
end_pfn r = (r.base + r.length + page_size - 1) % mod64 / page_size

-- The loop of `_pfn_db_calc_max_pfn`.
unfoldable pub max_loop : ℕ → List Region → ℕ
max_loop m [] = m
max_loop m (r ∷ rs) =
    let m1 = if r.usable then (if ltb m (end_pfn r) then end_pfn r else m) else m in max_loop m1 rs

unfoldable pub calc_max_pfn : List Region → ℕ
calc_max_pfn rs = max_loop 0 rs

unfoldable pub db_size : ℕ → ℕ
db_size max = ((max + 1) * sizeof_page + page_size - 1) % mod64 / page_size * page_size

-- `_pfn_db_reserve`: where the database lies, with the memory map that is left; `none` where the
-- kernel stops.
unfoldable pub reserve : ℕ → List Region → Option (ℕ × List Region)
reserve size [] = none
reserve size (r ∷ rs) =
    let rest = reserve size rs in
    if r.usable && leb size r.length
    then some (
      r.base,
      record { base = add64 r.base size; length = r.length - size; usable = r.usable } ∷ rs,
    )
    else elim rest [ none ↦ none | some (phys, left) ↦ some (phys, r ∷ left) ]

abbrev pub reserved_flags : Flags
reserved_flags = record no_flags { reserved = true }

-- The descriptors by frame number.
abbrev pub MemMap : Type 0
MemMap = ℕ → Page

-- One round of the first loop of `pfn_db_init`; `db` is the address of the database.
unfoldable pub blank_page : (db max i : ℕ) → MemMap → MemMap
blank_page db max i mem =
    let next = if ltb i max then db + sizeof_page * (i + 1) else 0 in
    put mem i (record (mem i) { flags = reserved_flags; refcount = 0; next = next })

unfoldable pub blank_loop : (n db max : ℕ) → MemMap → MemMap
blank_loop zero db max mem = mem
blank_loop (suc n) db max mem = blank_page db max n (blank_loop n db max mem)

abbrev pub freed : Page → Page
freed p = record p { flags = record p.flags { free = true; allocated = false; reserved = false } }

-- The loop over the frames of a region, over `n` frames from `pfn` on.
unfoldable pub free_loop : (n pfn max : ℕ) → MemMap → MemMap
free_loop zero pfn max mem = mem
free_loop (suc n) pfn max mem =
    let rest = free_loop n (suc pfn) max (put mem pfn (freed (mem pfn))) in
    if leb pfn max then rest else mem

unfoldable pub start_frame : Region → ℕ
start_frame r = r.base / page_size

unfoldable pub end_frame : Region → ℕ
end_frame r = add64 r.base r.length / page_size

unfoldable pub free_regions : List Region → (max : ℕ) → MemMap → MemMap
free_regions [] max mem = mem
free_regions (r ∷ rs) max mem =
    let mem1 = free_loop (end_frame r - start_frame r) (start_frame r) max mem in
    free_regions rs max (if r.usable then mem1 else mem)

-- The loops of `pfn_db_init`, on the memory map that `reserve` leaves.
unfoldable pub fill : (db max : ℕ) → List Region → MemMap → MemMap
fill db max rs mem =
    let mem1 = free_regions rs max (blank_loop (max + 1) db max mem) in
    put mem1 0 (record (mem1 0) { flags = reserved_flags; refcount = 0 })

-- `hhdm` is the offset of the direct map. The result is the database, its last frame and the
-- descriptors.
unfoldable pub init : (hhdm : ℕ) → List Region → MemMap → Option (ℕ × (ℕ × MemMap))
init hhdm rs mem =
    let max = calc_max_pfn rs in
    elim (reserve (db_size max) rs) [
      | none ↦ none
      | some (phys, left) ↦
          let db = add64 phys hhdm in
          if db == 0 then none else some (db, (max, fill db max left mem))
    ]

abbrev pub minus_one : ℕ
minus_one = mod64 - 1

unfoldable pub getptr : (db max pfn : ℕ) → ℕ
getptr db max pfn = if ltb max pfn then 0 else db + sizeof_page * pfn

unfoldable pub pfnaddr : (max pfn : ℕ) → ℕ
pfnaddr max pfn = if ltb max pfn then 0 else (pfn * page_size) % mod64

-- Whether an address is one of the database.
unfoldable pub outside : (db max page : ℕ) → Bool
outside db max page = ltb page db || ltb (db + sizeof_page * max) page

unfoldable pub getpfn : (db max page : ℕ) → ℕ
getpfn db max page =
    if page == 0 || db == 0
    then minus_one
    else if outside db max page
    then minus_one
    else (page - db) / sizeof_page

unfoldable pub page_to_phys : (db max page : ℕ) → ℕ
page_to_phys db max page =
    if page == 0 || db == 0
    then 0
    else if outside db max page
    then 0
    else ((page - db) / sizeof_page * page_size) % mod64

unfoldable pub phys_to_page : (db max phys : ℕ) → ℕ
phys_to_page db max phys = getptr db max (phys / page_size)
