-- ===== src/Mm/Pmm.antt =====
-- kernel/src/mm/pmm.c: the allocator of physical pages. Its free list is threaded through the page
-- descriptors. Every function runs between `spinlock_acquire` and `spinlock_release` of `pmm_lock`,
-- so each is one step here.
pub mod Inv
pub mod Fields
pub mod Remove
pub mod Take
pub mod Bound
pub mod Push
pub mod Touch
pub mod Free
pub mod Release
pub mod Alloc
pub mod Retain
pub mod Share
pub mod Search
pub mod Run
pub mod Listing
pub mod Init
mod Tests
use lapis.Base.{
  ℕ, zero, suc, ◌+◌, ◌-◌, ◌*◌, true, false, not, Option, none, some, ◌==◌, ltb, leb, if◌then◌else◌,
  add32, add64, sub64,
}
use lapis.Mm.Page.{Flags, Page, sizeof_page}

-- The static variables of pmm.c, and what `pfn_db_getdb` and `pfn_db_getmax` return. `mem` holds the
-- descriptor at an address.
pub record Pmm : Type 0 where
  pub db : ℕ
  pub max_pfn : ℕ
  pub mem : ℕ → Page
  pub free_list : ℕ
  pub free_pages : ℕ
  pub total_pages : ℕ

-- `&db[i]`
abbrev pub at : ℕ → ℕ → ℕ
at db i = db + sizeof_page * i

pub write : (ℕ → Page) → ℕ → Page → ℕ → Page
write mem p page q = if q == p then page else mem q

-- `page->u1.next = v` and `page->u2.prev = v`
pub set_next : ℕ → ℕ → Pmm → Pmm
unfolding write
set_next p v s = record s { mem = write s.mem p (record (s.mem p) { next = v }) }

pub set_u2 : ℕ → ℕ → Pmm → Pmm
unfolding write
set_u2 p v s = record s { mem = write s.mem p (record (s.mem p) { u2 = v }) }

pub set_flags : ℕ → Flags → Pmm → Pmm
unfolding write
set_flags p v s = record s { mem = write s.mem p (record (s.mem p) { flags = v }) }

pub set_refcount : ℕ → ℕ → Pmm → Pmm
unfolding write
set_refcount p v s = record s { mem = write s.mem p (record (s.mem p) { refcount = v }) }

pub free_list_remove : ℕ → Pmm → Pmm
free_list_remove page s =
    let prev = (s.mem page).u2 in
    let next = (s.mem page).next in
    let s1 = if prev == 0 then record s { free_list = next } else set_next prev next s in
    let s2 = if next == 0 then s1 else set_u2 next prev s1 in set_u2 page 0 (set_next page 0 s2)

pub free_list_push : ℕ → Pmm → Pmm
free_list_push page s =
    let s1 = set_next page s.free_list (set_u2 page 0 s) in
    let s2 = if s1.free_list == 0 then s1 else set_u2 s1.free_list page s1 in
    record s2 { free_list = page }

-- `if (free_pages > 0) free_pages--`
pub drop_free : Pmm → Pmm
drop_free s = if s.free_pages == 0 then s else record s { free_pages = s.free_pages - 1 }

-- The body of the loop of `pmm_init`.
pub init_page : ℕ → Pmm → Pmm
init_page page s =
    if (s.mem page).flags.free
    then (let s1 = free_list_push page (set_u2 page 0 (set_next page 0 s)) in
        record s1 { free_pages = add64 s1.free_pages 1 })
    else set_u2 page 0 (set_next page 0 s)

-- The loop from `i` on, with `k` rounds left.
pub init_loop : ℕ → ℕ → Pmm → Pmm
init_loop zero i s = s
init_loop (suc k) i s = init_loop k (i + 1) (init_page (at s.db i) s)

pub init : Pmm → Pmm
init s =
    let s0 = record s { free_list = 0; free_pages = 0; total_pages = add64 s.max_pfn 1 } in
    if s.db == 0 then s0 else init_loop (s.max_pfn + 1) 0 s0

-- What `pmm_alloc_page` and `pmm_alloc_pages` make of a page that they take off the list.
pub take_page : ℕ → Pmm → Pmm
take_page page s =
    let s1 = drop_free (free_list_remove page s) in
    let f = (s1.mem page).flags in
    let cleared = record f { free = false; reserved = false; shared = false; cow = false } in
    let s2 = set_flags page (record cleared { allocated = true }) s1 in
    set_u2 page 1 (set_refcount page 1 s2)

pub alloc_page : Pmm → ℕ × Pmm
alloc_page s = if s.free_list == 0 then (0, s) else (s.free_list, take_page s.free_list s)

-- The inner loop of `pmm_alloc_pages`, from `j` on with `k` rounds left: the first page of the run
-- that is not free.
pub first_used : ℕ → (i j : ℕ) → Pmm → Option ℕ
first_used zero i j s = none
first_used (suc k) i j s =
    let rest = first_used k i (j + 1) s in
    if (s.mem (at s.db (add64 i j))).flags.free then rest else some j

-- The outer loop, from `i` on. It leaves by `return &db[i]`, or by its test.
pub data Found : Type 0 where
  run_at : ℕ → Found
  no_run : Found
  out_of_fuel : Found

pub find_run : ℕ → (count i : ℕ) → Pmm → Found
find_run zero count i s = out_of_fuel
find_run (suc f) count i s =
    let from = λ (m : ℕ). find_run f count m s in
    if leb (sub64 (add64 i count) 1) s.max_pfn
    then elim (first_used count i 0 s) [ none ↦ run_at i | some j ↦ from (add64 (add64 i j) 1) ]
    else no_run

-- The loop that takes the pages of the run.
pub take_run : ℕ → (i j : ℕ) → Pmm → Pmm
take_run zero i j s = s
take_run (suc k) i j s = take_run k i (j + 1) (take_page (at s.db (add64 i j)) s)

-- `none` if the rounds given do not suffice.
pub alloc_pages : ℕ → Pmm → Option (ℕ × Pmm)
alloc_pages count s =
    if count == 0
    then some (0, s)
    else if count == 1
    then some (alloc_page s)
    else elim (find_run (s.max_pfn + 2) count 0 s) [
      | run_at i ↦ some (at s.db i, take_run count i 0 s)
      | no_run ↦ some (0, s)
      | out_of_fuel ↦ none
    ]

-- `palloc`: the address at which the kernel sees the page, by `pfn_db_page_to_phys` and the offset of
-- the direct map.
pub palloc : (page_to_phys : ℕ → ℕ) (hhdm_offset : ℕ) → Pmm → ℕ × Pmm
palloc page_to_phys hhdm_offset s =
    let (page, s') = alloc_page s in
    if page == 0 then (0, s') else (add64 (page_to_phys page) hhdm_offset, s')

-- A free page is taken off the list by `pmm_page_retain`.
pub claim : ℕ → Pmm → Pmm
claim page s =
    let s1 = drop_free (free_list_remove page s) in
    let f = (s1.mem page).flags in
    set_flags page (record f { free = false; reserved = false; allocated = true }) s1

-- `page->refcount++`; the first reference sets `sharecount`.
pub count_ref : ℕ → Pmm → Pmm
count_ref page s =
    let s1 = set_refcount page (add32 (s.mem page).refcount 1) s in
    if (s1.mem page).refcount == 1 then set_u2 page 1 s1 else s1

pub page_retain : ℕ → Pmm → Pmm
page_retain page s =
    if page == 0 then s else count_ref page (if (s.mem page).flags.free then claim page s else s)

-- The last reference is gone: `pmm_page_release` from its `page->flags &= …` on.
pub free_page : ℕ → Pmm → Pmm
free_page page s =
    let f = (s.mem page).flags in
    let cleared = record f { allocated = false; shared = false; cow = false } in
    let s1 = set_u2 page 0 (set_flags page (record cleared { free = true }) s) in
    if (s1.mem page).flags.dirty
    then s1
    else (let s2 = free_list_push page s1 in record s2 { free_pages = add64 s2.free_pages 1 })

pub page_release : ℕ → Pmm → Pmm
page_release page s =
    if page == 0
    then s
    else if (s.mem page).refcount == 0
    then s
    else (let s1 = set_refcount page ((s.mem page).refcount - 1) s in
        if ltb 0 (s1.mem page).refcount
        then s1
        else if (s1.mem page).flags.reserved
        then s1
        else free_page page s1)

pub page_share : ℕ → Pmm → Pmm
page_share page s =
    if page == 0
    then s
    else (let marked = set_flags page (record (s.mem page).flags { shared = true }) s in
        let first = if (marked.mem page).u2 == 0 then set_u2 page 1 marked else marked in
        let s1 = if (s.mem page).flags.shared then s else first in
        set_u2 page (add64 (s1.mem page).u2 1) s1)

-- `if (page->u2.sharecount > 0) page->u2.sharecount--`
pub drop_sharer : ℕ → Pmm → Pmm
drop_sharer page s = if ltb 0 (s.mem page).u2 then set_u2 page ((s.mem page).u2 - 1) s else s

pub page_unshare : ℕ → Pmm → Pmm
page_unshare page s =
    if page == 0
    then s
    else if not (s.mem page).flags.shared
    then s
    else (let s1 = drop_sharer page s in
        if leb (s1.mem page).u2 1
        then set_flags page (record (s1.mem page).flags { shared = false }) s1
        else s1)

pub page_mark_cow : ℕ → Pmm → Pmm
page_mark_cow page s =
    if page == 0 then s else set_flags page (record (s.mem page).flags { cow = true }) s

pub page_clear_cow : ℕ → Pmm → Pmm
page_clear_cow page s =
    if page == 0 then s else set_flags page (record (s.mem page).flags { cow = false }) s

-- `pmm_pages_release`: page `i` of the run, and `k` more rounds.
pub pages_release : ℕ → (page i : ℕ) → Pmm → Pmm
pages_release zero page i s = s
pages_release (suc k) page i s =
    pages_release k page (i + 1) (page_release (page + sizeof_page * i) s)
