-- ===== src/Mm/Pmm/Tests.antt =====
-- The page allocator on a database of four pages, the first of them reserved.
use lapis.Base.{
  ℕ, zero, suc, ◌≤◌, ◌≡◌, refl, true, false, Option, none, some, List, [], ◌∷◌, arith, ◌==◌,
  if◌then◌else◌, ◌&&◌,
}
use lapis.Mm.Page.{Page, no_flags}
use lapis.Mm.Pmm.{
  Pmm, at, write, set_next, set_u2, set_flags, set_refcount, drop_free, free_list_push,
  free_list_remove, init_page, init_loop, init, take_page, alloc_page, alloc_pages, find_run,
  first_used, take_run, page_release, page_retain,
}
use lapis.Mm.Pmm.Inv.{IsValid, InDb}
use lapis.Mm.Pmm.Listing.{listing}
use lapis.Mm.Pmm.Init.{IsFresh, init-IsValid}
use lapis.Mm.Pmm.Alloc.{alloc_page-IsValid, release-alloc_page}
use lapis.Mm.Pmm.Release.{page_release-IsValid, released}
use lapis.Mm.Pmm.Retain.{page_retain-IsValid}
use lapis.Mm.Pmm.Run.{alloc_pages-Allocated, Allocated}

abbrev reserved_page : Page
reserved_page = record {
  next = 0;
  u2 = 7;
  flags = record no_flags { reserved = true };
  refcount = 0;
}

abbrev unused_page : Page
unused_page = record { next = 5; u2 = 9; flags = record no_flags { free = true }; refcount = 0 }

abbrev boot : Pmm
boot = record {
  db = 0x1000;
  max_pfn = 3;
  mem = λ a. if a == 0x1000 then reserved_page else unused_page;
  free_list = 0;
  free_pages = 0;
  total_pages = 0;
}

abbrev page1 : ℕ
page1 = 0x1040

abbrev page2 : ℕ
page2 = 0x1080

abbrev page3 : ℕ
page3 = 0x10c0

abbrev pages : List ℕ
pages = page3 ∷ page2 ∷ page1 ∷ []

boot-IsFresh : IsFresh boot
boot-IsFresh = record {
  clean = λ i le. ground arith;
  unused = λ i le. ground arith;
  db_set = omega arith;
  small = omega arith;
}

ready : Pmm
unfolding init init_loop init_page free_list_push set_next set_u2 write
ready = init boot

init-IsValid_example : IsValid (init boot) pages
unfolding listing
init-IsValid_example = init-IsValid boot boot-IsFresh

ready-IsValid : IsValid ready pages
unfolding ready
ready-IsValid = init-IsValid_example

page2-in : InDb ready page2
unfolding ready
page2-in = (2, omega arith, refl)

alloc_page-IsValid_example :
    ((alloc_page ready).0 ≡ page3) × IsValid (alloc_page ready).1 (page2 ∷ page1 ∷ [])
alloc_page-IsValid_example = alloc_page-IsValid pages ready-IsValid

release-alloc_page_example :
    IsValid (page_release (alloc_page ready).0 (alloc_page ready).1) (page3 ∷ page2 ∷ page1 ∷ [])
release-alloc_page_example = release-alloc_page page3 (page2 ∷ page1 ∷ []) ready-IsValid

-- The state with page 3 allocated.
taken : Pmm
unfolding ready alloc_page take_page free_list_remove drop_free set_flags set_refcount
taken = (alloc_page ready).1

taken-IsValid : IsValid taken (page2 ∷ page1 ∷ [])
unfolding taken
taken-IsValid = alloc_page-IsValid_example.1

page3-in : InDb taken page3
unfolding taken
page3-in = (3, omega arith, refl)

page_release-IsValid_example : IsValid (page_release page3 taken) (page3 ∷ page2 ∷ page1 ∷ [])
unfolding taken released
page_release-IsValid_example =
    page_release-IsValid (page2 ∷ page1 ∷ []) page3 taken-IsValid page3-in

page_retain-IsValid_example : IsValid (page_retain page2 ready) (page3 ∷ page1 ∷ [])
unfolding ready
page_retain-IsValid_example = page_retain-IsValid pages page2 ready-IsValid page2-in refl

upto_three : (P : ℕ → Type 0) → P 0 → P 1 → P 2 → P 3 → (i : ℕ) → i ≤ 3 → P i
upto_three P a b c d zero le = a
upto_three P a b c d (suc zero) le = b
upto_three P a b c d (suc (suc zero)) le = c
upto_three P a b c d (suc (suc (suc zero))) le = d
upto_three P a b c d (suc (suc (suc (suc i)))) le = absurd (omega arith)

alloc_pages-Allocated_example :
    (out : ℕ × Pmm) × (alloc_pages 2 ready ≡ some out) × Allocated ready pages 2 out
unfolding ready
alloc_pages-Allocated_example =
    alloc_pages-Allocated pages 2 ready-IsValid (λ i le. ready-clean i le) (omega arith)
      (omega arith)
  where
    ready-clean :
        (i : ℕ)
        → i ≤ ready.max_pfn
        → (ready.mem (at ready.db i)).flags.free && (ready.mem (at ready.db i)).flags.dirty ≡ false
    ready-clean =
        upto_three
          (λ i.
            (ready.mem (at ready.db i)).flags.free && (ready.mem (at ready.db i)).flags.dirty
            ≡ false)
          refl refl refl refl

-- Two pages from page 1 on: page 0 is reserved.
alloc_two : Option ℕ
unfolding ready alloc_pages find_run first_used take_run take_page free_list_remove drop_free
    set_flags set_refcount
alloc_two = elim (alloc_pages 2 ready) [ none ↦ none | some (p, s) ↦ some p ]

alloc_two_lem : alloc_two ≡ some page1
unfolding alloc_two
alloc_two_lem = refl
