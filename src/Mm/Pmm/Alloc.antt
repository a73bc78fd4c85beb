-- ===== src/Mm/Pmm/Alloc.antt =====
-- `pmm_alloc_page`, alone and followed by `pmm_page_release`.
use lapis.Base.{
  ℕ, ◌≡◌, refl, ◌≢◌, true, false, List, [], ◌∷◌, arith, sym, subst, ◌∙◌, has, erase, first_of,
  test_ne, test_self,
}
use lapis.Dll.{has-here}
use lapis.Mm.Page.{Flags}
use lapis.Mm.Pmm.{Pmm, take_page, page_release, alloc_page}
use lapis.Mm.Pmm.Inv.{InDb, listed, IsValid}
use lapis.Mm.Pmm.Take.{
  take_page-IsValid, flags-take_page, refcount-take_page, db-take_page, max_pfn-take_page,
}
use lapis.Mm.Pmm.Bound.{listed-has}
use lapis.Mm.Pmm.Release.{released, page_release-IsValid}

alloc_page-none : (s : Pmm) → s.free_list ≡ 0 → alloc_page s ≡ (0, s)
unfolding alloc_page
alloc_page-none s h = rw h

alloc_page-some : (s : Pmm) {p : ℕ} → s.free_list ≡ p → p ≢ 0 → alloc_page s ≡ (p, take_page p s)
unfolding alloc_page
alloc_page-some s {p} h ne = rw (h, test_ne p 0 ne)

-- `pmm_alloc_page` returns the first page of the free list, or NULL if the list is empty; the
-- invariant then holds of the rest of the list.
pub alloc_page-IsValid :
    {s : Pmm} (xs : List ℕ)
    → IsValid s xs
    → ((alloc_page s).0 ≡ first_of xs) × IsValid (alloc_page s).1 (erase (first_of xs) xs)
alloc_page-IsValid {s} [] w = rw (alloc_page-none s w.list.head) (refl, w)
alloc_page-IsValid {s} (y ∷ ys) w =
    rw (alloc_page-some s w.list.head w.list.distinct.0)
      (refl, take_page-IsValid w y (has-here y y ys refl))

-- A page that is allocated and released again stands at the head of the free list as before: the
-- list and the counter are restored.
pub release-alloc_page :
    {s : Pmm} (p : ℕ) (xs : List ℕ)
    → IsValid s (p ∷ xs)
    → IsValid (page_release (alloc_page s).0 (alloc_page s).1) (p ∷ xs)
unfolding released
release-alloc_page {s} p xs w =
    rw (alloc_page-some s w.list.head w.list.distinct.0)
      (subst (IsValid (page_release p t)) back (page_release-IsValid xs p taken in_t))
  where
    here : has p (p ∷ xs) ≡ true
    here = has-here p p xs refl

    t : Pmm
    t = take_page p s

    taken : IsValid t xs
    taken = subst (IsValid t) (rw (test_self p) refl) (take_page-IsValid w p here)

    in_t : InDb t p
    in_t = rw (db-take_page p s, max_pfn-take_page p s) (w.in_db p here)

    clean_of : (f : Flags) → listed f ≡ true → f.dirty ≡ false
    clean_of f h = ground arith

    clean : (s.mem p).flags.dirty ≡ false
    clean = clean_of (s.mem p).flags (sym (listed-has w p (w.in_db p here)) ∙ here)

    back : released p t xs ≡ p ∷ xs
    back = rw (refcount-take_page p s, flags-take_page p s, test_self p) (rw clean refl)
