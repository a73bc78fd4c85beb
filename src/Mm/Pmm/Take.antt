-- ===== src/Mm/Pmm/Take.antt =====
-- `pmm_alloc_page` and `pmm_page_retain`: a page leaves the free list, and the invariant holds of
-- what is left.
use lapis.Base.{
  ℕ, ◌-◌, ◌≤◌, ◌≡◌, ◌≢◌, true, false, List, arith, ◌==◌, sym, ap, ◌∙◌, has, erase, has-erase_ne,
  not-has-erase, length-erase, has_of_erase, if◌then◌else◌, inl, inr, Bool-cases, eq_of_test,
  ne_of_test, test_ne,
}
use lapis.Dll.{Links-frame, ne-of_has}
use lapis.Mm.Page.{Flags}
use lapis.Mm.Pmm.{Pmm, at, free_list_remove, take_page}
use lapis.Mm.Pmm.Inv.{nexts, prevs, IsFreeList, listed, IsValid}
use lapis.Mm.Pmm.Fields.{fields}
use lapis.Mm.Pmm.Remove.{remove-IsFreeList, remove_keeps}

-- The flags of a page that is taken off the list.
abbrev pub taken_flags : Flags → Flags
taken_flags f = record f {
  free = false;
  reserved = false;
  shared = false;
  cow = false;
  allocated = true;
}

module _ (p : ℕ) (s : Pmm) where
  next-take_page : (b : ℕ) → nexts (take_page p s) b ≡ nexts (free_list_remove p s) b
  unfolding take_page
  next-take_page b = simp fields (ground arith)

  prev-take_page :
      (b : ℕ) → prevs (take_page p s) b ≡ (if b == p then 1 else prevs (free_list_remove p s) b)
  unfolding take_page
  prev-take_page b = simp fields (ground arith)

  pub flags-take_page :
      (b : ℕ)
      → ((take_page p s).mem b).flags
        ≡ (if b == p then taken_flags (s.mem b).flags else (s.mem b).flags)
  unfolding take_page
  flags-take_page b = simp (fields, remove_keeps) (ground arith)

  pub refcount-take_page :
      (b : ℕ) → ((take_page p s).mem b).refcount ≡ (if b == p then 1 else (s.mem b).refcount)
  unfolding take_page
  refcount-take_page b = simp (fields, remove_keeps) (ground arith)

  head-take_page : (take_page p s).free_list ≡ (free_list_remove p s).free_list
  unfolding take_page
  head-take_page = simp fields

  pub free_pages-take_page : (take_page p s).free_pages ≡ s.free_pages - 1
  unfolding take_page
  free_pages-take_page = simp (fields, remove_keeps)

  pub db-take_page : (take_page p s).db ≡ s.db
  unfolding take_page
  db-take_page = simp (fields, remove_keeps)

  pub max_pfn-take_page : (take_page p s).max_pfn ≡ s.max_pfn
  unfolding take_page
  max_pfn-take_page = simp (fields, remove_keeps)

module _ {s : Pmm} {xs : List ℕ} (v : IsValid s xs) (p : ℕ) (h : has p xs ≡ true) where
  take_page-IsFreeList : IsFreeList (take_page p s) (erase p xs)
  take_page-IsFreeList =
      let r = remove-IsFreeList v.list p h in
      record {
        distinct = r.distinct;
        head = head-take_page p s ∙ r.head;
        links =
            Links-frame 0 (erase p xs)
              (λ a k. (next-take_page p s a, prev-take_page p s a ∙ rw (test_ne a p (apart a k))))
              r.links;
      }
    where
      apart : (a : ℕ) → has a (erase p xs) ≡ true → a ≢ p
      apart a k = ne-of_has a p (erase p xs) k (not-has-erase p xs v.list.distinct)

  exact-take_page :
      (i : ℕ)
      → i ≤ s.max_pfn
      → has (at s.db i) (erase p xs) ≡ listed ((take_page p s).mem (at s.db i)).flags
  exact-take_page i le = elim (Bool-cases (at s.db i == p)) [
    | inl t ↦
        rw (flags-take_page p s, t)
          (ap (λ k. has k (erase p xs)) (eq_of_test (at s.db i) p t)
            ∙ not-has-erase p xs v.list.distinct)
    | inr t ↦
        rw (flags-take_page p s, t)
          (has-erase_ne p (at s.db i) xs (λ e. ne_of_test (at s.db i) p t (sym e)) ∙ v.exact i le)
  ]

  idle-take_page :
      (i : ℕ)
      → i ≤ s.max_pfn
      → has (at s.db i) (erase p xs) ≡ true
      → ((take_page p s).mem (at s.db i)).refcount ≡ 0
  idle-take_page i le k =
      rw
        (
          refcount-take_page p s,
          test_ne (at s.db i) p
              (ne-of_has (at s.db i) p (erase p xs) k (not-has-erase p xs v.list.distinct)),
        )
        (v.idle i le (has_of_erase (at s.db i) p xs k))

  -- A page of the free list is taken: the others stay on it, in order, and the counter is one less.
  pub take_page-IsValid : IsValid (take_page p s) (erase p xs)
  take_page-IsValid = record {
    list = take_page-IsFreeList;
    count = free_pages-take_page p s ∙ omega (arith, v.count, length-erase p xs h);
    in_db = λ a k. rw (db-take_page p s, max_pfn-take_page p s) (v.in_db a (has_of_erase a p xs k));
    exact = λ i le. rw (db-take_page p s) (exact-take_page i (rw (max_pfn-take_page p s) at le));
    idle = λ i le k.
        rw (db-take_page p s)
          (idle-take_page i (rw (max_pfn-take_page p s) at le) (rw (db-take_page p s) at k));
    db_set = rw (db-take_page p s) v.db_set;
    small = rw (db-take_page p s, max_pfn-take_page p s) v.small;
  }
