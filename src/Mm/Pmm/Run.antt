-- ===== src/Mm/Pmm/Run.antt =====
-- `pmm_alloc_pages`: the first run that fits is taken, page by page.
use lapis.Base.{
  ℕ, zero, suc, ◌+◌, ◌≤◌, ◌<◌, ◌≡◌, refl, ◌≢◌, true, false, ◌&&◌, some, List, arith, leb,
  le_of_test, sym, ap, ◌∙◌, inl, inr, Bool-cases, add64, mod64, has, erase, has-erase_ne, subst,
  test_ne,
}
use lapis.Mm.Page.{Flags}
use lapis.Mm.Pmm.{
  Pmm, at, take_page, take_run, find_run, Found, run_at, no_run, out_of_fuel, alloc_pages,
}
use lapis.Mm.Pmm.Inv.{IsValid, listed}
use lapis.Mm.Pmm.Take.{take_page-IsValid, db-take_page}
use lapis.Mm.Pmm.Search.{is_free, IsRun, Answers, find_run-Answers, find_run-too_many}

-- The list without the pages `i + j`, …, `i + j + k - 1`.
pub erase_run : ℕ → (k i j : ℕ) → List ℕ → List ℕ
erase_run db zero i j xs = xs
erase_run db (suc k) i j xs = erase_run db k i (j + 1) (erase (at db (i + j)) xs)

at-ne : (db i t j : ℕ) → t ≢ j → at db (i + j) ≢ at db (i + t)
at-ne db i t j ne e = ne (omega arith)

take_run-IsValid :
    (k i j : ℕ) {s : Pmm} {xs : List ℕ}
    → IsValid s xs
    → i + j + k ≤ mod64
    → ((t : ℕ) → j ≤ t → t < j + k → has (at s.db (i + t)) xs ≡ true)
    → IsValid (take_run k i j s) (erase_run s.db k i j xs)
unfolding take_run erase_run
take_run-IsValid zero i j v fits free = v
take_run-IsValid (suc k) i j {s} {xs} v fits free = rw e (
    subst
      (λ d. IsValid (take_run k i (j + 1) (take_page p s)) (erase_run d k i (j + 1) (erase p xs)))
      (db-take_page p s)
      (take_run-IsValid k i (j + 1) (take_page-IsValid v p (free j (omega arith) (omega arith)))
        (omega arith)
        (λ t a b.
          subst (λ d. has (at d (i + t)) (erase p xs) ≡ true) (sym (db-take_page p s))
            (has-erase_ne p (at s.db (i + t)) xs (at-ne s.db i t j (omega arith))
              ∙ free t (omega arith) (omega arith)))))
  where
    e : add64 i j ≡ i + j
    e = omega arith

    p : ℕ
    p = at s.db (i + j)

-- What `pmm_alloc_pages` returns and leaves: the first run of so many free pages, taken off the
-- list; or NULL and the state as it was, if there is no such run.
pub data Allocated (s : Pmm) (xs : List ℕ) (count : ℕ) (out : ℕ × Pmm) : Type 0 where
  got :
      (i : ℕ)
      → out.0 ≡ at s.db i
      → i + count ≤ s.max_pfn + 1
      → IsRun s count i
      → ((m : ℕ) → m < i → ¬ (IsRun s count m))
      → IsValid out.1 (erase_run s.db count i 0 xs)
      → Allocated s xs count out
  nothing :
      out.0 ≡ 0
      → out.1 ≡ s
      → ((m : ℕ) → m + count ≤ s.max_pfn + 1 → ¬ (IsRun s count m))
      → Allocated s xs count out

module _ {s : Pmm} (xs : List ℕ) (count : ℕ) (v : IsValid s xs)
    (clean : (i : ℕ)
      → i ≤ s.max_pfn
      → (s.mem (at s.db i)).flags.free && (s.mem (at s.db i)).flags.dirty ≡ false) where
  on_list : (i : ℕ) → i ≤ s.max_pfn → is_free s i ≡ true → has (at s.db i) xs ≡ true
  on_list i le f = v.exact i le ∙ listed_of (s.mem (at s.db i)).flags f (clean i le)
    where
      listed_of : (g : Flags) → g.free ≡ true → g.free && g.dirty ≡ false → listed g ≡ true
      listed_of g f c = ground arith

  -- From its first test on the search gives an answer that can be acted on.
  act :
      2 ≤ count
      → (r : Found) → find_run (s.max_pfn + 2) count 0 s ≡ r
      → Answers s count 0 r
      → (out : ℕ × Pmm) × (alloc_pages count s ≡ some out) × Allocated s xs count out
  unfolding alloc_pages
  act two (run_at i) e (a, b, c, d) = (
    (at s.db i, take_run count i 0 s),
    rw (test_ne count 0 (omega arith), test_ne count 1 (omega arith), e),
    got i refl b c (λ m l. d m (omega arith) l)
        (take_run-IsValid count i 0 v (omega (arith, v.small))
          (λ t l u. on_list (i + t) (omega arith) (c t (omega arith)))),
  )
  act two no_run e c = (
    (0, s),
    rw (test_ne count 0 (omega arith), test_ne count 1 (omega arith), e),
    nothing refl refl (λ m l. c m (omega arith) l),
  )
  act two out_of_fuel e c = absurd c

  -- `pmm_alloc_pages` for at least two pages finds the first run of so many free pages and takes it
  -- off the list, or returns NULL and changes nothing if there is none. It always returns; no page
  -- may be both free and dirty.
  pub alloc_pages-Allocated :
      2 ≤ count
      → count < mod64
      → (out : ℕ × Pmm) × (alloc_pages count s ≡ some out) × Allocated s xs count out
  alloc_pages-Allocated two small = elim (Bool-cases (leb count (s.max_pfn + 1))) [
    | inl w ↦ act two (find_run (s.max_pfn + 2) count 0 s) refl (
        find_run-Answers s count (omega arith) (le_of_test count (s.max_pfn + 1) w)
          (omega (arith, v.small)) (s.max_pfn + 2) 0 (omega arith) (omega arith))
    | inr w ↦
        act two no_run
          (ap (λ f. find_run f count 0 s) (omega arith)
            ∙ find_run-too_many (s.max_pfn + 1) count s (over w) small)
          (λ m a b. absurd (none_fits w m b))
  ]
    where
      over : leb count (s.max_pfn + 1) ≡ false → s.max_pfn + 1 < count
      over w = ground arith

      none_fits : leb count (s.max_pfn + 1) ≡ false → (m : ℕ) → m + count ≤ s.max_pfn + 1 → ⊥
      none_fits w m b = ground arith
