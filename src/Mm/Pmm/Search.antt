-- ===== src/Mm/Pmm/Search.antt =====
-- `pmm_alloc_pages`: the search for a run of free pages.
use lapis.Base.{
  ℕ, zero, suc, ◌+◌, ◌-◌, ◌^◌, ◌≤◌, ◌<◌, ◌≡◌, ◌≢◌, Bool, true, false, Option, none, some, arith,
  ◌==◌, leb, ltb, le_of_test, subst, sym, ap, ◌∙◌, inl, inr, Bool-cases, eq_of_test, ne_of_test,
  add64, sub64, mod64,
}
use lapis.Mm.Pmm.{Pmm, at, first_used, find_run, Found, run_at, no_run, out_of_fuel}

abbrev pub is_free : Pmm → ℕ → Bool
is_free s i = (s.mem (at s.db i)).flags.free

-- The pages `i`, …, `i + count - 1` are free.
abbrev pub IsRun : Pmm → (count i : ℕ) → Type 0
IsRun s count i = (j : ℕ) → j < count → is_free s (i + j) ≡ true

-- What a pass over a run from `j` on tells.
Scanned : Pmm → (k i j : ℕ) → Option ℕ → Type 0
Scanned s k i j none = (t : ℕ) → j ≤ t → t < j + k → is_free s (i + t) ≡ true
Scanned s k i j (some u) = (j ≤ u) × (u < j + k) × (is_free s (i + u) ≡ false)

first_used-Scanned :
    (s : Pmm) (k i j : ℕ) → i + j + k ≤ mod64 → Scanned s k i j (first_used k i j s)
unfolding first_used Scanned
first_used-Scanned s zero i j fits = λ t a b. absurd (omega arith)
first_used-Scanned s (suc k) i j fits = elim (Bool-cases (is_free s (add64 i j))) [
  | inl f ↦
      rw f (more (first_used k i (j + 1) s) f (first_used-Scanned s k i (j + 1) (omega arith)))
  | inr f ↦ rw f (omega arith, omega arith, ap (is_free s) (sym e) ∙ f)
]
  where
    e : add64 i j ≡ i + j
    e = omega arith

    above : (t : ℕ) → j ≤ t → t ≢ j → j + 1 ≤ t
    above t a ne = omega arith

    more :
        (o : Option ℕ)
        → is_free s (add64 i j) ≡ true
        → Scanned s k i (j + 1) o
        → Scanned s (suc k) i j o
    more none f c = λ t a b. elim (Bool-cases (t == j)) [
      | inl w ↦ ap (λ k. is_free s (i + k)) (eq_of_test t j w) ∙ (ap (is_free s) (sym e) ∙ f)
      | inr w ↦ c t (above t a (ne_of_test t j w)) (omega arith)
    ]
    more (some u) f c = (omega arith, omega arith, c.2)

-- The answer of the search from page `i` on: the first run, or that there is none.
abbrev pub Answers : Pmm → (count i : ℕ) → Found → Type 0
Answers s count i (run_at r) =
    (i ≤ r)
    × (r + count ≤ s.max_pfn + 1)
    × IsRun s count r
    × ((m : ℕ) → i ≤ m → m < r → ¬ (IsRun s count m))
Answers s count i no_run = (m : ℕ) → i ≤ m → m + count ≤ s.max_pfn + 1 → ¬ (IsRun s count m)
Answers s count i out_of_fuel = ⊥

module _ (s : Pmm) (count : ℕ) (some_pages : 1 ≤ count) (fits : count ≤ s.max_pfn + 1)
    (small : s.max_pfn + 1 < 2 ^ 62) where
  guard-eq :
      (i : ℕ)
      → i ≤ s.max_pfn + 1
      → leb (sub64 (add64 i count) 1) s.max_pfn ≡ leb (i + count) (s.max_pfn + 1)
  guard-eq i le = ap (λ k. leb k s.max_pfn) e ∙ shift (i + count) s.max_pfn (omega arith)
    where
      e : sub64 (add64 i count) 1 ≡ i + count - 1
      e = omega arith

      shift : (a m : ℕ) → 1 ≤ a → leb (a - 1) m ≡ leb a (m + 1)
      shift a m h = ground arith

  -- No run begins at or before a page that is not free and lies within it.
  blocked :
      (i u m : ℕ) → u < count → is_free s (i + u) ≡ false → i ≤ m → m ≤ i + u → ¬ (IsRun s count m)
  blocked i u m lt used a b run = cc (run (i + u - m) (omega arith), used, e)
    where
      e : is_free s (m + (i + u - m)) ≡ is_free s (i + u)
      e = ap (is_free s) (omega arith)

  skip :
      (i u : ℕ) (r : Found)
      → u < count
      → is_free s (i + u) ≡ false
      → Answers s count (i + u + 1) r
      → Answers s count i r
  skip i u (run_at r) lt used (a, b, c, d) = (
    omega arith,
    b,
    c,
    λ m le l. elim (Bool-cases (ltb (i + u) m)) [
      | inl w ↦ d m (past m w) l
      | inr w ↦ blocked i u m lt used le (upto m w)
    ],
  )
    where
      past : (m : ℕ) → ltb (i + u) m ≡ true → i + u + 1 ≤ m
      past m w = ground arith

      upto : (m : ℕ) → ltb (i + u) m ≡ false → m ≤ i + u
      upto m w = ground arith
  skip i u no_run lt used c = λ m le f. elim (Bool-cases (ltb (i + u) m)) [
    | inl w ↦ c m (past m w) f
    | inr w ↦ blocked i u m lt used le (upto m w)
  ]
    where
      past : (m : ℕ) → ltb (i + u) m ≡ true → i + u + 1 ≤ m
      past m w = ground arith

      upto : (m : ℕ) → ltb (i + u) m ≡ false → m ≤ i + u
      upto m w = ground arith
  skip i u out_of_fuel lt used c = c

  found_here :
      (i : ℕ) → i + count ≤ s.max_pfn + 1 → Scanned s count i 0 none → Answers s count i (run_at i)
  unfolding Scanned
  found_here i le c =
      (omega arith, le, λ j lt. c j (omega arith) (omega arith), λ m a b. absurd (omega arith))

  -- The search goes on behind a page that is not free.
  go_on :
      (f i u : ℕ)
      → i + count ≤ s.max_pfn + 1
      → Scanned s count i 0 (some u)
      → s.max_pfn + 2 ≤ suc f + i
      → ((j : ℕ)
          → j ≤ s.max_pfn + 1
          → s.max_pfn + 2 ≤ f + j
          → Answers s count j (find_run f count j s))
      → Answers s count i (find_run f count (add64 (add64 i u) 1) s)
  unfolding Scanned
  go_on f i u le (a, b, used) fuel rest =
      skip i u (find_run f count (add64 (add64 i u) 1) s) (omega arith) used (
        subst (λ j. Answers s count (i + u + 1) (find_run f count j s)) (sym e)
          (rest (i + u + 1) (omega arith) (omega arith)))
    where
      e : add64 (add64 i u) 1 ≡ i + u + 1
      e = omega arith

  pub find_run-Answers :
      (f i : ℕ)
      → i ≤ s.max_pfn + 1
      → s.max_pfn + 2 ≤ f + i
      → Answers s count i (find_run f count i s)
  unfolding find_run
  find_run-Answers zero i le fuel = absurd (omega arith)
  find_run-Answers (suc f) i le fuel = elim (Bool-cases (leb (i + count) (s.max_pfn + 1))) [
    | inl w ↦
        rw (guard-eq i le, w)
          (scan (le_of_test (i + count) (s.max_pfn + 1) w) (first_used count i 0 s)
            (first_used-Scanned s count i 0 (bound w)) (find_run-Answers f))
    | inr w ↦ rw (guard-eq i le, w) (λ m a b. absurd (none_fits w m a b))
  ]
    where
      bound : leb (i + count) (s.max_pfn + 1) ≡ true → i + 0 + count ≤ mod64
      bound w = omega (arith, le_of_test (i + count) (s.max_pfn + 1) w)

      none_fits :
          leb (i + count) (s.max_pfn + 1) ≡ false → (m : ℕ) → i ≤ m → m + count ≤ s.max_pfn + 1 → ⊥
      none_fits w m a b = ground arith

      scan :
          i + count ≤ s.max_pfn + 1
          → (o : Option ℕ) → Scanned s count i 0 o
          → ((j : ℕ)
              → j ≤ s.max_pfn + 1
              → s.max_pfn + 2 ≤ f + j
              → Answers s count j (find_run f count j s))
          → Answers s count i
              (elim o [ none ↦ run_at i | some j ↦ find_run f count (add64 (add64 i j) 1) s ])
      scan h none c rest = found_here i h c
      scan h (some u) c rest = go_on f i u h c fuel rest

-- More pages than there are: the first test fails.
pub find_run-too_many :
    (f count : ℕ) (s : Pmm)
    → s.max_pfn + 1 < count
    → count < mod64
    → find_run (suc f) count 0 s ≡ no_run
unfolding find_run
find_run-too_many f count s h small = rw test
  where
    test : leb (sub64 (add64 0 count) 1) s.max_pfn ≡ false
    test = ground arith
