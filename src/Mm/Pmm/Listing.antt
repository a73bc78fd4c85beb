-- ===== src/Mm/Pmm/Listing.antt =====
-- The list that `pmm_init` builds.
use lapis.Base.{
  ℕ, zero, suc, ◌≤◌, ◌<◌, ◌≡◌, refl, ◌≢◌, true, false, List, [], ◌∷◌, arith, ◌==◌, sym, subst,
  if◌then◌else◌, inl, inr, Bool-cases, has, length, test_ne, test_self, eq_of_test, ne_of_test,
}
use lapis.Dll.{has-split}
use lapis.Mm.Pmm.{Pmm, at}

-- The free pages among the first `n`, the last one first.
unfoldable pub listing : Pmm → ℕ → List ℕ
listing s zero = []
listing s (suc n) = if (s.mem (at s.db n)).flags.free then at s.db n ∷ listing s n else listing s n

pub listing-in :
    (s : Pmm) (n a : ℕ) → has a (listing s n) ≡ true → (i : ℕ) × (i < n) × (a ≡ at s.db i)
unfolding listing
listing-in s zero a h = absurd (bad h)
  where
    bad : false ≡ true → ⊥
    bad e = cc
listing-in s (suc n) a h = elim (Bool-cases (s.mem (at s.db n)).flags.free) [
  | inl f ↦ elim (has-split a (at s.db n) (listing s n) (rw f at h)) [
    | inl e ↦ (n, omega arith, e)
    | inr w ↦ let (i, lt, e) = listing-in s n a w in (i, omega arith, e)
  ]
  | inr f ↦ let (i, lt, e) = listing-in s n a (rw f at h) in (i, omega arith, e)
]

pub listing-out : (s : Pmm) (n i : ℕ) → n ≤ i → has (at s.db i) (listing s n) ≡ false
listing-out s n i le = elim (Bool-cases (has (at s.db i) (listing s n))) [
  | inl h ↦ let (j, lt, e) = listing-in s n (at s.db i) h in absurd (omega arith)
  | inr h ↦ h
]

pub listing-exact :
    (s : Pmm) (n i : ℕ) → i < n → has (at s.db i) (listing s n) ≡ (s.mem (at s.db i)).flags.free
unfolding listing
listing-exact s zero i lt = absurd (omega arith)
listing-exact s (suc n) i lt = elim (Bool-cases (i == n)) [
  | inl w ↦
      subst (λ k. has (at s.db k) (listing s (suc n)) ≡ (s.mem (at s.db k)).flags.free)
        (sym (eq_of_test i n w)) top
  | inr w ↦ elim (Bool-cases (s.mem (at s.db n)).flags.free) [
    | inl f ↦
        rw (f, test_ne (at s.db i) (at s.db n) (at-ne i n (ne_of_test i n w)))
          (listing-exact s n i (below (ne_of_test i n w)))
    | inr f ↦ rw f (listing-exact s n i (below (ne_of_test i n w)))
  ]
]
  where
    below : i ≢ n → i < n
    below ne = omega arith

    at-ne : (j k : ℕ) → j ≢ k → at s.db j ≢ at s.db k
    at-ne j k ne e = ne (omega arith)

    top : has (at s.db n) (listing s (suc n)) ≡ (s.mem (at s.db n)).flags.free
    top = elim (Bool-cases (s.mem (at s.db n)).flags.free) [
      | inl f ↦ rw (f, test_self (at s.db n)) refl
      | inr f ↦ rw f (listing-out s n n (omega arith))
    ]

pub length-listing : (s : Pmm) (n : ℕ) → length (listing s n) ≤ n
unfolding listing
length-listing s zero = omega arith
length-listing s (suc n) = ground (arith, length-listing s n)
