-- ===== src/Mm/Pmm/Release.antt =====
-- `pmm_page_release`: the last reference puts a page back on the free list.
use lapis.Base.{
  ℕ, ◌-◌, ◌≤◌, ◌≡◌, refl, ◌≢◌, Bool, true, false, not, ◌&&◌, List, ◌∷◌, arith, ◌==◌, ltb, ap, subst,
  ◌∙◌, has, if◌then◌else◌, inl, inr, Bool-cases, eq_of_test, ne_of_test, test_ne, test_self,
}
use lapis.Mm.Page.{Page}
use lapis.Mm.Pmm.{Pmm, set_refcount, free_page, page_release}
use lapis.Mm.Pmm.Inv.{InDb, IsValid}
use lapis.Mm.Pmm.Fields.{fields}
use lapis.Mm.Pmm.Push.{push_keeps}
use lapis.Mm.Pmm.Touch.{Touches-set_refcount, touch-IsValid}
use lapis.Mm.Pmm.Bound.{InDb-ne, listed-off}
use lapis.Mm.Pmm.Free.{dirty-IsValid, clean-IsValid}

-- Does this release put the page on the free list?
abbrev pub frees : Page → Bool
frees g = g.refcount == 1 && not g.flags.reserved && not g.flags.dirty

-- The free list after a release of the page.
unfoldable pub released : ℕ → Pmm → List ℕ → List ℕ
released p s xs = if frees (s.mem p) then p ∷ xs else xs

-- Without one reference, fewer by one.
dropped : ℕ → Pmm → Pmm
dropped p s = set_refcount p ((s.mem p).refcount - 1) s

flags-dropped : (p : ℕ) (s : Pmm) (b : ℕ) → ((dropped p s).mem b).flags ≡ (s.mem b).flags
unfolding dropped
flags-dropped p s b = simp fields

refcount-dropped : (p : ℕ) (s : Pmm) → ((dropped p s).mem p).refcount ≡ (s.mem p).refcount - 1
unfolding dropped
refcount-dropped p s = simp (fields, test_self)

module _ {s : Pmm} (xs : List ℕ) (p : ℕ) (v : IsValid s xs) (q : InDb s p) where
  busy-off : (s.mem p).refcount ≢ 0 → has p xs ≡ false
  busy-off ne = elim (Bool-cases (has p xs)) [
    | inl k ↦
        let (i, le, e) = q in
        absurd
          (ne (ap (λ b. (s.mem b).refcount) e ∙ v.idle i le (subst (λ b. has b xs ≡ true) e k)))
    | inr k ↦ k
  ]

  InDb-dropped : InDb (dropped p s) p
  unfolding dropped
  InDb-dropped = let c = Touches-set_refcount p s ((s.mem p).refcount - 1) in rw (c.db, c.max_pfn) q

  dropped-IsValid : (s.mem p).refcount ≢ 0 → IsValid (dropped p s) xs
  unfolding dropped
  dropped-IsValid ne =
      touch-IsValid xs (Touches-set_refcount p s _) (busy-off ne)
        (rw (flags-dropped p s p) (listed-off v p q (busy-off ne))) v

  step :
      ((s.mem p).refcount == 0) ≡ false
      → page_release p s ≡ (
          if ltb 0 ((s.mem p).refcount - 1)
          then dropped p s
          else if (s.mem p).flags.reserved
          then dropped p s
          else free_page p (dropped p s))
  unfolding page_release dropped
  step nz = simp (test_ne p 0 (InDb-ne s p v.db_set q), nz, fields, test_self)

  idle : ((s.mem p).refcount == 0) ≡ true → page_release p s ≡ s
  unfolding page_release
  idle z = simp (test_ne p 0 (InDb-ne s p v.db_set q), z)

  one_left :
      (s.mem p).refcount ≡ 1
      → (r : Bool) → (s.mem p).flags.reserved ≡ r
      → page_release p s ≡ (if r then dropped p s else free_page p (dropped p s))
  one_left e r k = step (rw e refl) ∙ rw (e, k) refl

  -- `pmm_page_release` keeps the invariant: with the last reference of a page that is neither
  -- reserved nor dirty the page joins the free list, and in every other case, a page with no
  -- reference included, the list is what it was.
  pub page_release-IsValid : IsValid (page_release p s) (released p s xs)
  unfolding released
  page_release-IsValid = elim (Bool-cases ((s.mem p).refcount == 0)) [
    | inl z ↦ rw (idle z, zero-one (s.mem p).refcount z) v
    | inr nz ↦ elim (Bool-cases ((s.mem p).refcount == 1)) [
      | inl one ↦
          last_one (eq_of_test (s.mem p).refcount 1 one) (ne_of_test (s.mem p).refcount 0 nz)
      | inr more ↦
          rw (step nz, more, left_over (s.mem p).refcount nz more)
            (dropped-IsValid (ne_of_test (s.mem p).refcount 0 nz))
    ]
  ]
    where
      zero-one : (n : ℕ) → (n == 0) ≡ true → (n == 1) ≡ false
      zero-one n z = ground arith

      left_over : (n : ℕ) → (n == 0) ≡ false → (n == 1) ≡ false → ltb 0 (n - 1) ≡ true
      left_over n z o = ground arith

      last_one :
          (s.mem p).refcount ≡ 1
          → (s.mem p).refcount ≢ 0
          → IsValid (page_release p s) (if frees (s.mem p) then p ∷ xs else xs)
      last_one e ne = elim (Bool-cases (s.mem p).flags.reserved) [
        | inl r ↦ rw (one_left e true r, e, r) (dropped-IsValid ne)
        | inr r ↦ elim (Bool-cases (s.mem p).flags.dirty) [
          | inl d ↦
              rw (one_left e false r, e, r, d)
                (dirty-IsValid xs p (dropped-IsValid ne) (InDb-dropped) (busy-off ne)
                  (rw (flags-dropped p s p) d))
          | inr d ↦
              rw (one_left e false r, e, r, d)
                (clean-IsValid xs p (dropped-IsValid ne) (InDb-dropped) (busy-off ne)
                  (rw (flags-dropped p s p) d) (refcount-dropped p s ∙ rw e refl))
        ]
      ]

-- The count of references after a release.
pub refcount-release :
    (p : ℕ) (s : Pmm) → p ≢ 0 → ((page_release p s).mem p).refcount ≡ (s.mem p).refcount - 1
unfolding page_release free_page
refcount-release p s ne = simp (test_ne p 0 ne, fields, push_keeps, test_self) (ground arith)

pub page_release-idle : (p : ℕ) (s : Pmm) → (s.mem p).refcount ≡ 0 → page_release p s ≡ s
unfolding page_release
page_release-idle p s z = rw z (ground arith)

-- Releasing a page that has at most one reference a second time changes nothing.
pub release_twice :
    (p : ℕ) (s : Pmm)
    → (s.mem p).refcount ≤ 1
    → p ≢ 0
    → page_release p (page_release p s) ≡ page_release p s
release_twice p s le ne =
    page_release-idle p (page_release p s) (refcount-release p s ne ∙ omega arith)
