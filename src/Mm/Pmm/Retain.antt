-- ===== src/Mm/Pmm/Retain.antt =====
-- `pmm_page_retain`.
use lapis.Base.{
  ℕ, ◌≡◌, refl, true, false, ◌&&◌, List, arith, ◌∙◌, has, erase, inl, inr, Bool-cases, test_ne,
  test_self, erase_none, not-has-erase,
}
use lapis.Mm.Pmm.{Pmm, free_list_remove, drop_free, take_page, page_retain, claim, count_ref}
use lapis.Mm.Pmm.Inv.{InDb, listed, IsValid}
use lapis.Mm.Pmm.Fields.{fields, flags-set_flags}
use lapis.Mm.Pmm.Take.{take_page-IsValid}
use lapis.Mm.Pmm.Touch.{
  Touches, Touches-trans, Touches-span, Touches-if, Touches-none, Touches-set_u2, Touches-set_flags,
  Touches-set_refcount, touch-IsValid,
}
use lapis.Mm.Pmm.Bound.{InDb-ne, listed-has}

taken_out : ℕ → Pmm → Pmm
taken_out p s = drop_free (free_list_remove p s)

Touches-take : (p : ℕ) (s : Pmm) → Touches p (taken_out p s) (take_page p s)
unfolding taken_out take_page
Touches-take p s =
    Touches-trans (Touches-set_flags p _ _)
      (Touches-trans (Touches-set_refcount p _ 1) (Touches-set_u2 p _ 1))

Touches-claim : (p : ℕ) (s : Pmm) → Touches p (taken_out p s) (claim p s)
unfolding taken_out claim
Touches-claim p s = Touches-set_flags p _ _

Touches-count_ref : (p : ℕ) (s : Pmm) → Touches p s (count_ref p s)
unfolding count_ref
Touches-count_ref p s =
    Touches-trans (Touches-set_refcount p s _)
      (Touches-if _ (Touches-set_u2 p _ 1) (Touches-none p _))

flags-count_ref : (p : ℕ) (s : Pmm) → ((count_ref p s).mem p).flags ≡ (s.mem p).flags
unfolding count_ref
flags-count_ref p s = simp fields (ground arith)

free-claim : (p : ℕ) (s : Pmm) → ((claim p s).mem p).flags.free ≡ false
unfolding claim
free-claim p s = rw (flags-set_flags, test_self p)

-- `pmm_page_retain` keeps the invariant of a sound allocator, on a page of its database that is not
-- both free and dirty: a page of the free list leaves it, and for any other page the list is what it
-- was.
pub page_retain-IsValid :
    {s : Pmm} (xs : List ℕ) (p : ℕ)
    → IsValid s xs
    → InDb s p
    → (s.mem p).flags.free && (s.mem p).flags.dirty ≡ false
    → IsValid (page_retain p s) (erase p xs)
unfolding page_retain
page_retain-IsValid {s} xs p v q ok =
    rw (test_ne p 0 (InDb-ne s p v.db_set q)) (elim (Bool-cases (s.mem p).flags.free) [
      | inl f ↦
          let h : has p xs ≡ true = listed-has v p q ∙ on_list f in
          rw f (
            touch-IsValid (erase p xs)
              (Touches-span (Touches-take p s)
                (Touches-trans (Touches-claim p s) (Touches-count_ref p (claim p s))))
              (not-has-erase p xs v.list.distinct)
              (rw (flags-count_ref p (claim p s)) (rw (free-claim p s) refl))
              (take_page-IsValid v p h))
      | inr f ↦
          let h : has p xs ≡ false = listed-has v p q ∙ rw f refl in
          rw (f, erase_none p xs h)
            (touch-IsValid xs (Touches-count_ref p s) h (rw (flags-count_ref p s) (rw f refl)) v)
    ])
  where
    on_list : (s.mem p).flags.free ≡ true → listed (s.mem p).flags ≡ true
    on_list f = ground arith
