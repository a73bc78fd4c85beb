-- ===== src/Mm/Pmm/Push.antt =====
-- `free_list_push`: a page joins the free list in front.
use lapis.Base.{
  ℕ, ◌≡◌, refl, ◌≢◌, false, List, [], ◌∷◌, arith, ◌==◌, ◌∙◌, has, first_of, if◌then◌else◌, test_ne,
  test_self,
}
use lapis.Dll.{Links-cons, ne-of_has}
use lapis.Mm.Pmm.{Pmm, free_list_push}
use lapis.Mm.Pmm.Inv.{nexts, prevs, IsFreeList}
use lapis.Mm.Pmm.Fields.{fields}

module _ (p : ℕ) (s : Pmm) where
  next-push : (b : ℕ) → nexts (free_list_push p s) b ≡ (if b == p then s.free_list else nexts s b)
  unfolding free_list_push
  next-push b = simp fields (ground arith)

  prev-push :
      (b : ℕ)
      → prevs (free_list_push p s) b ≡ (
          if s.free_list == 0
          then (if b == p then 0 else prevs s b)
          else if b == s.free_list
          then p
          else if b == p
          then 0
          else prevs s b)
  unfolding free_list_push
  prev-push b = simp fields (ground arith)

  pub head-push : (free_list_push p s).free_list ≡ p
  unfolding free_list_push
  head-push = refl

  pub flags-push : (b : ℕ) → ((free_list_push p s).mem b).flags ≡ (s.mem b).flags
  unfolding free_list_push
  flags-push b = simp fields (ground arith)

  pub refcount-push : (b : ℕ) → ((free_list_push p s).mem b).refcount ≡ (s.mem b).refcount
  unfolding free_list_push
  refcount-push b = simp fields (ground arith)

  pub db-push : (free_list_push p s).db ≡ s.db
  unfolding free_list_push
  db-push = simp fields (ground arith)

  pub max_pfn-push : (free_list_push p s).max_pfn ≡ s.max_pfn
  unfolding free_list_push
  max_pfn-push = simp fields (ground arith)

  pub free_pages-push : (free_list_push p s).free_pages ≡ s.free_pages
  unfolding free_list_push
  free_pages-push = simp fields (ground arith)

-- Fields that `free_list_push` leaves alone.
pub ruleset push_keeps = (flags-push, refcount-push, db-push, max_pfn-push, free_pages-push)

prev_first :
    (h p b old : ℕ)
    → b ≢ p
    → b ≢ h
    → (if h == 0
        then (if b == p then 0 else old)
        else if b == h
        then p
        else if b == p
        then 0
        else old)
      ≡ old
prev_first h p b old e f = ground arith

prev_self :
    (h p old : ℕ)
    → p ≢ h
    → (if h == 0
        then (if p == p then 0 else old)
        else if p == h
        then p
        else if p == p
        then 0
        else old)
      ≡ 0
prev_self h p old f = ground arith

prev_old :
    (h p old : ℕ)
    → h ≢ 0
    → (if h == 0
        then (if h == p then 0 else old)
        else if h == h
        then p
        else if h == p
        then 0
        else old)
      ≡ p
prev_old h p old f = ground arith

pub push-IsFreeList :
    {s : Pmm} {xs : List ℕ} (p : ℕ)
    → p ≢ 0
    → has p xs ≡ false
    → IsFreeList s xs
    → IsFreeList (free_list_push p s) (p ∷ xs)
push-IsFreeList {s} {xs} p z out v = record {
  distinct = (z, out, v.distinct);
  head = head-push p s;
  links =
      Links-cons p xs out v.distinct (next-push p s p ∙ rw (test_self p) v.head)
        (prev-push p s p ∙ prev_self s.free_list p (prevs s p) (rw v.head (first-ne xs out)))
        (λ b k. next-push p s b ∙ rw (test_ne b p (ne-of_has b p xs k out)))
        (λ b k ne.
          prev-push p s b
          ∙ prev_first s.free_list p b (prevs s b) (ne-of_has b p xs k out) (rw v.head ne))
        (λ ne.
          prev-push p s (first_of xs)
          ∙ rw v.head (prev_old (first_of xs) p (prevs s (first_of xs)) ne))
        v.links;
}
  where
    first-ne : (ys : List ℕ) → has p ys ≡ false → p ≢ first_of ys
    first-ne [] k e = z e
    first-ne (y ∷ ys) k e = ground arith
