-- ===== src/Mm/Pmm/Remove.antt =====
-- `free_list_remove`, and what `pmm_alloc_page` does with the page: the rest of the list stays.
use lapis.Base.{ℕ, ◌≡◌, true, List, arith, ◌==◌, ◌∙◌, has, erase, Distinct-erase, if◌then◌else◌}
use lapis.Dll.Unlink.{Links-relinked, first_of-erase}
use lapis.Mm.Pmm.{Pmm, free_list_remove}
use lapis.Mm.Pmm.Inv.{nexts, prevs, IsFreeList}
use lapis.Mm.Pmm.Fields.{fields}

module _ (p : ℕ) (s : Pmm) where
  pub next-remove :
      (b : ℕ)
      → nexts (free_list_remove p s) b ≡ (
          if b == p
          then 0
          else if prevs s p == 0
          then nexts s b
          else if b == prevs s p
          then nexts s p
          else nexts s b)
  unfolding free_list_remove
  next-remove b = simp fields (ground arith)

  pub prev-remove :
      (b : ℕ)
      → prevs (free_list_remove p s) b ≡ (
          if b == p
          then 0
          else if nexts s p == 0
          then prevs s b
          else if b == nexts s p
          then prevs s p
          else prevs s b)
  unfolding free_list_remove
  prev-remove b = simp fields (ground arith)

  pub head-remove :
      (free_list_remove p s).free_list ≡ (if prevs s p == 0 then nexts s p else s.free_list)
  unfolding free_list_remove
  head-remove = simp fields (ground arith)

  pub flags-remove : (b : ℕ) → ((free_list_remove p s).mem b).flags ≡ (s.mem b).flags
  unfolding free_list_remove
  flags-remove b = simp fields (ground arith)

  pub refcount-remove : (b : ℕ) → ((free_list_remove p s).mem b).refcount ≡ (s.mem b).refcount
  unfolding free_list_remove
  refcount-remove b = simp fields (ground arith)

  pub db-remove : (free_list_remove p s).db ≡ s.db
  unfolding free_list_remove
  db-remove = simp fields (ground arith)

  pub max_pfn-remove : (free_list_remove p s).max_pfn ≡ s.max_pfn
  unfolding free_list_remove
  max_pfn-remove = simp fields (ground arith)

  pub free_pages-remove : (free_list_remove p s).free_pages ≡ s.free_pages
  unfolding free_list_remove
  free_pages-remove = simp fields (ground arith)

module _ {s : Pmm} {xs : List ℕ} (v : IsFreeList s xs) (p : ℕ) (h : has p xs ≡ true) where
  pub remove-IsFreeList : IsFreeList (free_list_remove p s) (erase p xs)
  remove-IsFreeList = record {
    distinct = Distinct-erase p xs v.distinct;
    head =
        head-remove p s ∙ rw v.head (first_of-erase (nexts s) (prevs s) p xs v.distinct h v.links);
    links =
        Links-relinked (nexts s) (prevs s) p xs v.distinct h v.links (next-remove p s)
          (prev-remove p s);
  }

-- Fields that `free_list_remove` leaves alone.
pub ruleset remove_keeps =
    (flags-remove, refcount-remove, db-remove, max_pfn-remove, free_pages-remove)
