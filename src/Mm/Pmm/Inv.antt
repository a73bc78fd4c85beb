-- ===== src/Mm/Pmm/Inv.antt =====
-- The invariant of the page allocator.
use lapis.Base.{
  ℕ, ◌+◌, ◌*◌, ◌≤◌, ◌≡◌, ◌≢◌, Bool, true, ◌&&◌, not, List, length, has, first_of, Distinct, mod64,
}
use lapis.Dll.{Links}
use lapis.Mm.Page.{Flags, sizeof_page}
use lapis.Mm.Pmm.{Pmm, at}

abbrev pub nexts : Pmm → ℕ → ℕ
nexts s a = (s.mem a).next

abbrev pub prevs : Pmm → ℕ → ℕ
prevs s a = (s.mem a).u2

-- The free list holds these pages, in this order.
pub record IsFreeList (s : Pmm) (xs : List ℕ) : Type 0 where
  pub distinct : Distinct xs
  pub head : s.free_list ≡ first_of xs
  pub links : Links (nexts s) (prevs s) 0 xs

abbrev pub InDb : Pmm → ℕ → Type 0
InDb s a = (i : ℕ) × (i ≤ s.max_pfn) × (a ≡ at s.db i)

-- A free page is on the list unless it is marked dirty.
abbrev pub listed : Flags → Bool
listed f = f.free && not f.dirty

-- The list holds exactly the free pages of the database that are not dirty, and the counter counts
-- them. A page on the list has no reference. The descriptors fit into the address space.
pub record IsValid (s : Pmm) (xs : List ℕ) : Type 0 where
  pub list : IsFreeList s xs
  pub count : s.free_pages ≡ length xs
  pub in_db : (a : ℕ) → has a xs ≡ true → InDb s a
  pub exact : (i : ℕ) → i ≤ s.max_pfn → has (at s.db i) xs ≡ listed (s.mem (at s.db i)).flags
  pub idle : (i : ℕ) → i ≤ s.max_pfn → has (at s.db i) xs ≡ true → (s.mem (at s.db i)).refcount ≡ 0
  pub db_set : s.db ≢ 0
  pub small : s.db + sizeof_page * (s.max_pfn + 1) ≤ mod64
