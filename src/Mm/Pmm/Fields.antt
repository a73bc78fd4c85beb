-- ===== src/Mm/Pmm/Fields.antt =====
-- The setters, field by field: each changes one field of one descriptor.
use lapis.Base.{ℕ, ◌-◌, ◌≡◌, refl, Bool, arith, ◌==◌, if◌then◌else◌}
use lapis.Mm.Page.{Flags}
use lapis.Mm.Pmm.{Pmm, set_next, set_u2, set_flags, set_refcount, drop_free}

module _ (p : ℕ) (v : ℕ) (s : Pmm) where
  pub next-set_next :
      (q : ℕ) → ((set_next p v s).mem q).next ≡ (if q == p then v else (s.mem q).next)
  unfolding set_next
  next-set_next q = ground arith

  pub u2-set_next : (q : ℕ) → ((set_next p v s).mem q).u2 ≡ (s.mem q).u2
  unfolding set_next
  u2-set_next q = ground arith

  pub flags-set_next : (q : ℕ) → ((set_next p v s).mem q).flags ≡ (s.mem q).flags
  unfolding set_next
  flags-set_next q = ground arith

  pub refcount-set_next : (q : ℕ) → ((set_next p v s).mem q).refcount ≡ (s.mem q).refcount
  unfolding set_next
  refcount-set_next q = ground arith

  pub db-set_next : (set_next p v s).db ≡ s.db
  unfolding set_next
  db-set_next = refl

  pub max_pfn-set_next : (set_next p v s).max_pfn ≡ s.max_pfn
  unfolding set_next
  max_pfn-set_next = refl

  pub free_list-set_next : (set_next p v s).free_list ≡ s.free_list
  unfolding set_next
  free_list-set_next = refl

  pub free_pages-set_next : (set_next p v s).free_pages ≡ s.free_pages
  unfolding set_next
  free_pages-set_next = refl

module _ (p : ℕ) (v : ℕ) (s : Pmm) where
  pub next-set_u2 : (q : ℕ) → ((set_u2 p v s).mem q).next ≡ (s.mem q).next
  unfolding set_u2
  next-set_u2 q = ground arith

  pub u2-set_u2 : (q : ℕ) → ((set_u2 p v s).mem q).u2 ≡ (if q == p then v else (s.mem q).u2)
  unfolding set_u2
  u2-set_u2 q = ground arith

  pub flags-set_u2 : (q : ℕ) → ((set_u2 p v s).mem q).flags ≡ (s.mem q).flags
  unfolding set_u2
  flags-set_u2 q = ground arith

  pub refcount-set_u2 : (q : ℕ) → ((set_u2 p v s).mem q).refcount ≡ (s.mem q).refcount
  unfolding set_u2
  refcount-set_u2 q = ground arith

  pub db-set_u2 : (set_u2 p v s).db ≡ s.db
  unfolding set_u2
  db-set_u2 = refl

  pub max_pfn-set_u2 : (set_u2 p v s).max_pfn ≡ s.max_pfn
  unfolding set_u2
  max_pfn-set_u2 = refl

  pub free_list-set_u2 : (set_u2 p v s).free_list ≡ s.free_list
  unfolding set_u2
  free_list-set_u2 = refl

  pub free_pages-set_u2 : (set_u2 p v s).free_pages ≡ s.free_pages
  unfolding set_u2
  free_pages-set_u2 = refl

module _ (p : ℕ) (v : Flags) (s : Pmm) where
  pub next-set_flags : (q : ℕ) → ((set_flags p v s).mem q).next ≡ (s.mem q).next
  unfolding set_flags
  next-set_flags q = ground arith

  pub u2-set_flags : (q : ℕ) → ((set_flags p v s).mem q).u2 ≡ (s.mem q).u2
  unfolding set_flags
  u2-set_flags q = ground arith

  pub flags-set_flags :
      (q : ℕ) → ((set_flags p v s).mem q).flags ≡ (if q == p then v else (s.mem q).flags)
  unfolding set_flags
  flags-set_flags q = ground arith

  pub refcount-set_flags : (q : ℕ) → ((set_flags p v s).mem q).refcount ≡ (s.mem q).refcount
  unfolding set_flags
  refcount-set_flags q = ground arith

  pub db-set_flags : (set_flags p v s).db ≡ s.db
  unfolding set_flags
  db-set_flags = refl

  pub max_pfn-set_flags : (set_flags p v s).max_pfn ≡ s.max_pfn
  unfolding set_flags
  max_pfn-set_flags = refl

  pub free_list-set_flags : (set_flags p v s).free_list ≡ s.free_list
  unfolding set_flags
  free_list-set_flags = refl

  pub free_pages-set_flags : (set_flags p v s).free_pages ≡ s.free_pages
  unfolding set_flags
  free_pages-set_flags = refl

module _ (p : ℕ) (v : ℕ) (s : Pmm) where
  pub next-set_refcount : (q : ℕ) → ((set_refcount p v s).mem q).next ≡ (s.mem q).next
  unfolding set_refcount
  next-set_refcount q = ground arith

  pub u2-set_refcount : (q : ℕ) → ((set_refcount p v s).mem q).u2 ≡ (s.mem q).u2
  unfolding set_refcount
  u2-set_refcount q = ground arith

  pub flags-set_refcount : (q : ℕ) → ((set_refcount p v s).mem q).flags ≡ (s.mem q).flags
  unfolding set_refcount
  flags-set_refcount q = ground arith

  pub refcount-set_refcount :
      (q : ℕ) → ((set_refcount p v s).mem q).refcount ≡ (if q == p then v else (s.mem q).refcount)
  unfolding set_refcount
  refcount-set_refcount q = ground arith

  pub db-set_refcount : (set_refcount p v s).db ≡ s.db
  unfolding set_refcount
  db-set_refcount = refl

  pub max_pfn-set_refcount : (set_refcount p v s).max_pfn ≡ s.max_pfn
  unfolding set_refcount
  max_pfn-set_refcount = refl

  pub free_list-set_refcount : (set_refcount p v s).free_list ≡ s.free_list
  unfolding set_refcount
  free_list-set_refcount = refl

  pub free_pages-set_refcount : (set_refcount p v s).free_pages ≡ s.free_pages
  unfolding set_refcount
  free_pages-set_refcount = refl

module _ (c : Bool) (s t : Pmm) where
  pub next-if :
      (q : ℕ) → ((if c then s else t).mem q).next ≡ (if c then (s.mem q).next else (t.mem q).next)
  next-if q = ground arith

  pub u2-if : (q : ℕ) → ((if c then s else t).mem q).u2 ≡ (if c then (s.mem q).u2 else (t.mem q).u2)
  u2-if q = ground arith

  pub flags-if :
      (q : ℕ)
      → ((if c then s else t).mem q).flags ≡ (if c then (s.mem q).flags else (t.mem q).flags)
  flags-if q = ground arith

  pub refcount-if :
      (q : ℕ)
      → ((if c then s else t).mem q).refcount
        ≡ (if c then (s.mem q).refcount else (t.mem q).refcount)
  refcount-if q = ground arith

  pub db-if : (if c then s else t).db ≡ (if c then s.db else t.db)
  db-if = ground arith

  pub max_pfn-if : (if c then s else t).max_pfn ≡ (if c then s.max_pfn else t.max_pfn)
  max_pfn-if = ground arith

  pub free_list-if : (if c then s else t).free_list ≡ (if c then s.free_list else t.free_list)
  free_list-if = ground arith

  pub free_pages-if : (if c then s else t).free_pages ≡ (if c then s.free_pages else t.free_pages)
  free_pages-if = ground arith

module _ (s : Pmm) (q : ℕ) where
  pub next-drop_free : ((drop_free s).mem q).next ≡ (s.mem q).next
  unfolding drop_free
  next-drop_free = ground arith

  pub u2-drop_free : ((drop_free s).mem q).u2 ≡ (s.mem q).u2
  unfolding drop_free
  u2-drop_free = ground arith

  pub flags-drop_free : ((drop_free s).mem q).flags ≡ (s.mem q).flags
  unfolding drop_free
  flags-drop_free = ground arith

  pub refcount-drop_free : ((drop_free s).mem q).refcount ≡ (s.mem q).refcount
  unfolding drop_free
  refcount-drop_free = ground arith

pub db-drop_free : (s : Pmm) → (drop_free s).db ≡ s.db
unfolding drop_free
db-drop_free s = ground arith

pub max_pfn-drop_free : (s : Pmm) → (drop_free s).max_pfn ≡ s.max_pfn
unfolding drop_free
max_pfn-drop_free s = ground arith

pub free_list-drop_free : (s : Pmm) → (drop_free s).free_list ≡ s.free_list
unfolding drop_free
free_list-drop_free s = ground arith

pub free_pages-drop_free : (s : Pmm) → (drop_free s).free_pages ≡ s.free_pages - 1
unfolding drop_free
free_pages-drop_free s = ground arith

pub ruleset fields = (
  free_pages-drop_free, next-set_next, u2-set_next, flags-set_next, refcount-set_next, db-set_next,
  max_pfn-set_next, free_list-set_next, free_pages-set_next, next-set_u2, u2-set_u2, flags-set_u2,
  refcount-set_u2, db-set_u2, max_pfn-set_u2, free_list-set_u2, free_pages-set_u2, next-set_flags,
  u2-set_flags, flags-set_flags, refcount-set_flags, db-set_flags, max_pfn-set_flags,
  free_list-set_flags, free_pages-set_flags, next-set_refcount, u2-set_refcount, flags-set_refcount,
  refcount-set_refcount, db-set_refcount, max_pfn-set_refcount, free_list-set_refcount,
  free_pages-set_refcount, next-if, u2-if, flags-if, refcount-if, db-if, max_pfn-if, free_list-if,
  free_pages-if, next-drop_free, u2-drop_free, flags-drop_free, refcount-drop_free, db-drop_free,
  max_pfn-drop_free, free_list-drop_free,
)
