-- ===== src/Mm/Pmm/Init.antt =====
-- `pmm_init`: the free list of a database that the boot code has just filled.
use lapis.Base.{
  ℕ, zero, suc, ◌+◌, ◌*◌, ◌≤◌, ◌≡◌, refl, ◌≢◌, true, false, List, arith, sym, ap, ◌∙◌, subst, inl,
  inr, Bool-cases, add64, mod64, has, length, test_ne,
}
use Prim.Native.Nat.add
use native.Mathlib.Nat.{add-zero}
use lapis.Mm.Page.{Flags, sizeof_page}
use lapis.Mm.Pmm.{Pmm, at, free_list_push, set_u2, set_next, init_page, init_loop, init}
use lapis.Mm.Pmm.Inv.{IsFreeList, InDb, listed, IsValid}
use lapis.Mm.Pmm.Fields.{fields}
use lapis.Mm.Pmm.Push.{
  push-IsFreeList, db-push, max_pfn-push, flags-push, refcount-push, free_pages-push,
}
use lapis.Mm.Pmm.Touch.{Touches, Touches-trans, Touches-set_u2, Touches-set_next, touch-IsFreeList}
use lapis.Mm.Pmm.Listing.{listing, listing-in, listing-out, listing-exact, length-listing}

-- After the rounds for the first `n` pages.
record Built (s : Pmm) (n : ℕ) (t : Pmm) : Type 0 where
  list : IsFreeList t (listing s n)
  count : t.free_pages ≡ length (listing s n)
  db : t.db ≡ s.db
  max_pfn : t.max_pfn ≡ s.max_pfn
  flags : (a : ℕ) → (t.mem a).flags ≡ (s.mem a).flags
  refcount : (a : ℕ) → (t.mem a).refcount ≡ (s.mem a).refcount

cleared : ℕ → Pmm → Pmm
cleared p t = set_u2 p 0 (set_next p 0 t)

Touches-cleared : (p : ℕ) (t : Pmm) → Touches p t (cleared p t)
unfolding cleared
Touches-cleared p t = Touches-trans (Touches-set_next p t 0) (Touches-set_u2 p _ 0)

module _ (p : ℕ) (t : Pmm) where
  init_page-used : (t.mem p).flags.free ≡ false → init_page p t ≡ cleared p t
  unfolding init_page cleared
  init_page-used h = rw h

  pushed_page : Pmm
  pushed_page =
      let u = free_list_push p (cleared p t) in record u { free_pages = add64 u.free_pages 1 }

  init_page-free : (t.mem p).flags.free ≡ true → init_page p t ≡ pushed_page
  unfolding init_page cleared pushed_page
  init_page-free h = rw h

  flags-cleared : (a : ℕ) → ((cleared p t).mem a).flags ≡ (t.mem a).flags
  unfolding cleared
  flags-cleared a = simp fields

  refcount-cleared : (a : ℕ) → ((cleared p t).mem a).refcount ≡ (t.mem a).refcount
  unfolding cleared
  refcount-cleared a = simp fields

module _ (s : Pmm) (db_set : s.db ≢ 0) (small : s.db + sizeof_page * (s.max_pfn + 1) ≤ mod64) where
  page-ne : (n : ℕ) → at s.db n ≢ 0
  page-ne n e = db_set (omega arith)

  Built-used :
      (n : ℕ) (t : Pmm)
      → (s.mem (at s.db n)).flags.free ≡ false
      → Built s n t
      → Built s (suc n) (cleared (at s.db n) t)
  unfolding listing
  Built-used n t f b =
      let p = at s.db n in
      let c = Touches-cleared p t in
      record {
        list = rw f (touch-IsFreeList (listing s n) c (listing-out s n n (omega arith)) b.list);
        count = rw f (c.free_pages ∙ b.count);
        db = c.db ∙ b.db;
        max_pfn = c.max_pfn ∙ b.max_pfn;
        flags = λ a. flags-cleared p t a ∙ b.flags a;
        refcount = λ a. refcount-cleared p t a ∙ b.refcount a;
      }

  no_wrap : (n : ℕ) → n ≤ s.max_pfn → add64 (length (listing s n)) 1 ≡ suc (length (listing s n))
  no_wrap n le = omega (arith, length-listing s n)

  Built-free :
      (n : ℕ) (t : Pmm)
      → n ≤ s.max_pfn
      → (s.mem (at s.db n)).flags.free ≡ true
      → Built s n t
      → Built s (suc n) (pushed_page (at s.db n) t)
  unfolding listing pushed_page
  Built-free n t le f b =
      let p = at s.db n in
      let c = Touches-cleared p t in
      let out = listing-out s n n (omega arith) in
      let l = push-IsFreeList p (page-ne n) out (touch-IsFreeList (listing s n) c out b.list) in
      record {
        list = rw f (record { distinct = l.distinct; head = l.head; links = l.links });
        count = rw f (rw (free_pages-push p (cleared p t), c.free_pages, b.count) (no_wrap n le));
        db = db-push p (cleared p t) ∙ (c.db ∙ b.db);
        max_pfn = max_pfn-push p (cleared p t) ∙ (c.max_pfn ∙ b.max_pfn);
        flags = λ a. flags-push p (cleared p t) a ∙ (flags-cleared p t a ∙ b.flags a);
        refcount = λ a. refcount-push p (cleared p t) a ∙ (refcount-cleared p t a ∙ b.refcount a);
      }

  Built-step :
      (n : ℕ) (t : Pmm) → n ≤ s.max_pfn → Built s n t → Built s (suc n) (init_page (at t.db n) t)
  Built-step n t le b = elim (Bool-cases (s.mem (at s.db n)).flags.free) [
    | inl f ↦
        subst (λ d. Built s (suc n) (init_page (at d n) t)) (sym b.db)
          (rw (init_page-free (at s.db n) t (ap (λ (g : Flags). g.free) (b.flags (at s.db n)) ∙ f))
            (Built-free n t le f b))
    | inr f ↦
        subst (λ d. Built s (suc n) (init_page (at d n) t)) (sym b.db)
          (rw (init_page-used (at s.db n) t (ap (λ (g : Flags). g.free) (b.flags (at s.db n)) ∙ f))
            (Built-used n t f b))
  ]

  Built-loop :
      (k n : ℕ) (t : Pmm) → n + k ≤ s.max_pfn + 1 → Built s n t → Built s (n + k) (init_loop k n t)
  unfolding init_loop
  Built-loop zero n t le b = subst (λ m. Built s m t) (sym (add-zero n)) b
  Built-loop (suc k) n t le b =
      subst (λ m. Built s m (init_loop k (n + 1) (init_page (at t.db n) t))) (omega arith)
        (Built-loop k (n + 1) (init_page (at t.db n) t) (omega arith) (
          subst (λ m. Built s m (init_page (at t.db n) t)) (omega arith)
            (Built-step n t (omega arith) b)))

-- A database whose pages have no references and are not dirty, as the boot code leaves it.
pub record IsFresh (s : Pmm) : Type 0 where
  pub clean : (i : ℕ) → i ≤ s.max_pfn → (s.mem (at s.db i)).flags.dirty ≡ false
  pub unused : (i : ℕ) → i ≤ s.max_pfn → (s.mem (at s.db i)).refcount ≡ 0
  pub db_set : s.db ≢ 0
  pub small : s.db + sizeof_page * (s.max_pfn + 1) ≤ mod64

abbrev started : Pmm → Pmm
started s = record s { free_list = 0; free_pages = 0; total_pages = add64 s.max_pfn 1 }

Built-start : (s : Pmm) → Built s 0 (started s)
unfolding listing
Built-start s = record {
  list = record { distinct = tt; head = refl; links = tt };
  count = refl;
  db = refl;
  max_pfn = refl;
  flags = λ a. refl;
  refcount = λ a. refl;
}

Built-IsValid :
    (s t : Pmm) → IsFresh s → Built s (s.max_pfn + 1) t → IsValid t (listing s (s.max_pfn + 1))
Built-IsValid s t fresh b = record {
  list = b.list;
  count = b.count;
  in_db = λ a h. rw (b.db, b.max_pfn) (in_all a h);
  exact = λ i le.
      subst (λ d. has (at d i) xs ≡ listed (t.mem (at d i)).flags) (sym b.db)
        (exact_at i (rw b.max_pfn at le));
  idle = λ i le h.
      subst (λ d. (t.mem (at d i)).refcount ≡ 0) (sym b.db)
        (b.refcount (at s.db i) ∙ fresh.unused i (rw b.max_pfn at le));
  db_set = rw b.db fresh.db_set;
  small = rw (b.db, b.max_pfn) fresh.small;
}
  where
    xs : List ℕ
    xs = listing s (s.max_pfn + 1)

    in_all : (a : ℕ) → has a xs ≡ true → InDb s a
    in_all a h = let (i, lt, e) = listing-in s (s.max_pfn + 1) a h in (i, omega arith, e)

    free_listed : (f : Flags) → f.dirty ≡ false → f.free ≡ listed f
    free_listed f h = ground arith

    exact_at : (i : ℕ) → i ≤ s.max_pfn → has (at s.db i) xs ≡ listed (t.mem (at s.db i)).flags
    exact_at i le =
        listing-exact s (s.max_pfn + 1) i (omega arith)
        ∙ (free_listed (s.mem (at s.db i)).flags (fresh.clean i le)
            ∙ ap listed (sym (b.flags (at s.db i))))

-- `pmm_init` establishes the invariant: the list holds the free pages, the last one first, and the
-- counter their number.
pub init-IsValid : (s : Pmm) → IsFresh s → IsValid (init s) (listing s (s.max_pfn + 1))
unfolding init
init-IsValid s fresh = rw (test_ne s.db 0 fresh.db_set) (
    Built-IsValid s (init_loop (s.max_pfn + 1) 0 (started s)) fresh (
      subst (λ m. Built s m (init_loop (s.max_pfn + 1) 0 (started s))) (add.zero (s.max_pfn + 1))
        (Built-loop s fresh.db_set fresh.small (s.max_pfn + 1) 0 (started s) (omega arith)
          (Built-start s))))
