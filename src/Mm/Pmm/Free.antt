-- ===== src/Mm/Pmm/Free.antt =====
-- The end of `pmm_page_release`: what becomes of a page whose last reference is gone.
use lapis.Base.{
  ℕ, suc, ◌+◌, ◌≤◌, ◌<◌, ◌≡◌, refl, true, false, List, ◌∷◌, arith, ◌==◌, sym, ap, subst, ◌∙◌, has,
  length, if◌then◌else◌, inl, inr, Bool-cases, test_self, add64,
}
use lapis.Dll.{has-split}
use lapis.Mm.Page.{Flags}
use lapis.Mm.Pmm.{Pmm, at, set_u2, set_flags, free_list_push, free_page}
use lapis.Mm.Pmm.Inv.{IsFreeList, InDb, listed, IsValid}
use lapis.Mm.Pmm.Fields.{fields}
use lapis.Mm.Pmm.Push.{push-IsFreeList, push_keeps}
use lapis.Mm.Pmm.Touch.{
  Touches, Touches-trans, Touches-set_u2, Touches-set_flags, touch-IsFreeList, touch-IsValid,
}
use lapis.Mm.Pmm.Bound.{length-lt, InDb-ne}

-- The flags of a page whose last reference is gone.
abbrev pub freed_flags : Flags → Flags
freed_flags f = record f { allocated = false; shared = false; cow = false; free = true }

-- The page before it is pushed.
prepared : ℕ → Pmm → Pmm
prepared p s = set_u2 p 0 (set_flags p (freed_flags (s.mem p).flags) s)

Touches-prepared : (p : ℕ) (s : Pmm) → Touches p s (prepared p s)
unfolding prepared
Touches-prepared p s = Touches-trans (Touches-set_flags p s _) (Touches-set_u2 p _ 0)

flags-prepared : (p : ℕ) (s : Pmm) → ((prepared p s).mem p).flags ≡ freed_flags (s.mem p).flags
unfolding prepared
flags-prepared p s = simp (fields, test_self)

free_page-dirty : (p : ℕ) (s : Pmm) → (s.mem p).flags.dirty ≡ true → free_page p s ≡ prepared p s
unfolding free_page prepared
free_page-dirty p s h = simp (fields, test_self, h)

pushed : ℕ → Pmm → Pmm
pushed p s = let t = free_list_push p s in record t { free_pages = add64 t.free_pages 1 }

free_page-clean :
    (p : ℕ) (s : Pmm) → (s.mem p).flags.dirty ≡ false → free_page p s ≡ pushed p (prepared p s)
unfolding free_page prepared pushed
free_page-clean p s h = simp (fields, test_self, h)

module _ {s : Pmm} (xs : List ℕ) (p : ℕ) (v : IsValid s xs) (q : InDb s p)
    (out : has p xs ≡ false) where
  pub dirty-IsValid : (s.mem p).flags.dirty ≡ true → IsValid (free_page p s) xs
  dirty-IsValid h =
      rw (free_page-dirty p s h)
        (touch-IsValid xs (Touches-prepared p s) out (rw (flags-prepared p s) (rw h refl)) v)

  flags-pushed :
      (b : ℕ)
      → ((pushed p (prepared p s)).mem b).flags
        ≡ (if b == p then freed_flags (s.mem p).flags else (s.mem b).flags)
  unfolding pushed prepared
  flags-pushed b = simp (push_keeps, fields)

  refcount-pushed : (b : ℕ) → ((pushed p (prepared p s)).mem b).refcount ≡ (s.mem b).refcount
  unfolding pushed prepared
  refcount-pushed b = simp (push_keeps, fields)

  db-pushed : (pushed p (prepared p s)).db ≡ s.db
  unfolding pushed prepared
  db-pushed = simp (push_keeps, fields)

  max_pfn-pushed : (pushed p (prepared p s)).max_pfn ≡ s.max_pfn
  unfolding pushed prepared
  max_pfn-pushed = simp (push_keeps, fields)

  free_pages-pushed : (pushed p (prepared p s)).free_pages ≡ add64 s.free_pages 1
  unfolding pushed prepared
  free_pages-pushed = simp (push_keeps, fields)

  list-pushed : IsFreeList (pushed p (prepared p s)) (p ∷ xs)
  unfolding pushed
  list-pushed =
      let l =
        push-IsFreeList p (InDb-ne s p v.db_set q) out
          (touch-IsFreeList xs (Touches-prepared p s) out v.list) in
      record { distinct = l.distinct; head = l.head; links = l.links }

  exact-pushed :
      (s.mem p).flags.dirty ≡ false
      → (i : ℕ) → i ≤ s.max_pfn
      → has (at s.db i) (p ∷ xs) ≡ listed ((pushed p (prepared p s)).mem (at s.db i)).flags
  exact-pushed h i le = elim (Bool-cases (at s.db i == p)) [
    | inl t ↦ rw (flags-pushed, t) (rw h refl)
    | inr t ↦ rw (flags-pushed, t) (v.exact i le)
  ]

  idle-pushed :
      (s.mem p).refcount ≡ 0
      → (i : ℕ) → i ≤ s.max_pfn
      → has (at s.db i) (p ∷ xs) ≡ true
      → ((pushed p (prepared p s)).mem (at s.db i)).refcount ≡ 0
  idle-pushed z i le k = refcount-pushed (at s.db i) ∙ (elim (has-split (at s.db i) p xs k) [
    | inl e ↦ ap (λ b. (s.mem b).refcount) e ∙ z
    | inr w ↦ v.idle i le w
  ])

  InDb-pushed : (a : ℕ) → has a (p ∷ xs) ≡ true → InDb s a
  InDb-pushed a k = elim (has-split a p xs k) [
    | inl e ↦ let (i, le, f) = q in (i, le, e ∙ f)
    | inr w ↦ v.in_db a w
  ]

  pub clean-IsValid :
      (s.mem p).flags.dirty ≡ false → (s.mem p).refcount ≡ 0 → IsValid (free_page p s) (p ∷ xs)
  clean-IsValid h z = rw (free_page-clean p s h) (record {
    list = list-pushed;
    count = free_pages-pushed ∙ rw v.count (no_wrap (length xs) (length-lt v p q out));
    in_db = λ a k. rw (db-pushed, max_pfn-pushed) (InDb-pushed a k);
    exact = λ i le.
        subst (λ d. has (at d i) (p ∷ xs) ≡ listed ((pushed p (prepared p s)).mem (at d i)).flags)
          (sym db-pushed) (exact-pushed h i (rw max_pfn-pushed at le));
    idle = λ i le k.
        subst (λ d. ((pushed p (prepared p s)).mem (at d i)).refcount ≡ 0) (sym db-pushed)
          (idle-pushed z i (rw max_pfn-pushed at le)
            (subst (λ d. has (at d i) (p ∷ xs) ≡ true) db-pushed k));
    db_set = rw db-pushed v.db_set;
    small = rw (db-pushed, max_pfn-pushed) v.small;
  })
    where
      no_wrap : (n : ℕ) → n < s.max_pfn + 1 → add64 n 1 ≡ suc n
      no_wrap n lt = omega (arith, v.small)
