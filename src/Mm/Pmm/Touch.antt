-- ===== src/Mm/Pmm/Touch.antt =====
-- A change of one descriptor that is not on the free list keeps the invariant.
use lapis.Base.{
  ℕ, ◌≤◌, ◌≡◌, refl, ◌≢◌, Bool, true, false, List, ◌==◌, sym, ap, ◌∙◌, has, if◌then◌else◌, inl, inr,
  Bool-cases, eq_of_test, ne_of_test, test_ne,
}
use lapis.Dll.{Links-frame, ne-of_has}
use lapis.Mm.Page.{Flags, Page}
use lapis.Mm.Pmm.{Pmm, at, write, set_next, set_u2, set_flags, set_refcount}
use lapis.Mm.Pmm.Inv.{IsFreeList, listed, IsValid}

-- The states differ at most in the descriptor `p`.
pub record Touches (p : ℕ) (s t : Pmm) : Type 0 where
  pub others : (a : ℕ) → a ≢ p → t.mem a ≡ s.mem a
  pub free_list : t.free_list ≡ s.free_list
  pub free_pages : t.free_pages ≡ s.free_pages
  pub db : t.db ≡ s.db
  pub max_pfn : t.max_pfn ≡ s.max_pfn

pub Touches-none : (p : ℕ) (s : Pmm) → Touches p s s
Touches-none p s = record {
  others = λ a ne. refl;
  free_list = refl;
  free_pages = refl;
  db = refl;
  max_pfn = refl;
}

pub Touches-trans : {p : ℕ} {s t u : Pmm} → Touches p s t → Touches p t u → Touches p s u
Touches-trans c d = record {
  others = λ a ne. d.others a ne ∙ c.others a ne;
  free_list = d.free_list ∙ c.free_list;
  free_pages = d.free_pages ∙ c.free_pages;
  db = d.db ∙ c.db;
  max_pfn = d.max_pfn ∙ c.max_pfn;
}

-- Two states reached from one by changes of the same descriptor.
pub Touches-span : {p : ℕ} {r s t : Pmm} → Touches p r s → Touches p r t → Touches p s t
Touches-span c d = record {
  others = λ a ne. d.others a ne ∙ sym (c.others a ne);
  free_list = d.free_list ∙ sym c.free_list;
  free_pages = d.free_pages ∙ sym c.free_pages;
  db = d.db ∙ sym c.db;
  max_pfn = d.max_pfn ∙ sym c.max_pfn;
}

pub Touches-if :
    {p : ℕ} {s t u : Pmm} (c : Bool)
    → Touches p s t
    → Touches p s u
    → Touches p s (if c then t else u)
Touches-if true a b = a
Touches-if false a b = b

write-ne : (mem : ℕ → Page) (p : ℕ) (v : Page) (a : ℕ) → a ≢ p → write mem p v a ≡ mem a
unfolding write
write-ne mem p v a ne = rw (test_ne a p ne)

module _ (p : ℕ) (s : Pmm) where
  pub Touches-set_next : (v : ℕ) → Touches p s (set_next p v s)
  unfolding set_next
  Touches-set_next v = record {
    others = λ a ne. write-ne s.mem p _ a ne;
    free_list = refl;
    free_pages = refl;
    db = refl;
    max_pfn = refl;
  }

  pub Touches-set_u2 : (v : ℕ) → Touches p s (set_u2 p v s)
  unfolding set_u2
  Touches-set_u2 v = record {
    others = λ a ne. write-ne s.mem p _ a ne;
    free_list = refl;
    free_pages = refl;
    db = refl;
    max_pfn = refl;
  }

  pub Touches-set_flags : (v : Flags) → Touches p s (set_flags p v s)
  unfolding set_flags
  Touches-set_flags v = record {
    others = λ a ne. write-ne s.mem p _ a ne;
    free_list = refl;
    free_pages = refl;
    db = refl;
    max_pfn = refl;
  }

  pub Touches-set_refcount : (v : ℕ) → Touches p s (set_refcount p v s)
  unfolding set_refcount
  Touches-set_refcount v = record {
    others = λ a ne. write-ne s.mem p _ a ne;
    free_list = refl;
    free_pages = refl;
    db = refl;
    max_pfn = refl;
  }

module _ (xs : List ℕ) {s t : Pmm} {p : ℕ} (c : Touches p s t) (out : has p xs ≡ false) where
  same : (a : ℕ) → has a xs ≡ true → t.mem a ≡ s.mem a
  same a k = c.others a (ne-of_has a p xs k out)

  pub touch-IsFreeList : IsFreeList s xs → IsFreeList t xs
  touch-IsFreeList v = record {
    distinct = v.distinct;
    head = c.free_list ∙ v.head;
    links =
        Links-frame 0 xs
          (λ a k. (ap (λ (g : Page). g.next) (same a k), ap (λ (g : Page). g.u2) (same a k)))
          v.links;
  }

  -- The page is not on the list before nor to be on it after.
  pub touch-IsValid : listed (t.mem p).flags ≡ false → IsValid s xs → IsValid t xs
  touch-IsValid off v = record {
    list = touch-IsFreeList v.list;
    count = c.free_pages ∙ v.count;
    in_db = λ a k. rw (c.db, c.max_pfn) (v.in_db a k);
    exact = λ i le. rw c.db (exact-touch i (rw c.max_pfn at le));
    idle = λ i le k. rw c.db (
        ap (λ (g : Page). g.refcount) (same (at s.db i) (rw c.db at k))
        ∙ v.idle i (rw c.max_pfn at le) (rw c.db at k));
    db_set = rw c.db v.db_set;
    small = rw (c.db, c.max_pfn) v.small;
  }
    where
      exact-touch : (i : ℕ) → i ≤ s.max_pfn → has (at s.db i) xs ≡ listed (t.mem (at s.db i)).flags
      exact-touch i le = elim (Bool-cases (at s.db i == p)) [
        | inl w ↦
            let e = eq_of_test (at s.db i) p w in
            ap (λ k. has k xs) e ∙ (out ∙ (sym off ∙ ap (λ k. listed (t.mem k).flags) (sym e)))
        | inr w ↦
            v.exact i le
            ∙ ap (λ (g : Page). listed g.flags)
                (sym (c.others (at s.db i) (ne_of_test (at s.db i) p w)))
      ]
