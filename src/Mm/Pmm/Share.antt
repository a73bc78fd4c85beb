-- ===== src/Mm/Pmm/Share.antt =====
-- `pmm_page_share` and `pmm_page_unshare`.
use lapis.Base.{
  ℕ, ◌+◌, ◌-◌, ◌≤◌, ◌<◌, ◌≡◌, ◌≢◌, true, false, not, ◌&&◌, List, arith, ◌==◌, ltb, leb, ◌∙◌, has,
  if◌then◌else◌, test_ne, test_self, add64, mod64,
}
use lapis.Mm.Page.{Flags, Page}
use lapis.Mm.Pmm.{Pmm, page_share, page_unshare, drop_sharer, page_mark_cow, page_clear_cow}
use lapis.Mm.Pmm.Inv.{InDb, listed, IsValid}
use lapis.Mm.Pmm.Fields.{fields}
use lapis.Mm.Pmm.Touch.{
  Touches, Touches-trans, Touches-if, Touches-none, Touches-set_u2, Touches-set_flags,
  touch-IsValid,
}
use lapis.Mm.Pmm.Bound.{listed-off}

Touches-share : (p : ℕ) (s : Pmm) → Touches p s (page_share p s)
unfolding page_share
Touches-share p s = Touches-if _ (Touches-none p s) (
    Touches-trans
      (Touches-if _ (Touches-none p s) (
        Touches-if _ (Touches-trans (Touches-set_flags p s _) (Touches-set_u2 p _ 1))
          (Touches-set_flags p s _)))
      (Touches-set_u2 p _ _))

Touches-drop_sharer : (p : ℕ) (s : Pmm) → Touches p s (drop_sharer p s)
unfolding drop_sharer
Touches-drop_sharer p s = Touches-if _ (Touches-set_u2 p s _) (Touches-none p s)

Touches-unshare : (p : ℕ) (s : Pmm) → Touches p s (page_unshare p s)
unfolding page_unshare
Touches-unshare p s =
    let t = drop_sharer p s in
    let f = record (t.mem p).flags { shared = false } in
    Touches-if (p == 0) (Touches-none p s) (
      Touches-if (not (s.mem p).flags.shared) (Touches-none p s) (
        Touches-if (leb (t.mem p).u2 1)
          (Touches-trans (Touches-drop_sharer p s) (Touches-set_flags p t f))
          (Touches-drop_sharer p s)))

Touches-mark_cow : (p : ℕ) (s : Pmm) → Touches p s (page_mark_cow p s)
unfolding page_mark_cow
Touches-mark_cow p s = Touches-if _ (Touches-none p s) (Touches-set_flags p s _)

Touches-clear_cow : (p : ℕ) (s : Pmm) → Touches p s (page_clear_cow p s)
unfolding page_clear_cow
Touches-clear_cow p s = Touches-if _ (Touches-none p s) (Touches-set_flags p s _)

listed-share : (p : ℕ) (s : Pmm) → listed ((page_share p s).mem p).flags ≡ listed (s.mem p).flags
unfolding page_share
listed-share p s = simp (fields, test_self) (ground arith)

listed-unshare :
    (p : ℕ) (s : Pmm) → listed ((page_unshare p s).mem p).flags ≡ listed (s.mem p).flags
unfolding page_unshare drop_sharer
listed-unshare p s = simp (fields, test_self) (ground arith)

listed-mark_cow :
    (p : ℕ) (s : Pmm) → listed ((page_mark_cow p s).mem p).flags ≡ listed (s.mem p).flags
unfolding page_mark_cow
listed-mark_cow p s = simp (fields, test_self) (ground arith)

listed-clear_cow :
    (p : ℕ) (s : Pmm) → listed ((page_clear_cow p s).mem p).flags ≡ listed (s.mem p).flags
unfolding page_clear_cow
listed-clear_cow p s = simp (fields, test_self) (ground arith)

-- `pmm_page_share`, `pmm_page_unshare`, `pmm_page_mark_cow` and `pmm_page_clear_cow` on a page that
-- is not on the free list keep the invariant, and the list.
pub sharing-IsValid :
    {s : Pmm} (xs : List ℕ) (p : ℕ)
    → IsValid s xs
    → InDb s p
    → has p xs ≡ false
    → IsValid (page_share p s) xs
      × IsValid (page_unshare p s) xs
      × IsValid (page_mark_cow p s) xs
      × IsValid (page_clear_cow p s) xs
sharing-IsValid {s} xs p v q out =
    let off = listed-off v p q out in
    (
      touch-IsValid xs (Touches-share p s) out (listed-share p s ∙ off) v,
      touch-IsValid xs (Touches-unshare p s) out (listed-unshare p s ∙ off) v,
      touch-IsValid xs (Touches-mark_cow p s) out (listed-mark_cow p s ∙ off) v,
      touch-IsValid xs (Touches-clear_cow p s) out (listed-clear_cow p s ∙ off) v,
    )

-- `PAGE_SHARED` is set exactly where there is more than one sharer.
abbrev pub ShareCounted : Page → Type 0
ShareCounted g = (1 ≤ g.u2) × (g.u2 + 1 < mod64) × (g.flags.shared ≡ ltb 1 g.u2)

module _ (p : ℕ) (s : Pmm) (ne : p ≢ 0) where
  u2-share :
      ((page_share p s).mem p).u2
      ≡ add64
          (if (s.mem p).flags.shared
            then (s.mem p).u2
            else if (s.mem p).u2 == 0
            then 1
            else (s.mem p).u2)
          1
  unfolding page_share
  u2-share = simp (test_ne p 0 ne, fields, test_self)

  flags-share : ((page_share p s).mem p).flags ≡ record (s.mem p).flags { shared = true }
  unfolding page_share
  flags-share = simp (test_ne p 0 ne, fields, test_self) (ground arith)

  u2-unshare :
      ((page_unshare p s).mem p).u2
      ≡ (if (s.mem p).flags.shared then (s.mem p).u2 - 1 else (s.mem p).u2)
  unfolding page_unshare drop_sharer
  u2-unshare = simp (test_ne p 0 ne, fields, test_self) (ground arith)

  flags-unshare : ((page_unshare p s).mem p).flags ≡ (
      if (s.mem p).flags.shared && leb (s.mem p).u2 2
      then record (s.mem p).flags { shared = false }
      else (s.mem p).flags)
  unfolding page_unshare drop_sharer
  flags-unshare = simp (test_ne p 0 ne, fields, test_self) (ground arith)

  next-share : (b : ℕ) → ((page_share p s).mem b).next ≡ (s.mem b).next
  unfolding page_share
  next-share b = simp (test_ne p 0 ne, fields) (ground arith)

  refcount-share : (b : ℕ) → ((page_share p s).mem b).refcount ≡ (s.mem b).refcount
  unfolding page_share
  refcount-share b = simp (test_ne p 0 ne, fields) (ground arith)

  next-unshare : (b : ℕ) → ((page_unshare p s).mem b).next ≡ (s.mem b).next
  unfolding page_unshare drop_sharer
  next-unshare b = simp (test_ne p 0 ne, fields) (ground arith)

  refcount-unshare : (b : ℕ) → ((page_unshare p s).mem b).refcount ≡ (s.mem b).refcount
  unfolding page_unshare drop_sharer
  refcount-unshare b = simp (test_ne p 0 ne, fields) (ground arith)

-- What one more sharer and one fewer leave of the count and the mark.
shared_back :
    (n : ℕ) (f : Flags)
    → 1 ≤ n
    → n + 1 < mod64
    → f.shared ≡ ltb 1 n
    → let m = add64 (if f.shared then n else if n == 0 then 1 else n) 1 in
      (m - 1 ≡ n)
      × ((if leb m 2 then record f { shared = false } else record f { shared = true }) ≡ f)
shared_back n f a b c = ground arith

-- Where the shared mark and the count of sharers of a page agree, `pmm_page_share` followed by
-- `pmm_page_unshare` restores the descriptor.
pub unshare-share :
    (p : ℕ) (s : Pmm)
    → p ≢ 0
    → ShareCounted (s.mem p)
    → (page_unshare p (page_share p s)).mem p ≡ s.mem p
unshare-share p s ne (a, b, c) =
    page_eq (next-unshare p t ne p ∙ next-share p s ne p)
      (u2-unshare p t ne
        ∙ rw (flags-share p s ne, u2-share p s ne)
            (shared_back (s.mem p).u2 (s.mem p).flags a b c).0)
      (flags-unshare p t ne
        ∙ rw (flags-share p s ne, u2-share p s ne)
            (shared_back (s.mem p).u2 (s.mem p).flags a b c).1)
      (refcount-unshare p t ne p ∙ refcount-share p s ne p)
  where
    t : Pmm
    t = page_share p s

    page_eq :
        {g h : Page}
        → g.next ≡ h.next
        → g.u2 ≡ h.u2
        → g.flags ≡ h.flags
        → g.refcount ≡ h.refcount
        → g ≡ h
    page_eq e f k l = λ i. record { next = e i; u2 = f i; flags = k i; refcount = l i }
