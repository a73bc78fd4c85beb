-- ===== src/Fd/Refs.antt =====
-- The references to the entries are counted: the count of an entry is the number of slots that hold
-- it and of the references that others hold.
use lapis.Base.{
  ℕ, suc, ◌+◌, ◌<◌, ◌≡◌, refl, ◌≢◌, ap, ◌∙◌, subst, Bool, true, false, List, ◌==◌, if◌then◌else◌,
  arith, put, Bool-cases, inl, inr, mod32, add32, sub32, test_self, test_ne, ltb, eq_of_test,
}
use lapis.Fd.{
  Fds, Entry, FdType, fd_none, fd_file, fd_dir, set_refs, let_go, fd_entry_ref, fd_entry_unref,
  drop_entry, drop_parts, Event, kclose, vnode_unref, kfree,
}
use lapis.Fd.Slots.{one_if, uses}

abbrev pub refs : Fds → ℕ → ℕ
refs s b = (s.entries b).refcount

abbrev pub slots : ℕ → Fds → List ℕ
slots t s = (s.tables t).slots

-- Letting go of things leaves the tables and the entries alone.
record Same (s s' : Fds) : Type 0 where
  tables : s'.tables ≡ s.tables
  entries : s'.entries ≡ s.entries

Same-if : (c : Bool) (s a b : Fds) → Same s a → Same s b → Same s (if c then a else b)
Same-if true s a b i j = i
Same-if false s a b i j = j

Same-let_go : (ev : Event) (s a : Fds) → Same s a → Same s (let_go ev a)
unfolding let_go
Same-let_go ev s a i = record { tables = i.tables; entries = i.entries }

Same-refl : (s : Fds) → Same s s
Same-refl s = record { tables = refl; entries = refl }

Same-parts : (k : FdType) (en : Entry) (s : Fds) → Same s (drop_parts k en s)
unfolding drop_parts
Same-parts fd_none en s = Same-refl s
Same-parts fd_file en s =
    Same-if (en.file == 0) s s _ (Same-refl s) (Same-let_go (kclose en.file) s s (Same-refl s))
Same-parts fd_dir en s =
    let v : Same s (if en.dir_vnode == 0 then s else let_go (vnode_unref en.dir_vnode) s) =
      Same-if (en.dir_vnode == 0) s s _ (Same-refl s)
        (Same-let_go (vnode_unref en.dir_vnode) s s (Same-refl s)) in
    Same-if (en.dir_buf == 0) s _ _ v (Same-let_go (kfree en.dir_buf) s _ v)

Same-drop : (e : ℕ) (s : Fds) → Same s (drop_entry e s)
unfolding drop_entry
Same-drop e s = Same-let_go (kfree e) s _ (Same-parts (s.entries e).kind (s.entries e) s)

module _ (e : ℕ) (s : Fds) where
  pub tables-ref : (fd_entry_ref e s).tables ≡ s.tables
  unfolding fd_entry_ref set_refs
  tables-ref = elim (Bool-cases (e == 0)) [ inl h ↦ rw h refl | inr h ↦ rw h refl ]

  pub refs-ref :
      e ≢ 0
      → (b : ℕ) → refs (fd_entry_ref e s) b ≡ (if e == b then add32 (refs s b) 1 else refs s b)
  unfolding fd_entry_ref set_refs put
  refs-ref z b = rw (test_ne e 0 z) (ground arith)

  -- The count goes down, and the rest of an entry is let go with the last reference.
  abbrev lowered : Fds
  lowered = set_refs e (sub32 (refs s e) 1) s

  Same-unref : e ≢ 0 → Same lowered (fd_entry_unref e s)
  unfolding fd_entry_unref
  Same-unref z = rw (test_ne e 0 z) (
      Same-if (ltb 0 (refs lowered e)) lowered lowered (drop_entry e lowered) (Same-refl lowered)
        (Same-drop e lowered))

  pub tables-unref : e ≢ 0 → (fd_entry_unref e s).tables ≡ s.tables
  unfolding set_refs
  tables-unref z = (Same-unref z).tables

  refs-unref :
      e ≢ 0
      → (b : ℕ) → refs (fd_entry_unref e s) b ≡ (if e == b then sub32 (refs s b) 1 else refs s b)
  unfolding set_refs put
  refs-unref z b = ap (λ en. (en b).refcount) (Same-unref z).entries ∙ ground arith

-- The count of every entry, with `ext` for the references that others than the table `t` hold.
pub record Counted (t : ℕ) (s : Fds) (ext : ℕ → ℕ) : Type 0 where
  pub refs : (b : ℕ) → b ≢ 0 → refs s b ≡ uses b (slots t s) + ext b
  pub small : (b : ℕ) → b ≢ 0 → uses b (slots t s) + ext b < mod32

-- One more reference to `e`.
abbrev pub gain : ℕ → (ℕ → ℕ) → ℕ → ℕ
gain e ext b = ext b + one_if (e == b)

pub up : (r : ℕ) (c : Bool) → r + one_if c < mod32 → (if c then add32 r 1 else r) ≡ r + one_if c
up r true k = omega arith
up r false k = omega arith

down : (r n : ℕ) (c : Bool) → r ≡ n + one_if c → r < mod32 → (if c then sub32 r 1 else r) ≡ n
down r n true e k = omega arith
down r n false e k = omega arith

shifted : (r u x o : ℕ) → r ≡ u + x → r + o ≡ u + (x + o)
shifted r u x o e = omega arith

regrouped : (r u x o : ℕ) → r ≡ u + (x + o) → r ≡ (u + x) + o
regrouped r u x o e = omega arith

carried : {r n m : ℕ} → r ≡ n → n < m → r < m
carried e k = omega arith

fewer : (u x m o : ℕ) → u + (x + o) < m → u + x < m
fewer u x m o k = omega arith

module _ (t e : ℕ) (s : Fds) (ext : ℕ → ℕ) (z : e ≢ 0) where
  pub fits :
      Counted t s ext
      → suc (uses e (slots t s) + ext e) < mod32
      → (b : ℕ) → b ≢ 0
      → uses b (slots t s) + gain e ext b < mod32
  fits i room b y = elim (Bool-cases (e == b)) [
    | inl h ↦
        subst (λ x. uses x (slots t s) + gain e ext x < mod32) (eq_of_test e b h)
          (rw (test_self e) (one_more _ _ room))
    | inr h ↦ rw h (none_more _ _ (i.small b y))
  ]
    where
      one_more : (u x : ℕ) → suc (u + x) < mod32 → u + (x + 1) < mod32
      one_more u x k = omega arith

      none_more : (u x : ℕ) → u + x < mod32 → u + (x + 0) < mod32
      none_more u x k = omega arith

  -- A caller that takes a reference holds one more.
  pub ref-Counted :
      Counted t s ext
      → suc (uses e (slots t s) + ext e) < mod32
      → Counted t (fd_entry_ref e s) (gain e ext)
  ref-Counted i room = record {
    refs = λ b y. rw (tables-ref e s) (
        refs-ref e s z b
        ∙ up (refs s b) (e == b) (carried (sum i b y) (fits i room b y))
        ∙ sum i b y);
    small = λ b y. rw (tables-ref e s) (fits i room b y);
  }
    where
      sum :
          Counted t s ext
          → (b : ℕ) → b ≢ 0
          → refs s b + one_if (e == b) ≡ uses b (slots t s) + gain e ext b
      sum i b y = shifted _ _ _ (one_if (e == b)) (i.refs b y)

  -- A caller that gives a reference back holds one less.
  pub unref-Counted : Counted t s (gain e ext) → Counted t (fd_entry_unref e s) ext
  unref-Counted i = record {
    refs = λ b y. rw (tables-unref e s z) (
        refs-unref e s z b
        ∙ down (refs s b) (uses b (slots t s) + ext b) (e == b)
            (regrouped _ _ _ (one_if (e == b)) (i.refs b y)) (carried (i.refs b y) (i.small b y)));
    small = λ b y. rw (tables-unref e s z) (fewer _ _ _ (one_if (e == b)) (i.small b y));
  }
