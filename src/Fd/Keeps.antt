-- ===== src/Fd/Keeps.antt =====
-- The operations of a descriptor table keep the counts of the references, on every path.
use lapis.Base.{
  ℕ, suc, ◌+◌, ◌-◌, ◌<◌, ◌≤◌, ◌≡◌, refl, ◌≢◌, sym, ap, ◌∙◌, subst, Bool, true, false, List, ◌++◌,
  ◌==◌, if◌then◌else◌, arith, length, set, put, mod32, replicate, add32, test_self, ltb, ℤ, pos,
}
use lapis.Fd.{
  Fds, slot, set_slots, put_entry, fdtable_grow, grown_capacity, is_ok, fd_table_max, emfile,
  enomem,
}
use lapis.Fd.Slots.{one_if, uses, uses-set, uses-append_zeros, in_range}
use lapis.Fd.Refs.{refs, slots, Counted, fits, gain, tables-ref, refs-ref, up}

pub slots-set : (t : ℕ) (xs : List ℕ) (s : Fds) → slots t (set_slots t xs s) ≡ xs
unfolding set_slots put
slots-set t xs s = rw (slots, test_self t) refl

refs-set : (t : ℕ) (xs : List ℕ) (s : Fds) (b : ℕ) → refs (set_slots t xs s) b ≡ refs s b
unfolding set_slots
refs-set t xs s b = refl

-- Slots that hold every entry as often as before keep the counts.
same_uses-Counted :
    (t : ℕ) (xs : List ℕ) (s : Fds) (ext : ℕ → ℕ)
    → ((b : ℕ) → b ≢ 0 → uses b xs ≡ uses b (slots t s))
    → Counted t s ext
    → Counted t (set_slots t xs s) ext
same_uses-Counted t xs s ext same i = record {
  refs = λ b y.
      refs-set t xs s b
      ∙ i.refs b y
      ∙ ap (λ n. n + ext b) (sym (same b y) ∙ ap (uses b) (sym (slots-set t xs s)));
  small = λ b y.
      subst (λ n. n + ext b < mod32) (sym (same b y) ∙ ap (uses b) (sym (slots-set t xs s)))
        (i.small b y);
}

zero_ne : (b : ℕ) → b ≢ 0 → one_if (0 == b) ≡ 0
zero_ne b y = ground arith

added : (a b c : ℕ) → a + 0 ≡ b + c → a ≡ b + c
added a b c e = omega arith

-- A free slot that gets an entry adds one to the uses of that.
uses-put :
    (e i b : ℕ) (xs : List ℕ)
    → i < length xs
    → slot xs i ≡ 0
    → b ≢ 0
    → uses b (set xs i e) ≡ uses b xs + one_if (e == b)
uses-put e i b xs k free y = added (uses b (set xs i e)) (uses b xs) (one_if (e == b)) (
    subst (λ n. uses b (set xs i e) + n ≡ uses b xs + one_if (e == b))
      (ap (λ x. one_if (x == b)) free ∙ zero_ne b y) (uses-set b e i xs k))

-- An entry that leaves its slot is there once less.
uses-take :
    (e i b : ℕ) (xs : List ℕ)
    → slot xs i ≡ e
    → e ≢ 0
    → b ≢ 0
    → uses b xs ≡ uses b (set xs i 0) + one_if (e == b)
uses-take e i b xs held z y =
    balance _ _ _ _ _ (zero_ne b y) (ap (λ x. one_if (x == b)) held)
      (uses-set b 0 i xs (in_range i xs (λ w. z (sym held ∙ w))))
  where
    balance : (u w n o h : ℕ) → n ≡ 0 → h ≡ o → w + h ≡ u + n → u ≡ w + o
    balance u w n o h e f g = omega arith

module _ (t e i : ℕ) (s : Fds) (z : e ≢ 0) where
  pub slots-put : slots t (put_entry t i e s) ≡ set (slots t s) i e
  unfolding put_entry
  slots-put =
      ap (λ f. (f t).slots) (tables-ref e (set_slots t (set (slots t s) i e) s))
      ∙ slots-set t (set (slots t s) i e) s

  refs-put :
      (b : ℕ) → refs (put_entry t i e s) b ≡ (if e == b then add32 (refs s b) 1 else refs s b)
  unfolding put_entry
  refs-put b =
      refs-ref e (set_slots t (set (slots t s) i e) s) z b
      ∙ ap (λ r. if e == b then add32 r 1 else r) (refs-set t (set (slots t s) i e) s b)

  -- The table that takes an entry into a free slot holds a reference to it.
  pub put-Counted :
      (ext : ℕ → ℕ)
      → Counted t s ext
      → i < length (slots t s)
      → slot (slots t s) i ≡ 0
      → suc (uses e (slots t s) + ext e) < mod32
      → Counted t (put_entry t i e s) ext
  put-Counted ext c k free room =
      let more : (b : ℕ)
          → b ≢ 0
          → uses b (slots t (put_entry t i e s)) ≡ uses b (slots t s) + one_if (e == b) =
        λ b y. ap (uses b) slots-put ∙ uses-put e i b (slots t s) k free y in
      record {
        refs = λ b y.
            refs-put b
            ∙ up (refs s b) (e == b) (into _ _ _ _ _ (c.refs b y) (fits t e s ext z c room b y))
            ∙ across _ _ _ _ _ (c.refs b y) (more b y);
        small = λ b y. within _ _ _ _ _ (more b y) (fits t e s ext z c room b y);
      }
    where
      into : (r u x o m : ℕ) → r ≡ u + x → u + (x + o) < m → r + o < m
      into r u x o m e k = omega arith

      across : (r u x o w : ℕ) → r ≡ u + x → w ≡ u + o → r + o ≡ w + x
      across r u x o w e f = omega arith

      within : (u x o w m : ℕ) → w ≡ u + o → u + (x + o) < m → w + x < m
      within u x o w m e k = omega arith

  -- The table that empties a slot leaves its reference to the caller.
  pub take-Counted :
      (ext : ℕ → ℕ)
      → Counted t s ext
      → slot (slots t s) i ≡ e
      → Counted t (set_slots t (set (slots t s) i 0) s) (gain e ext)
  take-Counted ext c held =
      let less : (b : ℕ)
          → b ≢ 0
          → uses b (slots t s)
            ≡ uses b (slots t (set_slots t (set (slots t s) i 0) s)) + one_if (e == b) =
        λ b y.
          uses-take e i b (slots t s) held z y
          ∙ ap (λ xs. uses b xs + one_if (e == b)) (sym (slots-set t (set (slots t s) i 0) s)) in
      record {
        refs =
            λ b y. refs-set t (set (slots t s) i 0) s b ∙ across _ _ _ _ _ (c.refs b y) (less b y);
        small = λ b y. within _ _ _ _ _ (less b y) (c.small b y);
      }
    where
      across : (r u x o w : ℕ) → r ≡ u + x → u ≡ w + o → r ≡ w + (x + o)
      across r u x o w e f = omega arith

      within : (u x o w m : ℕ) → u ≡ w + o → u + x < m → w + (x + o) < m
      within u x o w m e k = omega arith

-- The three ends of `fdtable_grow`, by its two tests.
grow_end : (over ok : Bool) (t : ℕ) (xs : List ℕ) → Fds → ℤ × Fds
grow_end true ok t xs s = (emfile, s)
grow_end false true t xs s = (pos 0, set_slots t xs s)
grow_end false false t xs s = (enomem, s)

module _ (ok : Bool) (t m : ℕ) (s : Fds) where
  abbrev pub wider : List ℕ
  wider = slots t s ++ replicate (grown_capacity (length (slots t s)) m - length (slots t s)) 0

  grow-end : fdtable_grow ok t m s ≡ grow_end (ltb fd_table_max m) ok t wider s
  unfolding fdtable_grow grow_end
  grow-end = by_tests (ltb fd_table_max m) ok
    where
      by_tests :
          (a b : Bool)
          → (if a then (emfile, s) else if b then (pos 0, set_slots t wider s) else (enomem, s))
            ≡ grow_end a b t wider s
      by_tests true b = refl
      by_tests false true = refl
      by_tests false false = refl

  pub grow-Counted : (ext : ℕ → ℕ) → Counted t s ext → Counted t (fdtable_grow ok t m s).1 ext
  unfolding grow_end
  grow-Counted ext i = rw grow-end (at_end (ltb fd_table_max m) ok)
    where
      at_end : (a b : Bool) → Counted t (grow_end a b t wider s).1 ext
      at_end true b = i
      at_end false true =
          same_uses-Counted t wider s ext
            (λ b y.
              uses-append_zeros b (grown_capacity (length (slots t s)) m - length (slots t s))
                (slots t s) y)
            i
      at_end false false = i

  -- A table that has grown has its old slots, free ones behind them, and is wide enough.
  pub grow-slots :
      is_ok (fdtable_grow ok t m s).0 ≡ true
      → (slots t (fdtable_grow ok t m s).1 ≡ wider) × (m ≤ fd_table_max)
  unfolding grow_end
  grow-slots = rw grow-end (at_end (ltb fd_table_max m) ok refl)
    where
      at_end :
          (a b : Bool)
          → ltb fd_table_max m ≡ a
          → is_ok (grow_end a b t wider s).0 ≡ true
          → (slots t (grow_end a b t wider s).1 ≡ wider) × (m ≤ fd_table_max)
      at_end true b e h = ground arith
      at_end false true e h = (slots-set t wider s, ground arith)
      at_end false false e h = ground arith

pub grow-ok : (t m : ℕ) (s : Fds) → m ≤ fd_table_max → is_ok (fdtable_grow true t m s).0 ≡ true
unfolding fdtable_grow
grow-ok t m s k = rw (not_over m k) refl
  where
    not_over : (m : ℕ) → m ≤ fd_table_max → ltb fd_table_max m ≡ false
    not_over m k = ground arith

pub wide : (n m : ℕ) → m ≤ fd_table_max → m ≤ grown_capacity n m
unfolding grown_capacity
wide n m k = ground arith
