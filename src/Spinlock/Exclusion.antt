-- ===== src/Spinlock/Exclusion.antt =====
-- No two processors hold the lock at once.
use lapis.Base.{
  ℕ, ◌≡◌, refl, ◌≢◌, sym, ap, ◌∙◌, Bool, true, false, ◌==◌, if◌then◌else◌, arith, put, Bool-cases,
  inl, inr, eq_of_test, ne_of_test, pos, negsuc,
}
use lapis.Spinlock.{
  Lock, State, Step, Reachable, Place, away, spinning, won, holding, leaving, move, try_lock,
  exchange, set_owner, unlock, call, spin, win, own, leave, free, start, next,
}

-- A processor has the lock from its exchange on until it is free again.
abbrev pub has_lock : Place → Bool
has_lock away = false
has_lock spinning = false
has_lock won = true
has_lock holding = true
has_lock leaving = true

pub record IsExclusive (s : State) : Type 0 where
  pub taken : (a : ℕ) → has_lock (s.places a) ≡ true → s.lock.locked ≢ 0
  pub one : (a b : ℕ) → has_lock (s.places a) ≡ true → has_lock (s.places b) ≡ true → a ≡ b

has_lock-put :
    (f : ℕ → Place) (me a : ℕ) (p : Place)
    → has_lock (put f me p a) ≡ (if a == me then has_lock p else has_lock (f a))
unfolding put
has_lock-put f me a p = elim (Bool-cases (a == me)) [ inl e ↦ rw e refl | inr e ↦ rw e refl ]

-- A processor that keeps or has not the lock moves.
same-IsExclusive :
    (s : State) (me : ℕ) (p : Place) (l : Lock)
    → IsExclusive s
    → has_lock p ≡ has_lock (s.places me)
    → l.locked ≡ s.lock.locked
    → IsExclusive (move me p l s)
same-IsExclusive s me p l i e k = record {
  taken = λ a h w. i.taken a (before a h) (sym k ∙ w);
  one = λ a b h h'. i.one a b (before a h) (before b h');
}
  where
    before : (a : ℕ) → has_lock (put s.places me p a) ≡ true → has_lock (s.places a) ≡ true
    before a h = elim (Bool-cases (a == me)) [
      | inl w ↦ ap (λ x. has_lock (s.places x)) (eq_of_test a me w) ∙ sym e ∙ sym (here w) ∙ h
      | inr w ↦ sym (there w) ∙ h
    ]
      where
        here : (a == me) ≡ true → has_lock (put s.places me p a) ≡ has_lock p
        here w = has_lock-put s.places me a p ∙ (rw w refl)

        there : (a == me) ≡ false → has_lock (put s.places me p a) ≡ has_lock (s.places a)
        there w = has_lock-put s.places me a p ∙ (rw w refl)

-- The processor that wins is the only one with the lock.
win-IsExclusive :
    (s : State) (me : ℕ)
    → IsExclusive s
    → (try_lock s.lock).0 ≡ true
    → IsExclusive (move me won (try_lock s.lock).1 s)
unfolding try_lock exchange
win-IsExclusive s me i t = elim (Bool-cases (s.lock.locked == 0)) [
  | inr f ↦ absurd (lost f t)
  | inl f ↦
      let only : (a : ℕ) → has_lock (put s.places me won a) ≡ true → a ≡ me = λ a h.
        elim (Bool-cases (a == me)) [
          | inl w ↦ eq_of_test a me w
          | inr w ↦ absurd (
              i.taken a (sym (has_lock-put s.places me a won ∙ (rw w refl)) ∙ h)
                (eq_of_test s.lock.locked 0 f))
        ] in
      record { taken = λ a h. rw f (one_ne 1 refl); one = λ a b h h'. only a h ∙ sym (only b h') }
]
  where
    one_ne : (n : ℕ) → n ≡ 1 → n ≢ 0
    one_ne n e f = omega arith

    lost : (s.lock.locked == 0) ≡ false → (exchange (s.lock.locked == 0) s.lock).0 ≡ true → ⊥
    lost f t = differ (sym (ap (λ c. (exchange c s.lock).0) f) ∙ t)
      where
        differ : false ≡ true → ⊥
        differ e = cc

-- With the processor that frees the lock, none has it.
free-IsExclusive :
    (s : State) (me : ℕ)
    → IsExclusive s
    → s.places me ≡ leaving
    → IsExclusive (move me away (unlock s.lock) s)
unfolding unlock
free-IsExclusive s me i at = record {
  taken = λ a h e. nobody a h;
  one = λ a b h h'. absurd (nobody a h);
}
  where
    nobody : (a : ℕ) → has_lock (put s.places me away a) ≡ true → ⊥
    nobody a h = elim (Bool-cases (a == me)) [
      | inl w ↦ differ (sym (has_lock-put s.places me a away ∙ (rw w refl)) ∙ h)
      | inr w ↦
          ne_of_test a me w
            (i.one a me (sym (has_lock-put s.places me a away ∙ (rw w refl)) ∙ h) (rw at refl))
    ]
      where
        differ : false ≡ true → ⊥
        differ e = cc

-- An exchange that fails leaves the lock as it is.
failed : (l : Lock) → (try_lock l).0 ≡ false → (try_lock l).1.locked ≡ l.locked
unfolding try_lock exchange
failed l t = by_test (l.locked == 0) t
  where
    by_test : (c : Bool) → (exchange c l).0 ≡ false → (exchange c l).1.locked ≡ l.locked
    by_test true e = ground arith
    by_test false e = refl

Step-IsExclusive : {s s' : State} → Step s s' → IsExclusive s → IsExclusive s'
unfolding set_owner
Step-IsExclusive {s} (call me at) i = same-IsExclusive s me spinning s.lock i (rw at refl) refl
Step-IsExclusive {s} (spin me at t) i =
    same-IsExclusive s me spinning (try_lock s.lock).1 i (rw at refl) (failed s.lock t)
Step-IsExclusive {s} (win me at t) i = win-IsExclusive s me i t
Step-IsExclusive {s} (own me at) i =
    same-IsExclusive s me holding (set_owner (pos me) s.lock) i (rw at refl) refl
Step-IsExclusive {s} (leave me at) i =
    same-IsExclusive s me leaving (set_owner (negsuc 0) s.lock) i (rw at refl) refl
Step-IsExclusive {s} (free me at) i = free-IsExclusive s me i at

-- In every state that the steps reach from the unlocked one, at most one processor has the lock, and
-- the lock is taken if one has it.
pub reachable-IsExclusive : {s : State} → Reachable s → IsExclusive s
reachable-IsExclusive start = record { taken = λ a h. ground arith; one = λ a b h h'. ground arith }
reachable-IsExclusive (next r t) = Step-IsExclusive t (reachable-IsExclusive r)
