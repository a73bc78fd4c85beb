-- ===== src/Sched/Runqueue/Steal.antt =====
-- Which thread another processor steals.
use lapis.Base.{
  ◌≤◌, ℕ, zero, suc, ◌<◌, ◌≡◌, refl, ◌≢◌, sym, ap, ◌∙◌, true, false, ◌==◌, List, ◌∷◌, arith, length,
  ltb, sub32, Bool-cases, inl, inr, test_ne, eq_of_test, ne_of_test,
}
use lapis.Sched.Runqueue.{Runqueues, pop_on, steal_below, steal_from, set_nr_running}
use lapis.Sched.Runqueue.Fields.{rqs}
use lapis.Sched.Runqueue.Inv.{Lists, set_list, IsSched, Queues-frame}
use lapis.Sched.Runqueue.Count.{count-shorter, small-shorter, length-total}
use lapis.Sched.Runqueue.Take.{levels, pop_on-thread, pop_on-Queues, nr_running-pop}

-- A pop of the victim that it counts.
abbrev taken : (c l : ℕ) → Runqueues → ℕ × Runqueues
taken c l s = let r = pop_on c l s in (r.0, set_nr_running c (sub32 (r.1.rqs c).nr_running 1) r.1)

module _ (c : ℕ) (s : Runqueues) (qs : Lists) (i : IsSched s qs) where
  count_many : (l : ℕ) → 1 < length (qs c l) → ltb 1 (levels s c l).count ≡ true
  count_many l k = rw ((i.queues.queue c l).count) (ground arith)

  count_few : (l : ℕ) → length (qs c l) ≤ 1 → ltb 1 (levels s c l).count ≡ false
  count_few l k = rw ((i.queues.queue c l).count) (ground arith)

  steal_below-last :
      (n l : ℕ)
      → l < n
      → ((k : ℕ) → l < k → k < n → length (qs c k) ≤ 1)
      → 1 < length (qs c l)
      → steal_below n c s ≡ taken c l s
  unfolding steal_below
  steal_below-last zero l a few k = absurd (none a)
    where
      none : {m : ℕ} → m < 0 → ⊥
      none a = omega arith
  steal_below-last (suc n) l a few k = elim (Bool-cases (l == n)) [
    | inl h ↦ rw (sym (eq_of_test l n h), count_many l k) refl
    | inr h ↦
        rw (count_few n (few n (earlier h) (omega arith)))
          (steal_below-last n l (earlier h) (λ j u v. few j u (omega arith)) k)
  ]
    where
      earlier : (l == n) ≡ false → l < n
      earlier h = ground (arith, ne_of_test l n)

  steal_below-none : (n : ℕ) → ((k : ℕ) → k < n → length (qs c k) ≤ 1) → steal_below n c s ≡ (0, s)
  unfolding steal_below
  steal_below-none zero few = refl
  steal_below-none (suc n) few =
      rw (count_few n (few n (omega arith))) (steal_below-none n (λ k u. few k (omega arith)))

  taken-IsSched :
      (l x : ℕ) (xs : List ℕ)
      → l < 8
      → qs c l ≡ x ∷ xs
      → IsSched (taken c l s).1 (set_list c l xs qs)
  taken-IsSched l x xs k e = record {
    queues =
        Queues-frame (λ d j. simp rqs) (λ d j b h. (simp rqs, simp rqs, simp rqs, simp rqs))
          (pop_on-Queues c l s qs i.queues x xs e);
    count =
        count-shorter c l xs qs k (ap length e ∙ more (length xs)) (λ d. (s.rqs d).nr_running) _
          (λ d. simp (rqs, nr_running-pop c l s)) i.count (i.small c);
    small = small-shorter c l xs qs k (ap length e ∙ more (length xs)) i.small;
  }
    where
      more : (n : ℕ) → suc n ≡ suc n
      more n = refl

  counted : (l : ℕ) → l < 8 → 1 < length (qs c l) → (s.rqs c).nr_running ≢ 0
  counted l k m e = room (length-total 8 l (qs c) k) (sym (i.count c) ∙ e) m
    where
      room : {a b : ℕ} → a ≤ b → b ≡ 0 → 1 < a → ⊥
      room p q r = omega arith

-- In sound run queues, a steal from a processor that has more than one thread at a level takes the
-- first thread of the lowest such level, and the run queues stay sound: the victim's counts what it
-- has left.
pub steal_from-last :
    (c l x y : ℕ) (ys : List ℕ) (s : Runqueues) (qs : Lists)
    → IsSched s qs
    → l < 8
    → ((k : ℕ) → l < k → k < 8 → length (qs c k) ≤ 1)
    → qs c l ≡ x ∷ (y ∷ ys)
    → ((steal_from c s).0 ≡ x) × IsSched (steal_from c s).1 (set_list c l (y ∷ ys) qs)
unfolding steal_from
steal_from-last c l x y ys s qs i k few e =
    let m : 1 < length (qs c l) = rw e (omega arith) in
    rw
      (
        test_ne (s.rqs c).nr_running 0 (counted c s qs i l k m),
        steal_below-last c s qs i 8 l k few m,
      )
      (pop_on-thread c l s qs i.queues x (y ∷ ys) e, taken-IsSched c s qs i l x (y ∷ ys) k e)

-- A processor with at most one thread at each level is not stolen from.
pub steal_from-none :
    (c : ℕ) (s : Runqueues) (qs : Lists)
    → IsSched s qs
    → ((k : ℕ) → k < 8 → length (qs c k) ≤ 1)
    → steal_from c s ≡ (0, s)
unfolding steal_from
steal_from-none c s qs i few = elim (Bool-cases ((s.rqs c).nr_running == 0)) [
  | inl h ↦ rw h refl
  | inr h ↦ rw h (steal_below-none c s qs i 8 few)
]
