-- ===== src/Sched/Runqueue/Pick.antt =====
-- Which thread runs next.
use lapis.Base.{
  ◌≤◌, ℕ, zero, suc, ◌+◌, ◌<◌, ◌≡◌, refl, true, false, ◌==◌, List, [], ◌∷◌, arith, ltb, Bool-cases,
  inl, inr, eq_of_test, ne_of_test,
}
use lapis.Sched.Runqueue.{Runqueues, pop_on, pick_from, mlfq_pick_next}
use lapis.Sched.Runqueue.Inv.{Lists, set_list, Queues, IsSched}
use lapis.Sched.Runqueue.Take.{levels, pop_on-thread, pop_on-Queues}

outside : {l j : ℕ} → l ≤ j → j < l + 0 → ⊥
outside a b = omega arith

module _ (c : ℕ) (s : Runqueues) (qs : Lists) (i : Queues (levels s) s.threads qs) where
  count_some : (l x : ℕ) (xs : List ℕ) → qs c l ≡ x ∷ xs → ltb 0 (levels s c l).count ≡ true
  count_some l x xs e = rw ((i.queue c l).count, e) (ground arith)

  count_none : (l : ℕ) → qs c l ≡ [] → ltb 0 (levels s c l).count ≡ false
  count_none l e = rw ((i.queue c l).count, e) (ground arith)

  pick_from-first :
      (n l j x : ℕ) (xs : List ℕ)
      → l ≤ j
      → j < l + n
      → ((k : ℕ) → l ≤ k → k < j → qs c k ≡ [])
      → qs c j ≡ x ∷ xs
      → pick_from n l c s ≡ pop_on c j s
  unfolding pick_from
  pick_from-first zero l j x xs a b none e = absurd (outside a b)
  pick_from-first (suc n) l j x xs a b none e = elim (Bool-cases (l == j)) [
    | inl h ↦ rw (eq_of_test l j h, count_some j x xs e) refl
    | inr h ↦
        rw (count_none l (none l (omega arith) (later h)))
          (pick_from-first n (suc l) j x xs (later h) (omega arith) (λ k u. none k (omega arith)) e)
  ]
    where
      later : (l == j) ≡ false → l < j
      later h = ground (arith, ne_of_test l j)

  pick_from-empty :
      (n l : ℕ) → ((k : ℕ) → l ≤ k → k < l + n → qs c k ≡ []) → pick_from n l c s ≡ (0, s)
  unfolding pick_from
  pick_from-empty zero l none = refl
  pick_from-empty (suc n) l none =
      rw (count_none l (none l (omega arith) (omega arith)))
        (pick_from-empty n (suc l) (λ k u v. none k (omega arith) (omega arith)))

pub pick_next-pop :
    (c l x : ℕ) (xs : List ℕ) (s : Runqueues) (qs : Lists)
    → IsSched s qs
    → l < 8
    → ((k : ℕ) → k < l → qs c k ≡ [])
    → qs c l ≡ x ∷ xs
    → mlfq_pick_next c s ≡ pop_on c l s
unfolding mlfq_pick_next
pick_next-pop c l x xs s qs i k none e =
    pick_from-first c s qs i.queues 8 0 l x xs (omega arith) k (λ j u. none j) e

-- In sound run queues where a processor has a thread, the thread picked for it is the first of the
-- highest level with threads, and it leaves its queue; the other queues stay.
pub pick_next-first :
    (c l x : ℕ) (xs : List ℕ) (s : Runqueues) (qs : Lists)
    → IsSched s qs
    → l < 8
    → ((k : ℕ) → k < l → qs c k ≡ [])
    → qs c l ≡ x ∷ xs
    → ((mlfq_pick_next c s).0 ≡ x)
      × Queues (levels (mlfq_pick_next c s).1) (mlfq_pick_next c s).1.threads (set_list c l xs qs)
pick_next-first c l x xs s qs i k none e =
    rw (pick_next-pop c l x xs s qs i k none e)
      (pop_on-thread c l s qs i.queues x xs e, pop_on-Queues c l s qs i.queues x xs e)

-- NULL is picked if all levels are empty, and then nothing changes.
pub pick_next-empty :
    (c : ℕ) (s : Runqueues) (qs : Lists)
    → IsSched s qs
    → ((k : ℕ) → k < 8 → qs c k ≡ [])
    → mlfq_pick_next c s ≡ (0, s)
unfolding mlfq_pick_next
pick_next-empty c s qs i none = pick_from-empty c s qs i.queues 8 0 (λ k u. none k)
