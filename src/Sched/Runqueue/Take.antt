-- ===== src/Sched/Runqueue/Take.antt =====
-- What taking the first thread of a queue does.
use lapis.Base.{
  Bool-cases, inl, inr, if_same, ℕ, ◌≡◌, refl, sym, ap, ◌∙◌, true, ◌==◌, List, [], ◌∷◌,
  if◌then◌else◌, has, first_of, subst,
}
use lapis.Dll.{has-there}
use lapis.Sched.Thread.Fields.{links}
use lapis.Sched.Mlfq.{Mlfq, mlfq_pop, take_head}
use lapis.Sched.Mlfq.Queue.{IsQueue, pop_none, pop_some}
use lapis.Sched.Mlfq.Fifo.{take-IsQueue}
use lapis.Sched.Mlfq.Touch.{take-Touched}
use lapis.Sched.Runqueue.{Runqueues, pop_on}
use lapis.Sched.Runqueue.Fields.{rqs}
use lapis.Sched.Runqueue.Inv.{Lists, is_at, set_list, Queues, Queues-set, elsewhere, not_elsewhere}

abbrev pub levels : Runqueues → ℕ → ℕ → Mlfq
levels s c l = (s.rqs c).levels l

module _ (c l : ℕ) (s : Runqueues) where
  pub nr_running-pop : (d : ℕ) → ((pop_on c l s).1.rqs d).nr_running ≡ (s.rqs d).nr_running
  unfolding pop_on
  nr_running-pop d = simp rqs

  pub nr_cpus-pop : (pop_on c l s).1.nr_cpus ≡ s.nr_cpus
  unfolding pop_on
  nr_cpus-pop = simp rqs

  threads-pop : (pop_on c l s).1.threads ≡ (mlfq_pop (levels s c l) s.threads).1.1
  unfolding pop_on
  threads-pop = simp rqs

  pub state-pop : (b : ℕ) → ((pop_on c l s).1.threads b).state ≡ (s.threads b).state
  unfolding mlfq_pop take_head
  state-pop b = rw threads-pop (elim (Bool-cases ((levels s c l).head == 0)) [
    | inl e ↦ rw e refl
    | inr e ↦ rw e (simp (links, if_same))
  ])

  level-pop :
      (d k : ℕ)
      → levels (pop_on c l s).1 d k
        ≡ (if is_at c l d k then (mlfq_pop (levels s c l) s.threads).1.0 else levels s d k)
  unfolding pop_on
  level-pop d k = simp rqs

  thread-pop : (pop_on c l s).0 ≡ (mlfq_pop (levels s c l) s.threads).0
  unfolding pop_on
  thread-pop = refl

  module _ (qs : Lists) (i : Queues (levels s) s.threads qs) where
    -- Popping an empty queue gives NULL.
    pub pop_on_none : qs c l ≡ [] → (pop_on c l s).0 ≡ 0
    pop_on_none e =
        thread-pop
        ∙ ap (λ r. r.0) (pop_none (levels s c l) s.threads ((i.queue c l).head ∙ ap first_of e))

    module _ (x : ℕ) (xs : List ℕ) (e : qs c l ≡ x ∷ xs) where
      full : IsQueue (levels s c l) s.threads (x ∷ xs)
      full = subst (λ ys. IsQueue (levels s c l) s.threads ys) e (i.queue c l)

      popped :
          mlfq_pop (levels s c l) s.threads
          ≡ ((levels s c l).head, take_head (levels s c l) s.threads)
      popped = pop_some (levels s c l) s.threads (λ z. full.distinct.0 (sym full.head ∙ z))

      -- Popping a queue gives its first thread, and leaves the others and the other queues.
      pub pop_on-thread : (pop_on c l s).0 ≡ x
      pop_on-thread = thread-pop ∙ ap (λ r. r.0) popped ∙ full.head

      pub pop_on-Queues :
          Queues (levels (pop_on c l s).1) (pop_on c l s).1.threads (set_list c l xs qs)
      pop_on-Queues =
          let all : (b : ℕ) → has b xs ≡ true → has b (qs c l) ≡ true =
            λ b h. rw e (has-there b x xs h) in
          rw (threads-pop, ap (λ r. r.1.1) popped)
            (Queues-set c l (take_head (levels s c l) s.threads).0 (qs c l) xs i
              (rw e (take-Touched full)) (λ d k b. elsewhere i c l d k b) (take-IsQueue full)
              (λ b h. i.level c l b (all b h)) (λ b h. i.owner c l b (all b h))
              (λ d k b w h. not_elsewhere i c l d k b w (all b h))
              (λ d k.
                level-pop d k ∙ ap (λ r. if is_at c l d k then r.1.0 else levels s d k) popped))
