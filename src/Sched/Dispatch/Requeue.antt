-- ===== src/Sched/Dispatch/Requeue.antt =====
-- A thread that still runs when its processor looks for the next one goes back to its queue.
use lapis.Base.{
  ℕ, suc, ◌<◌, ◌≡◌, refl, ◌≢◌, true, false, ◌==◌, [], ◌∷◌, ◌++◌, arith, if◌then◌else◌, has, mod32,
  add32, pos, test_self, test_ne, inl, inr,
}
use lapis.Sched.Thread.{Store, ready, set_level, set_state}
use lapis.Sched.Thread.Fields.{links}
use lapis.Sched.Mlfq.{Mlfq, mlfq_push}
use lapis.Sched.Mlfq.Fifo.{push-IsQueue}
use lapis.Sched.Mlfq.Touch.{push-Touched}
use lapis.Sched.Runqueue.{Runqueues, push_on, sched_set_priority, clamp}
use lapis.Sched.Runqueue.Fields.{rqs}
use lapis.Sched.Runqueue.Inv.{
  Lists, is_at, set_list, total, Queues, Queues-set, Queues-frame, IsSched, elsewhere,
  not_elsewhere,
}
use lapis.Sched.Runqueue.Count.{count-append, small-append, length-total}
use lapis.Sched.Runqueue.Enqueue.{has_snoc, apart, neither, room}
use lapis.Sched.Dispatch.{requeue, is_running}

clamp_small : (n : ℕ) → n < 8 → clamp (pos n) ≡ n
unfolding clamp
clamp_small n k = ground arith

module _ (c t : ℕ) (s : Runqueues) (r : is_running (s.threads t).state ≡ true)
    (lt : (s.threads t).priority_level < 8) where
  abbrev reset : Store
  reset = set_level t (s.threads t).priority_level 0 s.threads

  abbrev pushed : Mlfq × Store
  pushed = mlfq_push t ((s.rqs c).levels (s.threads t).priority_level) reset

  threads-requeue : (requeue c t s).threads ≡ set_state t ready pushed.1
  unfolding requeue push_on sched_set_priority
  threads-requeue = simp (rqs, links, r, clamp_small (s.threads t).priority_level lt, test_self)

  level-requeue :
      (d k : ℕ)
      → ((requeue c t s).rqs d).levels k
        ≡ (if is_at c (s.threads t).priority_level d k then pushed.0 else (s.rqs d).levels k)
  unfolding requeue push_on sched_set_priority
  level-requeue d k = simp (rqs, links, r, clamp_small (s.threads t).priority_level lt, test_self)

  nr_running-requeue :
      (d : ℕ)
      → ((requeue c t s).rqs d).nr_running
        ≡ (if d == c then add32 (s.rqs c).nr_running 1 else (s.rqs d).nr_running)
  unfolding requeue push_on sched_set_priority
  nr_running-requeue d =
      simp (rqs, links, r, clamp_small (s.threads t).priority_level lt, test_self)

  pub state-requeue : ((requeue c t s).threads t).state ≡ ready
  state-requeue = rw threads-requeue (simp (links, test_self))

  Queues-reset :
      (qs : Lists)
      → Queues (λ d k. (s.rqs d).levels k) s.threads qs
      → ((d k : ℕ) → has t (qs d k) ≡ false)
      → Queues (λ d k. (s.rqs d).levels k) reset qs
  Queues-reset qs i out =
      Queues-frame (λ d k. refl)
        (λ d k b h.
          let e = test_ne b t (apart b t (qs d k) h (out d k)) in
          (simp (links), simp (links), simp (links, e), simp (links)))
        i

  requeue-Queues :
      (qs : Lists)
      → IsSched s qs
      → t ≢ 0
      → (s.threads t).last_cpu ≡ pos c
      → ((d k : ℕ) → has t (qs d k) ≡ false)
      → suc (total 8 (qs c)) < mod32
      → Queues
          (λ d k. ((requeue c t s).rqs d).levels k)
          pushed.1
          (set_list c
            (s.threads t).priority_level
            (qs c (s.threads t).priority_level ++ (t ∷ []))
            qs)
  requeue-Queues qs i z own out small =
      let l = (s.threads t).priority_level in
      let r = Queues-reset qs i.queues out in
      Queues-set c l pushed.0 (t ∷ qs c l) (qs c l ++ (t ∷ [])) r (push-Touched t (r.queue c l))
        (λ d k b e h.
          neither b t (qs c l) (apart b t (qs d k) h (out d k)) (elsewhere r c l d k b e h))
        (push-IsQueue t (r.queue c l) z (out c l) (room (length-total 8 l (qs c) lt) small))
        (λ b h. elim (has_snoc b t (qs c l) h) [
          | inl w ↦ r.level c l b w
          | inr w ↦ rw w (simp (links, test_self))
        ])
        (λ b h. elim (has_snoc b t (qs c l) h) [
          | inl w ↦ r.owner c l b w
          | inr w ↦ rw w (simp links own)
        ])
        (λ d k b e h. elim (has_snoc b t (qs c l) h) [
          | inl w ↦ not_elsewhere r c l d k b e w
          | inr w ↦ rw w (out d k)
        ])
        level-requeue

  -- A running thread of the processor that is in no queue becomes the last of its level, and is
  -- counted.
  pub requeue-IsSched :
      (qs : Lists)
      → IsSched s qs
      → t ≢ 0
      → (s.threads t).last_cpu ≡ pos c
      → ((d k : ℕ) → has t (qs d k) ≡ false)
      → suc (total 8 (qs c)) < mod32
      → IsSched (requeue c t s) (
          set_list c
            (s.threads t).priority_level
            (qs c (s.threads t).priority_level ++ (t ∷ []))
            qs)
  requeue-IsSched qs i z own out small = record {
    queues = rw threads-requeue (
        Queues-frame (λ d k. refl) (λ d k b h. (simp links, simp links, simp links, simp links))
          (requeue-Queues qs i z own out small));
    count =
        count-append c (s.threads t).priority_level t qs lt _ _ nr_running-requeue i.count small;
    small = small-append c (s.threads t).priority_level t qs lt i.small small;
  }

-- A thread that does not run is left where it is.
pub requeue_other :
    (c t : ℕ) (s : Runqueues) → is_running (s.threads t).state ≡ false → requeue c t s ≡ s
unfolding requeue
requeue_other c t s e = rw e refl
