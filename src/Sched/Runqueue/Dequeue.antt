-- ===== src/Sched/Runqueue/Dequeue.antt =====
-- What taking a queued thread out of its queue does.
use lapis.Base.{
  ◌≤◌, ℤ, ℕ, suc, ◌<◌, ◌≡◌, refl, ap, true, ◌==◌, arith, if◌then◌else◌, length, has, erase, sub32,
  pos, ltb, length-erase, has_of_erase, some, none,
}
use lapis.Sched.Thread.{Store}
use lapis.Sched.Mlfq.{Mlfq, mlfq_remove}
use lapis.Sched.Mlfq.Fifo.{remove-IsQueue}
use lapis.Sched.Mlfq.Touch.{remove-Touched}
use lapis.Sched.Runqueue.{Runqueues, dequeue_on, remove_on, sched_dequeue, sched_rq_for_cpu}
use lapis.Sched.Runqueue.Fields.{rqs}
use lapis.Sched.Runqueue.Inv.{Lists, is_at, set_list, Queues-set, IsSched, elsewhere, not_elsewhere}
use lapis.Sched.Runqueue.Count.{count-shorter, small-shorter, length-total}

positive : {n m k : ℕ} → n ≡ suc m → n ≤ k → ltb 0 k ≡ true
positive e l = ground arith

-- With the queue found, and a thread counted.
module _ (c l t : ℕ) (s : Runqueues) (e : (s.threads t).priority_level ≡ l)
    (k : ltb 0 (s.rqs c).nr_running ≡ true) where
  abbrev left : Mlfq × Store
  left = mlfq_remove t ((s.rqs c).levels l) s.threads

  threads-dequeue : (dequeue_on c t s).threads ≡ left.1
  unfolding dequeue_on remove_on
  threads-dequeue = simp (rqs, e, k)

  level-dequeue :
      (d j : ℕ)
      → ((dequeue_on c t s).rqs d).levels j ≡ (if is_at c l d j then left.0 else (s.rqs d).levels j)
  unfolding dequeue_on remove_on
  level-dequeue d j = simp (rqs, e, k)

  nr_running-dequeue :
      (d : ℕ)
      → ((dequeue_on c t s).rqs d).nr_running
        ≡ (if d == c then sub32 (s.rqs c).nr_running 1 else (s.rqs d).nr_running)
  unfolding dequeue_on remove_on
  nr_running-dequeue d = simp (rqs, e, k)

rq_found : (z : ℤ) (c nr : ℕ) → z ≡ pos c → c < nr → sched_rq_for_cpu z nr ≡ some c
unfolding sched_rq_for_cpu
rq_found z c nr e k = rw (e, ltb_true k) refl
  where
    ltb_true : c < nr → ltb c nr ≡ true
    ltb_true k = ground arith

dequeue_found :
    (t c : ℕ) (s : Runqueues)
    → (s.threads t).last_cpu ≡ pos c
    → c < s.nr_cpus
    → sched_dequeue t s ≡ dequeue_on c t s
unfolding sched_dequeue
dequeue_found t c s e k =
    ap (λ o. elim o [ none ↦ s | some d ↦ dequeue_on d t s ])
      (rq_found (s.threads t).last_cpu c s.nr_cpus e k)

-- Taking a thread out of sound run queues, where it is queued at a level of a processor that runs,
-- keeps them sound: the others of its queue keep their order, and the other queues stay.
pub sched_dequeue-IsSched :
    (c l t : ℕ) (s : Runqueues) (qs : Lists)
    → IsSched s qs
    → has t (qs c l) ≡ true
    → l < 8
    → c < s.nr_cpus
    → IsSched (sched_dequeue t s) (set_list c l (erase t (qs c l)) qs)
sched_dequeue-IsSched c l t s qs i h lt known =
    rw (dequeue_found t c s (i.queues.owner c l t h) known) (record {
      queues = rw (threads-dequeue c l t s e counted) (
          Queues-set c l (left c l t s e counted).0 (qs c l) (erase t (qs c l)) i.queues
            (remove-Touched t (i.queues.queue c l) h) (λ d k b. elsewhere i.queues c l d k b)
            (remove-IsQueue t (i.queues.queue c l) h)
            (λ b w. i.queues.level c l b (has_of_erase b t (qs c l) w))
            (λ b w. i.queues.owner c l b (has_of_erase b t (qs c l) w))
            (λ d k b x w. not_elsewhere i.queues c l d k b x (has_of_erase b t (qs c l) w))
            (level-dequeue c l t s e counted));
      count =
          count-shorter c l (erase t (qs c l)) qs lt fewer _ _
            (nr_running-dequeue c l t s e counted) i.count (i.small c);
      small = small-shorter c l (erase t (qs c l)) qs lt fewer i.small;
    })
  where
    e : (s.threads t).priority_level ≡ l
    e = i.queues.level c l t h

    fewer : length (qs c l) ≡ suc (length (erase t (qs c l)))
    fewer = length-erase t (qs c l) h

    counted : ltb 0 (s.rqs c).nr_running ≡ true
    counted = rw (i.count c) (positive fewer (length-total 8 l (qs c) lt))
