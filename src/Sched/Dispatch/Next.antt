-- ===== src/Sched/Dispatch/Next.antt =====
-- `schedule`: which thread runs next, and what becomes of the one before it.
use lapis.Base.{
  Distinct, ◌>>=◌, ℕ, ◌<◌, ◌≡◌, refl, ◌≢◌, ap, ◌∙◌, subst, Bool, true, false, ◌==◌, List, [], ◌∷◌,
  arith, if◌then◌else◌, length, sub32, test_self, test_ne, ltb, sub64, some, put,
}
use lapis.Sched.Thread.{running}
use lapis.Sched.Runqueue.{
  Runqueues, pop_on, maybe_boost, priority_boost_interval_ns, set_nr_running, set_needs_resched,
  on_rq,
}
use lapis.Sched.Runqueue.Fields.{rqs}
use lapis.Sched.Runqueue.Inv.{Lists, set_list, Queues-frame, IsSched}
use lapis.Sched.Runqueue.Count.{count-shorter, small-shorter}
use lapis.Sched.Runqueue.Take.{pop_on-thread, pop_on-Queues, nr_running-pop}
use lapis.Sched.Runqueue.Pick.{pick_next-pop}
use lapis.Sched.Dispatch.{
  System, requeue, next_thread, do_switch, schedule, is_running, reap_pending_zombie,
}
use lapis.Sched.Dispatch.Requeue.{requeue_other}

-- No boost is due: the clock of the boosts runs, and less than its interval has passed.
pub record NotDue (now c : ℕ) (s : Runqueues) : Type 0 where
  pub started : (s.rqs c).last_boost_ns ≢ 0
  pub early : ltb (sub64 now (s.rqs c).last_boost_ns) priority_boost_interval_ns ≡ true

boost_early : (now c : ℕ) (s : Runqueues) → NotDue now c s → maybe_boost now c s ≡ some s
unfolding maybe_boost
boost_early now c s w = rw (test_ne (s.rqs c).last_boost_ns 0 w.started, w.early) refl

-- What `next_thread` leaves after it took the thread `x` from the level `l`.
abbrev pub counted : (c l : ℕ) → Runqueues → Runqueues
counted c l s =
    let r = set_needs_resched c false (pop_on c l s).1 in
    set_nr_running c (sub32 (r.rqs c).nr_running 1) r

module _ (now c l x : ℕ) (xs : List ℕ) (s : Runqueues) (qs : Lists) (i : IsSched s qs)
    (w : NotDue now c s) (k : l < 8) (above : (j : ℕ) → j < l → qs c j ≡ [])
    (e : qs c l ≡ x ∷ xs) where
  x_ne : x ≢ 0
  x_ne = (subst (λ ys. Distinct ys) e (i.queues.queue c l).distinct).0

  pub next_thread-first : next_thread now c s ≡ some (x, counted c l s)
  unfolding next_thread
  next_thread-first =
      rw
        (
          boost_early now c s w,
          pick_next-pop c l x xs s qs i k above e,
          pop_on-thread c l s qs i.queues x xs e,
          test_ne x 0 x_ne,
          test_ne x 0 x_ne,
        )
        refl

  pub counted-IsSched : IsSched (counted c l s) (set_list c l xs qs)
  counted-IsSched = record {
    queues =
        Queues-frame (λ d j. simp rqs) (λ d j b h. (simp rqs, simp rqs, simp rqs, simp rqs))
          (pop_on-Queues c l s qs i.queues x xs e);
    count =
        count-shorter c l xs qs k (ap length e) (λ d. (s.rqs d).nr_running) _
          (λ d. simp (rqs, nr_running-pop c l s)) i.count (i.small c);
    small = small-shorter c l xs qs k (ap length e) i.small;
  }

-- Starting a thread leaves the queues as they are.
pub do_switch-IsSched :
    (tsc me next : ℕ) (s : System) (qs : Lists)
    → IsSched s.runqueues qs
    → IsSched (do_switch tsc me next s).runqueues qs
unfolding do_switch on_rq put
do_switch-IsSched tsc me next s qs i = record {
  queues =
      Queues-frame (λ d k. ground arith)
        (λ d k b h. (ground arith, ground arith, ground arith, ground arith)) i.queues;
  count = λ d. ground (arith, i.count d);
  small = i.small;
}

-- What `schedule` does when the run queues `r`, with the thread before it queued again, give `x`.
pub schedule_to :
    (now tsc me x : ℕ) (s : System) (r : Runqueues)
    → (s.cpus me).zombie_to_reap ≡ 0
    → next_thread now me (requeue me (s.cpus me).current_thread s.runqueues) ≡ some (x, r)
    → schedule now tsc me s
      ≡ some (
          if x == (s.cpus me).current_thread
          then record s { runqueues = r }
          else do_switch tsc me x (record s { runqueues = r }))
unfolding schedule reap_pending_zombie
schedule_to now tsc me x s r z e = rw (z) (
    ap
      (λ o. o >>= λ q. some (
        if q.0 == (s.cpus me).current_thread
        then record s { runqueues = q.1 }
        else do_switch tsc me q.0 (record s { runqueues = q.1 })))
      e)

pub current-switch :
    (tsc me next : ℕ) (s : System) → ((do_switch tsc me next s).cpus me).current_thread ≡ next
unfolding do_switch put
current-switch tsc me next s = rw (test_self me) refl

pub state-switch :
    (tsc me next : ℕ) (s : System)
    → ((do_switch tsc me next s).runqueues.threads next).state ≡ running
unfolding do_switch put on_rq
state-switch tsc me next s = rw (test_self next) refl

-- In sound run queues, while no boost is due and no zombie waits, a `schedule` whose current thread
-- no longer runs makes the first thread of the highest level with threads, if that is another one,
-- the current one and RUNNING; it leaves its queue, and the run queues stay sound.
pub schedule-first :
    (now tsc me l x : ℕ) (xs : List ℕ) (s : System) (qs : Lists)
    → IsSched s.runqueues qs
    → NotDue now me s.runqueues
    → (s.cpus me).zombie_to_reap ≡ 0
    → is_running (s.runqueues.threads (s.cpus me).current_thread).state ≡ false
    → x ≢ (s.cpus me).current_thread
    → l < 8
    → ((j : ℕ) → j < l → qs me j ≡ [])
    → qs me l ≡ x ∷ xs
    → (s' : System) × (schedule now tsc me s ≡ some s')
      × ((s'.cpus me).current_thread ≡ x)
      × ((s'.runqueues.threads x).state ≡ running)
      × IsSched s'.runqueues (set_list me l xs qs)
schedule-first now tsc me l x xs s qs i w z stopped apart k above e =
    let r = counted me l s.runqueues in
    let p = (s.cpus me).current_thread in
    (
      do_switch tsc me x s1,
      schedule_to now tsc me x s r z (
            ap (next_thread now me) (requeue_other me p s.runqueues stopped)
            ∙ next_thread-first now me l x xs s.runqueues qs i w k above e)
          ∙ ap some (switched (test_ne x p apart)),
      current-switch tsc me x s1,
      state-switch tsc me x s1,
      do_switch-IsSched tsc me x s1 (set_list me l xs qs)
          (counted-IsSched now me l x xs s.runqueues qs i w k above e),
    )
  where
    s1 : System
    s1 = record s { runqueues = counted me l s.runqueues }

    switched :
        {c : Bool} → c ≡ false → (if c then s1 else do_switch tsc me x s1) ≡ do_switch tsc me x s1
    switched e = rw e refl
