-- ===== src/Sched/Dispatch/Round.antt =====
-- `schedule` for a thread that still runs: it goes to the end of the queue of its level.
use lapis.Base.{
  ℕ, suc, ◌<◌, ◌≡◌, refl, ◌≢◌, ap, ◌∙◌, subst, Bool, true, false, List, [], ◌∷◌, ◌++◌, arith,
  if◌then◌else◌, has, mod32, pos, test_self, test_ne, some,
}
use lapis.Sched.Thread.{ready, running}
use lapis.Sched.Runqueue.{Runqueues, push_on, sched_set_priority}
use lapis.Sched.Runqueue.Fields.{rqs}
use lapis.Sched.Runqueue.Inv.{Lists, set_list, total, IsSched}
use lapis.Sched.Runqueue.Take.{state-pop}
use lapis.Sched.Dispatch.{System, requeue, next_thread, do_switch, schedule, is_running}
use lapis.Sched.Dispatch.Requeue.{requeue-IsSched, state-requeue}
use lapis.Sched.Dispatch.Next.{
  NotDue, schedule_to, current-switch, state-switch, do_switch-IsSched, counted-IsSched, counted,
  next_thread-first,
}

-- The lists once the thread `t` is last at the level `p` of the processor `c`.
abbrev pub requeued : (c p t : ℕ) → Lists → Lists
requeued c p t qs = set_list c p (qs c p ++ (t ∷ [])) qs

last_boost-requeue :
    (c t : ℕ) (s : Runqueues)
    → is_running (s.threads t).state ≡ true
    → ((requeue c t s).rqs c).last_boost_ns ≡ (s.rqs c).last_boost_ns
unfolding requeue push_on sched_set_priority
last_boost-requeue c t s r = simp (rqs, r)

NotDue-requeue :
    (now c t : ℕ) (s : Runqueues)
    → is_running (s.threads t).state ≡ true
    → NotDue now c s
    → NotDue now c (requeue c t s)
NotDue-requeue now c t s r w = record {
  started = rw (last_boost-requeue c t s r) w.started;
  early = rw (last_boost-requeue c t s r) w.early;
}

-- When a processor calls `schedule`: its current thread is in no queue, and is on it.
pub record Runs (now me p t : ℕ) (s : System) (qs : Lists) : Type 0 where
  pub sched : IsSched s.runqueues qs
  pub early : NotDue now me s.runqueues
  pub no_zombie : (s.cpus me).zombie_to_reap ≡ 0
  pub current : (s.cpus me).current_thread ≡ t
  pub thread : t ≢ 0
  pub run : is_running (s.runqueues.threads t).state ≡ true
  pub level : (s.runqueues.threads t).priority_level ≡ p
  pub bound : p < 8
  pub cpu : (s.runqueues.threads t).last_cpu ≡ pos me
  pub alone : (d k : ℕ) → has t (qs d k) ≡ false
  pub room : suc (total 8 (qs me)) < mod32

module _ (now me p t : ℕ) (s : System) (qs : Lists) (i : Runs now me p t s qs) where
  IsSched-requeued : IsSched (requeue me t s.runqueues) (requeued me p t qs)
  IsSched-requeued =
      subst (λ l. IsSched (requeue me t s.runqueues) (requeued me l t qs)) i.level
        (requeue-IsSched me t s.runqueues i.run (rw i.level i.bound) qs i.sched i.thread i.cpu
          i.alone i.room)

  next-requeued :
      (l x : ℕ) (xs : List ℕ)
      → l < 8
      → ((j : ℕ) → j < l → requeued me p t qs me j ≡ [])
      → requeued me p t qs me l ≡ x ∷ xs
      → next_thread now me (requeue me (s.cpus me).current_thread s.runqueues)
        ≡ some (x, counted me l (requeue me t s.runqueues))
  next-requeued l x xs k above e = rw i.current (
      next_thread-first now me l x xs (requeue me t s.runqueues) (requeued me p t qs)
        IsSched-requeued (NotDue-requeue now me t s.runqueues i.run i.early) k above e)

  abbrev after : (l : ℕ) → System
  after l = record s { runqueues = counted me l (requeue me t s.runqueues) }

  -- A processor calls `schedule` with a running current thread that is on it and in no queue, in
  -- sound run queues whose counter has room, while no boost is due and no zombie waits: the thread
  -- is queued last at its level, and if the first thread of the highest level with threads is then
  -- another one, that becomes the current one and RUNNING, and leaves its queue; the run queues
  -- stay sound.
  pub schedule-preempts :
      (tsc l x : ℕ) (xs : List ℕ)
      → x ≢ t
      → l < 8
      → ((j : ℕ) → j < l → requeued me p t qs me j ≡ [])
      → requeued me p t qs me l ≡ x ∷ xs
      → (s' : System) × (schedule now tsc me s ≡ some s')
        × ((s'.cpus me).current_thread ≡ x)
        × ((s'.runqueues.threads x).state ≡ running)
        × IsSched s'.runqueues (set_list me l xs (requeued me p t qs))
  schedule-preempts tsc l x xs ne k above e = (
    do_switch tsc me x (after l),
    schedule_to now tsc me x s (counted me l (requeue me t s.runqueues)) i.no_zombie
          (next-requeued l x xs k above e)
        ∙ ap some (switched (rw i.current (test_ne x t ne))),
    current-switch tsc me x (after l),
    state-switch tsc me x (after l),
    do_switch-IsSched tsc me x (after l) (set_list me l xs (requeued me p t qs)) (
        counted-IsSched now me l x xs (requeue me t s.runqueues) (requeued me p t qs)
          IsSched-requeued (NotDue-requeue now me t s.runqueues i.run i.early) k above e),
  )
    where
      switched :
          {c : Bool}
          → c ≡ false
          → (if c then after l else do_switch tsc me x (after l)) ≡ do_switch tsc me x (after l)
      switched e = rw e refl

  -- In the same situation, if the levels up to that of the thread are empty, the thread stays the
  -- current one, but it is READY afterwards, and in no queue; the run queues stay sound.
  pub schedule-alone :
      (tsc : ℕ)
      → ((j : ℕ) → j < p → qs me j ≡ [])
      → qs me p ≡ []
      → (s' : System) × (schedule now tsc me s ≡ some s')
        × ((s'.cpus me).current_thread ≡ t)
        × ((s'.runqueues.threads t).state ≡ ready)
        × IsSched s'.runqueues (set_list me p [] (requeued me p t qs))
  schedule-alone tsc above e =
      let front : requeued me p t qs me p ≡ t ∷ [] = rw (test_self me, test_self p, e) refl in
      let before : (j : ℕ) → j < p → requeued me p t qs me j ≡ [] =
        λ j k. rw (test_self me, test_ne j p (below k)) (above j k) in
      (
        after p,
        schedule_to now tsc me t s (counted me p (requeue me t s.runqueues)) i.no_zombie
              (next-requeued p t [] i.bound before front)
            ∙ ap some (stayed (rw i.current (test_self t))),
        i.current,
        kept,
        counted-IsSched now me p t [] (requeue me t s.runqueues) (requeued me p t qs)
            IsSched-requeued (NotDue-requeue now me t s.runqueues i.run i.early) i.bound before
            front,
      )
    where
      below : {a b : ℕ} → a < b → a ≢ b
      below k = omega arith

      stayed :
          {c : Bool} → c ≡ true → (if c then after p else do_switch tsc me t (after p)) ≡ after p
      stayed e = rw e refl

      kept : ((after p).runqueues.threads t).state ≡ ready
      kept =
          simp (rqs, state-pop me p (requeue me t s.runqueues))
            (state-requeue me t s.runqueues i.run (rw i.level i.bound))
