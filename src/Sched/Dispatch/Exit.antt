-- ===== src/Sched/Dispatch/Exit.antt =====
-- A thread ends: `sched_exit_current` marks it, and the next `schedule` frees it.
use lapis.Base.{
  Option-cases, inl, inr, ◌>>=◌, ℕ, ◌<◌, ◌≡◌, refl, ◌≢◌, sym, ap, ◌∙◌, Bool, true, false, ◌==◌,
  List, [], ◌∷◌, if◌then◌else◌, test_self, test_ne, Option, some, none, put,
}
use lapis.Sched.Thread.{Store, zombie, set_state}
use lapis.Sched.Thread.Fields.{links}
use lapis.Sched.Runqueue.{Runqueues, set_threads}
use lapis.Sched.Runqueue.Inv.{Lists, set_list, Queues-frame, IsSched}
use lapis.Sched.Dispatch.{
  System, schedule, reap_pending_zombie, sched_exit_current, is_running, do_switch, requeue,
  next_thread,
}
use lapis.Sched.Dispatch.Next.{NotDue, schedule-first}

freed_of : Option System → List ℕ → List ℕ
freed_of none d = d
freed_of (some s) d = s.freed

-- `schedule` frees the pending zombie, and no other thread.
schedule-freed :
    (now tsc me : ℕ) (s s' : System)
    → schedule now tsc me s ≡ some s'
    → s'.freed ≡ (reap_pending_zombie me s).freed
unfolding schedule do_switch freed_of
schedule-freed now tsc me s s' e = sym (ap (λ o. freed_of o d) e) ∙ (elim (Option-cases o) [
  | inl n ↦ rw n refl
  | inr (r, m) ↦
      rw m (same (r.0 == (reaped.cpus me).current_thread) r.0 (record reaped { runqueues = r.1 }))
])
  where
    reaped : System
    reaped = reap_pending_zombie me s

    d : List ℕ
    d = reaped.freed

    o : Option (ℕ × Runqueues)
    o = next_thread now me (requeue me (reaped.cpus me).current_thread reaped.runqueues)

    same :
        (b : Bool) (n : ℕ) (s1 : System)
        → (if b then s1 else do_switch tsc me n s1).freed ≡ s1.freed
    same true n s1 = refl
    same false n s1 = refl

-- The system once the thread `t` is marked, and once it is freed.
abbrev pub marked : (me t : ℕ) → System → System
marked me t s = record s {
  runqueues = set_threads (set_state t zombie s.runqueues.threads) s.runqueues;
  cpus = put s.cpus me (record (s.cpus me) { zombie_to_reap = t });
}

abbrev reaped : (me t : ℕ) → System → System
reaped me t s =
    let m = marked me t s in
    record m {
      cpus = put m.cpus me (record (m.cpus me) { zombie_to_reap = 0 });
      freed = t ∷ s.freed;
    }

reap-marked :
    (me t : ℕ) (s : System) → t ≢ 0 → reap_pending_zombie me (marked me t s) ≡ reaped me t s
unfolding reap_pending_zombie put
reap-marked me t s z = rw (test_self me, test_ne t 0 z) refl

reap-reaped : (me t : ℕ) (s : System) → reap_pending_zombie me (reaped me t s) ≡ reaped me t s
unfolding reap_pending_zombie put
reap-reaped me t s = rw (test_self me) refl

-- The pending zombie is freed once.
schedule-reaped :
    (now tsc me t : ℕ) (s : System)
    → t ≢ 0
    → schedule now tsc me (marked me t s) ≡ schedule now tsc me (reaped me t s)
unfolding schedule
schedule-reaped now tsc me t s z =
    ap
      (λ y. next_thread now me (requeue me (y.cpus me).current_thread y.runqueues) >>= λ r.
        let s' = record y { runqueues = r.1 } in
        some (if r.0 == (y.cpus me).current_thread then s' else do_switch tsc me r.0 s'))
      (reap-marked me t s z ∙ sym (reap-reaped me t s))

marked-IsSched :
    (t : ℕ) (s : System) (qs : Lists)
    → IsSched s.runqueues qs
    → IsSched (set_threads (set_state t zombie s.runqueues.threads) s.runqueues) qs
marked-IsSched t s qs i = record {
  queues =
      Queues-frame (λ d k. refl) (λ d k b h. (simp links, simp links, simp links, simp links))
        i.queues;
  count = i.count;
  small = i.small;
}

no_zombie : (me t : ℕ) (s : System) → ((reaped me t s).cpus me).zombie_to_reap ≡ 0
unfolding put
no_zombie me t s = rw (test_self me) refl

still_current :
    (me t : ℕ) (s : System)
    → (s.cpus me).current_thread ≡ t
    → ((reaped me t s).cpus me).current_thread ≡ t
unfolding put
still_current me t s e = rw (test_self me) e

stopped :
    (me t : ℕ) (s : System)
    → (s.cpus me).current_thread ≡ t
    → is_running ((reaped me t s).runqueues.threads ((reaped me t s).cpus me).current_thread).state
      ≡ false
stopped me t s e = rw (still_current me t s e) (zombie_stops t s.runqueues.threads)
  where
    zombie_stops : (t : ℕ) (st : Store) → is_running (set_state t zombie st t).state ≡ false
    zombie_stops t st = simp (links, test_self)

-- In sound run queues, while no boost is due, a current thread other than NULL that ends is freed
-- by the `schedule` that it calls itself, while it is still the current thread; then the first
-- thread of the highest level with threads, another one, runs, and the run queues stay sound.
pub exit-freed :
    (now tsc me t l x : ℕ) (xs : List ℕ) (s : System) (qs : Lists)
    → IsSched s.runqueues qs
    → NotDue now me s.runqueues
    → (s.cpus me).current_thread ≡ t
    → t ≢ 0
    → x ≢ t
    → l < 8
    → ((j : ℕ) → j < l → qs me j ≡ [])
    → qs me l ≡ x ∷ xs
    → ((reap_pending_zombie me (marked me t s)).freed ≡ t ∷ s.freed)
      × (((reap_pending_zombie me (marked me t s)).cpus me).current_thread ≡ t)
      × ((s' : System) × (sched_exit_current now tsc me t s ≡ some s')
          × (s'.freed ≡ t ∷ s.freed)
          × ((s'.cpus me).current_thread ≡ x)
          × IsSched s'.runqueues (set_list me l xs qs))
unfolding sched_exit_current
exit-freed now tsc me t l x xs s qs i w cur z apart k above e =
    let r = reaped me t s in
    let next =
      schedule-first now tsc me l x xs r qs (marked-IsSched t s qs i)
        (record { started = w.started; early = w.early }) (no_zombie me t s) (stopped me t s cur)
        (λ q. apart (q ∙ still_current me t s cur)) k above e in
    (
      rw (reap-marked me t s z) refl,
      rw (reap-marked me t s z) (still_current me t s cur),
      (
        next.0,
        schedule-reaped now tsc me t s z ∙ next.1,
        schedule-freed now tsc me r next.0 next.1 ∙ ap (λ y. y.freed) (reap-reaped me t s),
        next.2,
        next.4,
      ),
    )
