-- ===== src/Sched/Dispatch/Life.antt =====
-- A thread blocks, wakes, uses up its time and ends.
use lapis.Base.{
  add64, Bool-cases, ℕ, zero, suc, ◌<◌, ◌≤◌, ◌≡◌, refl, ◌≢◌, Bool, true, false, ◌||◌, arith,
  if◌then◌else◌, test_self, test_ne, some, put, leb, ltb, inl, inr,
}
use lapis.Sched.Thread.{Thread, ready, blocked, set_state}
use lapis.Sched.Thread.Fields.{links}
use lapis.Sched.Runqueue.{Runqueues, sched_enqueue, set_threads}
use lapis.Sched.Dispatch.{
  System, sched_mark_blocked, sched_wake, tick_thread, sched_tick, delta_ns, quantum_ns,
}

-- A thread that was marked blocked is queued by a wake-up, with the state READY; a second wake-up
-- before it blocks again does nothing.
pub wake-blocked :
    (me t : ℕ) (s : Runqueues)
    → sched_wake me t (sched_mark_blocked t s)
      ≡ sched_enqueue me t (set_threads (set_state t ready (set_state t blocked s.threads)) s)
unfolding sched_wake sched_mark_blocked
wake-blocked me t s = simp (links, test_self)

tick_thread_lem :
    (delta quantum : ℕ) (th : Thread)
    → th.priority_level < 8
    → 0 < quantum
    → ((tick_thread delta quantum th).0.priority_level < 8)
      × (th.priority_level ≤ (tick_thread delta quantum th).0.priority_level)
      × ((tick_thread delta quantum th).0.time_in_level_ns < quantum)
      × ((tick_thread delta quantum th).1 ≡ leb quantum (add64 th.time_in_level_ns delta))
unfolding tick_thread
tick_thread_lem delta quantum th k q =
    elim (Bool-cases (leb quantum (add64 th.time_in_level_ns delta))) [
      | inl e ↦ rw e (deeper th.priority_level k, later th.priority_level, q, refl)
      | inr e ↦ rw e (k, ground arith, less (add64 th.time_in_level_ns delta) e, refl)
    ]
  where
    deeper : (l : ℕ) → l < 8 → (if ltb l 7 then suc l else l) < 8
    deeper l k = ground arith

    later : (l : ℕ) → l ≤ (if ltb l 7 then suc l else l)
    later l = ground arith

    less : (t : ℕ) → leb quantum t ≡ false → t < quantum
    less t e = ground arith

quantum-positive : (l : ℕ) → l < 8 → (q : ℕ) × (quantum_ns l ≡ some q) × (0 < q)
unfolding quantum_ns
quantum-positive zero k = (5000000, refl, omega arith)
quantum-positive (suc zero) k = (10000000, refl, omega arith)
quantum-positive (suc (suc zero)) k = (20000000, refl, omega arith)
quantum-positive (suc (suc (suc zero))) k = (40000000, refl, omega arith)
quantum-positive (suc (suc (suc (suc zero)))) k = (80000000, refl, omega arith)
quantum-positive (suc (suc (suc (suc (suc zero))))) k = (120000000, refl, omega arith)
quantum-positive (suc (suc (suc (suc (suc (suc zero)))))) k = (160000000, refl, omega arith)
quantum-positive (suc (suc (suc (suc (suc (suc (suc zero))))))) k = (200000000, refl, omega arith)
quantum-positive (suc (suc (suc (suc (suc (suc (suc (suc l)))))))) k = absurd (beyond k)
  where
    beyond : {n : ℕ} → suc (suc (suc (suc (suc (suc (suc (suc n))))))) < 8 → ⊥
    beyond k = omega arith

-- A tick on a processor whose current thread is not idle and has a level below 8 finds a quantum
-- for it. It leaves the thread with a level below 8 that is no smaller, and with less than that
-- quantum used; a thread that has used up the quantum is to be preempted.
pub sched_tick_lem :
    (freq now me : ℕ) (s : System)
    → (s.cpus me).current_thread ≢ (s.cpus me).idle_thread
    → (s.runqueues.threads (s.cpus me).current_thread).priority_level < 8
    → (s' : System) × (quantum : ℕ) × (sched_tick freq now me s ≡ some s')
      × (quantum_ns (s.runqueues.threads (s.cpus me).current_thread).priority_level ≡ some quantum)
      × ((s'.runqueues.threads (s.cpus me).current_thread).priority_level < 8)
      × ((s.runqueues.threads (s.cpus me).current_thread).priority_level
          ≤ (s'.runqueues.threads (s.cpus me).current_thread).priority_level)
      × ((s'.runqueues.threads (s.cpus me).current_thread).time_in_level_ns < quantum)
      × (leb quantum (
              add64
                (s.runqueues.threads (s.cpus me).current_thread).time_in_level_ns
                (delta_ns freq now (s.runqueues.threads (s.cpus me).current_thread).last_run_tsc))
            ≡ true
          → (s'.cpus me).need_resched ≡ true)
unfolding sched_tick put
sched_tick_lem freq now me s busy k =
    let q = quantum-positive th.priority_level k in
    let r = tick_thread_lem delta q.0 th k q.2 in
    (
      ticked q.0,
      q.0,
      rw (test_ne cur (s.cpus me).idle_thread busy, q.1) refl,
      q.1,
      rw (test_self cur) r.0,
      rw (test_self cur) r.1,
      rw (test_self cur) r.2,
      λ over. rw (test_self me, r.3, over) (or_true (s.cpus me).need_resched),
    )
  where
    cur : ℕ
    cur = (s.cpus me).current_thread

    th : Thread
    th = s.runqueues.threads cur

    delta : ℕ
    delta = delta_ns freq now th.last_run_tsc

    ticked : ℕ → System
    ticked quantum =
        let r = tick_thread delta quantum th in
        record s {
          runqueues = set_threads (put s.runqueues.threads cur r.0) s.runqueues;
          cpus =
              put s.cpus me (record (s.cpus me) { need_resched = (s.cpus me).need_resched || r.1 });
        }

    or_true : (b : Bool) → (b || true) ≡ true
    or_true b = ground arith
