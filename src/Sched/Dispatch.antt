-- ===== src/Sched/Dispatch.antt =====
-- kernel/src/sched/sched.c: the choice of the thread that a processor runs, and the life of a thread
-- as the scheduler sees it.
pub mod Requeue
pub mod Next
pub mod Round
pub mod Life
pub mod Exit
use lapis.Base.{
  ◌>>=◌, ℕ, zero, suc, ◌+◌, ◌*◌, ◌/◌, ◌%◌, Bool, true, false, Option, some, none, List, [], ◌∷◌,
  ◌&&◌, ◌||◌, ◌==◌, if◌then◌else◌, not, ltb, leb, add32, sub32, add64, sub64, mod64, pos, put,
  get_elem?,
}
use lapis.Sched.Thread.{
  Thread, ThreadState, ready, running, blocked, sleeping, zombie, new, dead, Store, set_state,
  set_level,
}
use lapis.Sched.Runqueue.{
  Runqueues, Runqueue, on_rq, set_threads, set_nr_running, set_needs_resched, push_on,
  sched_set_priority, maybe_boost, mlfq_pick_next, try_steal, sched_enqueue,
}

-- What a processor keeps: the part of `cpu_t` that the scheduler reads and writes.
pub record Cpu : Type 0 where
  pub current_thread : ℕ
  pub idle_thread : ℕ
  pub need_resched : Bool
  pub zombie_to_reap : ℕ

-- The processors with the run queues; `freed` holds the threads given to
-- `thread_free_resources`, the last one first.
pub record System : Type 0 where
  pub runqueues : Runqueues
  pub cpus : ℕ → Cpu
  pub freed : List ℕ

abbrev pub is_running : ThreadState → Bool
is_running running = true
is_running new = false
is_running ready = false
is_running blocked = false
is_running sleeping = false
is_running zombie = false
is_running dead = false

abbrev pub can_wake : ThreadState → Bool
can_wake blocked = true
can_wake sleeping = true
can_wake new = false
can_wake ready = false
can_wake running = false
can_wake zombie = false
can_wake dead = false

unfoldable pub reap_pending_zombie : ℕ → System → System
reap_pending_zombie me s =
    let z = (s.cpus me).zombie_to_reap in
    if z == 0 then s else record s {
      cpus = put s.cpus me (record (s.cpus me) { zombie_to_reap = 0 });
      freed = z ∷ s.freed;
    }

-- The first part of `schedule`: a thread that still runs goes back to the queue of its level.
unfoldable pub requeue : (c prev : ℕ) → Runqueues → Runqueues
requeue c prev s =
    let s1 = sched_set_priority prev (pos (s.threads prev).priority_level) s in
    let s2 = push_on c (s1.threads prev).priority_level prev s1 in
    let s3 = set_threads (set_state prev ready s2.threads) s2 in
    let s4 = set_nr_running c (add32 (s3.rqs c).nr_running 1) s3 in
    if is_running (s.threads prev).state then s4 else s

-- The second part: the thread to run, with the run queues.
unfoldable pub next_thread : (now c : ℕ) → Runqueues → Option (ℕ × Runqueues)
next_thread now c s = do
  boosted ← maybe_boost now c s
  let own = mlfq_pick_next c boosted
  let asked = set_needs_resched c false own.1
  let r = if own.0 == 0 then try_steal c asked else (own.0, asked)
  let counted = set_nr_running c (sub32 (r.1.rqs c).nr_running 1) r.1
  if r.0 == 0 then some ((r.1.rqs c).idle, r.1) else some (r.0, counted)

-- `do_switch`, as far as the scheduler sees it; `tsc` is what `_rdtsc` reads.
unfoldable pub do_switch : (tsc me next : ℕ) → System → System
do_switch tsc me next s =
    let r = s.runqueues in
    let started =
      put r.threads next (record (r.threads next) { state = running; last_run_tsc = tsc }) in
    record s {
      cpus = put s.cpus me (record (s.cpus me) { current_thread = next });
      runqueues = on_rq me (λ q. record q { current = next }) (set_threads started r);
    }

-- `now` and `tsc` are what the clock and the time stamp counter read.
unfoldable pub schedule : (now tsc me : ℕ) → System → Option System
schedule now tsc me s0 =
    let s = reap_pending_zombie me s0 in
    let prev = (s.cpus me).current_thread in
    next_thread now me (requeue me prev s.runqueues) >>= λ r.
    let s' = record s { runqueues = r.1 } in
    some (if r.0 == prev then s' else do_switch tsc me r.0 s')

abbrev pub level_quantum_ms : List ℕ
level_quantum_ms = 5 ∷ (10 ∷ (20 ∷ (40 ∷ (80 ∷ (120 ∷ (160 ∷ (200 ∷ [])))))))

-- The quantum of a level in nanoseconds; `none` behind the end of the table.
unfoldable pub quantum_ns : ℕ → Option ℕ
quantum_ns level = elim (get_elem? level_quantum_ms level) [
  | none ↦ none
  | some ms ↦ some ((ms * 1000000) % mod64)
]

-- The time a thread has run since it was started, in nanoseconds.
unfoldable pub delta_ns : (freq now started : ℕ) → ℕ
delta_ns freq now started =
    (sub64 now started * 1000000000) % mod64 / (if freq == 0 then 1 else freq)

-- `sched_tick` for a thread that is not idle, by its quantum: the thread, and whether it is to be
-- preempted.
unfoldable pub tick_thread : (delta quantum : ℕ) → Thread → Thread × Bool
tick_thread delta quantum th =
    let spent = add64 th.time_in_level_ns delta in
    let total = add64 th.total_runtime_ns delta in
    let level = if ltb th.priority_level 7 then suc th.priority_level else th.priority_level in
    if leb quantum spent
    then (
      record th { time_in_level_ns = 0; total_runtime_ns = total; priority_level = level },
      true,
    )
    else (record th { time_in_level_ns = spent; total_runtime_ns = total }, false)

unfoldable pub sched_tick : (freq now me : ℕ) → System → Option System
sched_tick freq now me s =
    let cpu = s.cpus me in
    let cur = cpu.current_thread in
    let th = s.runqueues.threads cur in
    let delta = delta_ns freq now th.last_run_tsc in
    if cur == cpu.idle_thread
    then some (record s { cpus = put s.cpus me (record cpu { need_resched = true }) })
    else elim (quantum_ns th.priority_level) [
      | none ↦ none
      | some quantum ↦
          let r = tick_thread delta quantum th in
          some (record s {
            runqueues = set_threads (put s.runqueues.threads cur r.0) s.runqueues;
            cpus = put s.cpus me (record cpu { need_resched = cpu.need_resched || r.1 });
          })
    ]

unfoldable pub sched_mark_blocked : ℕ → Runqueues → Runqueues
sched_mark_blocked t s = set_threads (set_state t blocked s.threads) s

unfoldable pub sched_wake : (me t : ℕ) → Runqueues → Runqueues
sched_wake me t s =
    let woken = set_threads (set_state t ready s.threads) s in
    if can_wake (s.threads t).state then sched_enqueue me t woken else s

-- `sched_exit_current` without the exit code, until the processor runs another thread.
unfoldable pub sched_exit_current : (now tsc me self : ℕ) → System → Option System
sched_exit_current now tsc me self s =
    let r = s.runqueues in
    schedule now tsc me (record s {
      runqueues = set_threads (set_state self zombie r.threads) r;
      cpus = put s.cpus me (record (s.cpus me) { zombie_to_reap = self });
    })
