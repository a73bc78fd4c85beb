-- ===== src/Sched/Runqueue.antt =====
-- kernel/src/sched/sched.c: the run queues of the processors, and what is queued on them and taken
-- from them. Each function runs under the lock of the run queue it changes.
pub mod Fields
pub mod Inv
pub mod Count
pub mod Enqueue
pub mod Dequeue
pub mod Take
pub mod Pick
pub mod Steal
use lapis.Base.{
  ◌>>=◌, ℕ, zero, suc, ◌-◌, ◌*◌, Bool, true, false, Option, some, none, ◌&&◌, ◌==◌, if◌then◌else◌,
  ltb, leb, add32, sub32, sub64, ℤ, pos, negsuc,
}
use lapis.Sched.Thread.{Thread, ThreadState, ready, Store, set_state, set_last_cpu, set_level}
use lapis.Sched.Mlfq.{Mlfq, mlfq_push, mlfq_pop, mlfq_remove}

-- `runqueue_t` without its lock; `levels` is an array of 8 queues.
pub record Runqueue : Type 0 where
  pub levels : ℕ → Mlfq
  pub nr_running : ℕ
  pub idle : ℕ
  pub current : ℕ
  pub last_boost_ns : ℕ
  pub needs_resched : Bool

-- The array `runqueues`, by processor, with `nr_cpus` and the threads.
pub record Runqueues : Type 0 where
  pub threads : Store
  pub rqs : ℕ → Runqueue
  pub nr_cpus : ℕ

unfoldable pub on_rq : ℕ → (Runqueue → Runqueue) → Runqueues → Runqueues
on_rq c f s = record s { rqs = λ d. if d == c then f (s.rqs c) else s.rqs d }

abbrev pub set_threads : Store → Runqueues → Runqueues
set_threads st s = record s { threads = st }

unfoldable pub set_queue : (c lvl : ℕ) → Mlfq → Runqueues → Runqueues
set_queue c lvl q s = on_rq c (λ r. record r { levels = λ l. if l == lvl then q else r.levels l }) s

unfoldable pub set_nr_running : ℕ → ℕ → Runqueues → Runqueues
set_nr_running c n s = on_rq c (λ r. record r { nr_running = n }) s

unfoldable pub set_last_boost : ℕ → ℕ → Runqueues → Runqueues
set_last_boost c n s = on_rq c (λ r. record r { last_boost_ns = n }) s

unfoldable pub set_needs_resched : ℕ → Bool → Runqueues → Runqueues
set_needs_resched c b s = on_rq c (λ r. record r { needs_resched = b }) s

-- A function of a queue and the threads, on the queue of a level of a processor.
unfoldable pub push_on : (c lvl t : ℕ) → Runqueues → Runqueues
push_on c lvl t s =
    let r = mlfq_push t ((s.rqs c).levels lvl) s.threads in set_queue c lvl r.0 (set_threads r.1 s)

unfoldable pub pop_on : (c lvl : ℕ) → Runqueues → ℕ × Runqueues
pop_on c lvl s =
    let r = mlfq_pop ((s.rqs c).levels lvl) s.threads in
    (r.0, set_queue c lvl r.1.0 (set_threads r.1.1 s))

unfoldable pub remove_on : (c lvl t : ℕ) → Runqueues → Runqueues
remove_on c lvl t s =
    let r = mlfq_remove t ((s.rqs c).levels lvl) s.threads in
    set_queue c lvl r.0 (set_threads r.1 s)

-- The index of the run queue of a processor, or NULL.
unfoldable pub sched_rq_for_cpu : ℤ → ℕ → Option ℕ
sched_rq_for_cpu (pos c) nr = if ltb c nr then some c else none
sched_rq_for_cpu (negsuc n) nr = none

unfoldable pub clamp : ℤ → ℕ
clamp (negsuc n) = 0
clamp (pos level) = if leb 8 level then 7 else level

unfoldable pub sched_set_priority : ℕ → ℤ → Runqueues → Runqueues
sched_set_priority t level s = set_threads (set_level t (clamp level) 0 s.threads) s

-- The processor that a thread asks for, run on the processor `me`.
unfoldable pub wanted_cpu : Thread → ℕ → ℤ
wanted_cpu th me = first_set th.pinned_cpu (first_set th.last_cpu (pos me))
  where
    first_set : ℤ → ℤ → ℤ
    first_set (pos c) d = pos c
    first_set (negsuc n) d = d

-- The run queue it gets: its own choice where there is such a processor, or that of `me`.
unfoldable pub chosen_cpu : ℕ → ℕ → Runqueues → ℕ
chosen_cpu t me s = elim (sched_rq_for_cpu (wanted_cpu (s.threads t) me) s.nr_cpus) [
  | none ↦ me
  | some c ↦ c
]

-- `sched_enqueue` with the run queue chosen.
unfoldable pub enqueue_on : (c t : ℕ) → Runqueues → Runqueues
enqueue_on c t s =
    let s1 = set_threads (set_last_cpu t c (set_state t ready s.threads)) s in
    let s2 = push_on c (s1.threads t).priority_level t s1 in
    set_nr_running c (add32 (s2.rqs c).nr_running 1) s2

unfoldable pub sched_enqueue : (me t : ℕ) → Runqueues → Runqueues
sched_enqueue me t s = enqueue_on (chosen_cpu t me s) t s

-- `sched_dequeue` with the run queue found.
unfoldable pub dequeue_on : (c t : ℕ) → Runqueues → Runqueues
dequeue_on c t s =
    let s1 = remove_on c (s.threads t).priority_level t s in
    let n = (s1.rqs c).nr_running in if ltb 0 n then set_nr_running c (sub32 n 1) s1 else s1

unfoldable pub sched_dequeue : ℕ → Runqueues → Runqueues
sched_dequeue t s = elim (sched_rq_for_cpu (s.threads t).last_cpu s.nr_cpus) [
  | none ↦ s
  | some c ↦ dequeue_on c t s
]

-- The loop of `mlfq_pick_next` over `n` levels from `lvl` on.
unfoldable pub pick_from : (n lvl c : ℕ) → Runqueues → ℕ × Runqueues
pick_from zero lvl c s = (0, s)
pick_from (suc n) lvl c s =
    let rest = pick_from n (suc lvl) c s in
    if ltb 0 ((s.rqs c).levels lvl).count then pop_on c lvl s else rest

unfoldable pub mlfq_pick_next : ℕ → Runqueues → ℕ × Runqueues
mlfq_pick_next c s = pick_from 8 0 c s

-- The loop of `steal_from`, over the levels below `n`, from the last one down.
unfoldable pub steal_below : (n victim : ℕ) → Runqueues → ℕ × Runqueues
steal_below zero victim s = (0, s)
steal_below (suc lvl) victim s =
    let rest = steal_below lvl victim s in
    let r = pop_on victim lvl s in
    if ltb 1 ((s.rqs victim).levels lvl).count
    then (r.0, set_nr_running victim (sub32 (r.1.rqs victim).nr_running 1) r.1)
    else rest

unfoldable pub steal_from : ℕ → Runqueues → ℕ × Runqueues
steal_from victim s = if (s.rqs victim).nr_running == 0 then (0, s) else steal_below 8 victim s

-- One processor of the loop of `try_steal`, and the loop over `n` processors from `i` on.
unfoldable pub try_victim : (me i : ℕ) → Runqueues → ℕ × Runqueues
try_victim me i s =
    if i == me
    then (0, s)
    else if leb (s.rqs i).nr_running 1
    then (0, s)
    else (let r = steal_from i s in
        if r.0 == 0 then r else (r.0, set_threads (set_last_cpu r.0 me r.1.threads) r.1))

unfoldable pub steal_loop : (n i me : ℕ) → Runqueues → ℕ × Runqueues
steal_loop zero i me s = (0, s)
steal_loop (suc n) i me s =
    let r = try_victim me i s in
    let rest = steal_loop n (suc i) me r.1 in if r.0 == 0 then rest else r

unfoldable pub try_steal : ℕ → Runqueues → ℕ × Runqueues
try_steal me s = steal_loop s.nr_cpus 0 me s

-- PRIORITY_BOOST_INTERVAL_NS
abbrev pub priority_boost_interval_ns : ℕ
priority_boost_interval_ns = 200 * 1000000

-- The inner loop of `maybe_boost`: every thread of the level moves to level 0. `none` when the fuel
-- runs out.
unfoldable pub boost_level : (fuel lvl c : ℕ) → Runqueues → Option Runqueues
boost_level zero lvl c s = none
boost_level (suc n) lvl c s =
    let r = pop_on c lvl s in
    let moved = push_on c 0 r.0 (set_threads (set_level r.0 0 0 r.1.threads) r.1) in
    let rest = boost_level n lvl c moved in if r.0 == 0 then some r.1 else rest

-- The outer loop, over `n` levels from `lvl` on; the fuel is one more than the count of the level.
unfoldable pub boost_levels : (n lvl c : ℕ) → Runqueues → Option Runqueues
boost_levels zero lvl c s = some s
boost_levels (suc n) lvl c s = do
  s1 ← boost_level (suc ((s.rqs c).levels lvl).count) lvl c s
  boost_levels n (suc lvl) c s1

unfoldable pub maybe_boost : (now c : ℕ) → Runqueues → Option Runqueues
maybe_boost now c s =
    let last = (s.rqs c).last_boost_ns in
    let marked = set_last_boost c now s in
    if last == 0
    then some marked
    else if ltb (sub64 now last) priority_boost_interval_ns
    then some s
    else boost_levels 7 1 c marked
