-- ===== src/Sched/Tests.antt =====
-- The scheduler on two processors with three threads.
use lapis.Base.{
  ℕ, suc, ◌≤◌, ◌<◌, ◌≡◌, refl, subst, put, leb, add64, true, false, some, [], ◌∷◌, ◌++◌, arith,
  ◌==◌, if◌then◌else◌, has, length, mod32, pos, negsuc,
}
use lapis.Sched.Thread.{
  Thread, Store, ready, running, blocked, set_rq_next, set_rq_prev, set_state, set_last_cpu,
}
use lapis.Sched.Mlfq.{Mlfq, mlfq_push}
use lapis.Sched.Mlfq.Queue.{IsQueue}
use lapis.Sched.Mlfq.Fifo.{push-IsQueue}
use lapis.Sched.Runqueue.{
  Runqueue, Runqueues, enqueue_on, sched_enqueue, mlfq_pick_next, push_on, set_queue,
  set_nr_running, on_rq, set_threads,
}
use lapis.Sched.Runqueue.Inv.{Lists, total, Queues, IsSched, set_list}
use lapis.Sched.Runqueue.Enqueue.{enqueue_on-IsSched, sched_enqueue-IsSched}
use lapis.Sched.Runqueue.Take.{levels}
use lapis.Sched.Runqueue.Pick.{pick_next-first}
use lapis.Sched.Dispatch.{
  System, schedule, is_running, sched_tick, quantum_ns, delta_ns, sched_wake, sched_mark_blocked,
  sched_exit_current, reap_pending_zombie,
}
use lapis.Sched.Dispatch.Next.{NotDue, schedule-first}
use lapis.Sched.Dispatch.Round.{Runs, requeued, schedule-preempts, schedule-alone}
use lapis.Sched.Dispatch.Life.{sched_tick_lem, wake-blocked}
use lapis.Sched.Dispatch.Exit.{marked, exit-freed}

abbrev no_thread : Thread
no_thread = record {
  state = running;
  priority_level = 2;
  time_in_level_ns = 0;
  last_run_tsc = 0;
  total_runtime_ns = 0;
  last_cpu = pos 0;
  pinned_cpu = negsuc 0;
  rq_next = 0;
  rq_prev = 0;
  blocked_on = 0;
  wait_next = 0;
  wait_prev = 0;
  woken = false;
}

abbrev empty_queue : Mlfq
empty_queue = record { head = 0; tail = 0; count = 0 }

abbrev threads : Store
threads = λ a. if a == 90 then record no_thread { state = blocked } else no_thread

empty-IsQueue : (st : Store) → IsQueue empty_queue st []
empty-IsQueue st = record {
  distinct = tt;
  head = refl;
  tail = refl;
  links = tt;
  count = refl;
  small = omega arith;
}

abbrev q1 : Mlfq × Store
q1 = mlfq_push 10 empty_queue threads

q1-IsQueue : IsQueue q1.0 q1.1 (10 ∷ [])
q1-IsQueue = push-IsQueue 10 (empty-IsQueue threads) (omega arith) refl (omega arith)

abbrev q2 : Mlfq × Store
q2 = mlfq_push 20 q1.0 q1.1

q2-IsQueue : IsQueue q2.0 q2.1 (10 ∷ (20 ∷ []))
q2-IsQueue = push-IsQueue 20 q1-IsQueue (omega arith) refl (omega arith)

abbrev empty_rq : Runqueue
empty_rq = record {
  levels = λ l. empty_queue;
  nr_running = 0;
  idle = 90;
  current = 90;
  last_boost_ns = 1000;
  needs_resched = false;
}

abbrev boot : Runqueues
boot = record { threads = threads; rqs = λ c. empty_rq; nr_cpus = 2 }

abbrev none_queued : Lists
none_queued = λ c l. []

total_none : total 8 (λ l. []) ≡ 0
unfolding total
total_none = refl

boot-IsSched : IsSched boot none_queued
unfolding total
boot-IsSched = record {
  queues = record {
    queue = λ c l. empty-IsQueue threads;
    apart = λ c l d k b h. ground arith;
    level = λ c l b h. ground arith;
    owner = λ c l b h. ground arith;
  };
  count = λ c. refl;
  small = λ c. omega arith;
}

room_none : suc (total 8 (λ l. [])) < mod32
room_none = rw total_none (omega arith)

sched_enqueue-IsSched_example :
    (c : ℕ) × (c < 2)
    × (((sched_enqueue 1 10 boot).threads 10).state ≡ ready)
    × IsSched (sched_enqueue 1 10 boot) (set_list c 2 (10 ∷ []) none_queued)
sched_enqueue-IsSched_example =
    sched_enqueue-IsSched 10 1 boot none_queued boot-IsSched (omega arith) (omega arith)
      (omega arith) (λ d k. refl) (λ d. room_none)

abbrev one : Runqueues
one = enqueue_on 0 10 boot

abbrev one_queued : Lists
one_queued = set_list 0 2 (10 ∷ []) none_queued

one-IsSched : IsSched one one_queued
one-IsSched =
    enqueue_on-IsSched 0 10 boot boot-IsSched (omega arith) (omega arith) (λ d k. refl) room_none

abbrev two : Runqueues
two = enqueue_on 0 20 one

one-level : (one.threads 20).priority_level ≡ 2
unfolding enqueue_on push_on mlfq_push set_queue set_nr_running on_rq set_rq_next set_rq_prev
    set_state set_last_cpu put
one-level = refl

room_one : suc (total 8 (one_queued 0)) < mod32
unfolding total
room_one = omega arith

absent : (d k : ℕ) → has 20 (one_queued d k) ≡ false
absent d k = ground arith

abbrev two_queued : Lists
two_queued = set_list 0 2 (10 ∷ (20 ∷ [])) one_queued

two-IsSched : IsSched two two_queued
two-IsSched =
    subst (λ l. IsSched two (set_list 0 l (one_queued 0 l ++ (20 ∷ [])) one_queued)) one-level
      (enqueue_on-IsSched 0 20 one one-IsSched (omega arith) (rw one-level (omega arith)) absent
        room_one)

two-cpus : two.nr_cpus ≡ 2
unfolding enqueue_on push_on set_queue set_nr_running on_rq
two-cpus = refl

above_two : (k : ℕ) → k < 2 → two_queued 0 k ≡ []
above_two k l = ground arith

pick_next-first_example :
    ((mlfq_pick_next 0 two).0 ≡ 10)
    × Queues
        (levels (mlfq_pick_next 0 two).1)
        (mlfq_pick_next 0 two).1.threads
        (set_list 0 2 (20 ∷ []) two_queued)
pick_next-first_example =
    pick_next-first 0 2 10 (20 ∷ []) two two_queued two-IsSched (omega arith) above_two refl

below_two : (k : ℕ) → 2 < k → k < 8 → length (two_queued 0 k) ≤ 1
below_two k l m = ground arith

-- Processor 0 runs the given thread.
abbrev system_of : ℕ → Runqueues → System
system_of t r = record {
  runqueues = r;
  cpus = λ c. record {
    current_thread = t;
    idle_thread = 90;
    need_resched = false;
    zombie_to_reap = 0;
  };
  freed = [];
}

two-NotDue : NotDue 2000 0 two
unfolding enqueue_on push_on set_queue set_nr_running on_rq
two-NotDue = record { started = omega arith; early = refl }

two-blocked : (two.threads 90).state ≡ blocked
unfolding enqueue_on push_on mlfq_push set_queue set_nr_running on_rq set_rq_next set_rq_prev
    set_state set_last_cpu put
two-blocked = refl

schedule-first_example :
    (s' : System) × (schedule 2000 77 0 (system_of 90 two) ≡ some s')
    × ((s'.cpus 0).current_thread ≡ 10)
    × ((s'.runqueues.threads 10).state ≡ running)
    × IsSched s'.runqueues (set_list 0 2 (20 ∷ []) two_queued)
schedule-first_example =
    schedule-first 2000 77 0 2 10 (20 ∷ []) (system_of 90 two) two_queued two-IsSched two-NotDue
      refl (rw two-blocked refl) (omega arith) (omega arith) above_two refl

two-running : is_running (two.threads 30).state ≡ true
unfolding enqueue_on push_on mlfq_push set_queue set_nr_running on_rq set_rq_next set_rq_prev
    set_state set_last_cpu put
two-running = refl

two-level : (two.threads 30).priority_level ≡ 2
unfolding enqueue_on push_on mlfq_push set_queue set_nr_running on_rq set_rq_next set_rq_prev
    set_state set_last_cpu put
two-level = refl

two-cpu : (two.threads 30).last_cpu ≡ pos 0
unfolding enqueue_on push_on mlfq_push set_queue set_nr_running on_rq set_rq_next set_rq_prev
    set_state set_last_cpu put
two-cpu = refl

room_two : suc (total 8 (two_queued 0)) < mod32
unfolding total
room_two = omega arith

absent_two : (d k : ℕ) → has 30 (two_queued d k) ≡ false
absent_two d k = ground arith

two-Runs : Runs 2000 0 2 30 (system_of 30 two) two_queued
two-Runs = record {
  sched = two-IsSched;
  early = two-NotDue;
  no_zombie = refl;
  current = refl;
  thread = omega arith;
  run = two-running;
  level = two-level;
  bound = omega arith;
  cpu = two-cpu;
  alone = absent_two;
  room = room_two;
}

above_requeued : (k : ℕ) → k < 2 → requeued 0 2 30 two_queued 0 k ≡ []
above_requeued k l = ground arith

schedule-preempts_example :
    (s' : System) × (schedule 2000 77 0 (system_of 30 two) ≡ some s')
    × ((s'.cpus 0).current_thread ≡ 10)
    × ((s'.runqueues.threads 10).state ≡ running)
    × IsSched s'.runqueues (set_list 0 2 (20 ∷ (30 ∷ [])) (requeued 0 2 30 two_queued))
schedule-preempts_example =
    schedule-preempts 2000 0 2 30 (system_of 30 two) two_queued two-Runs 77 2 10 (20 ∷ (30 ∷ []))
      (omega arith) (omega arith) above_requeued refl

boot-Runs : Runs 2000 0 2 30 (system_of 30 boot) none_queued
boot-Runs = record {
  sched = boot-IsSched;
  early = record { started = omega arith; early = refl };
  no_zombie = refl;
  current = refl;
  thread = omega arith;
  run = refl;
  level = refl;
  bound = omega arith;
  cpu = refl;
  alone = λ d k. refl;
  room = room_none;
}

schedule-alone_example :
    (s' : System) × (schedule 2000 77 0 (system_of 30 boot) ≡ some s')
    × ((s'.cpus 0).current_thread ≡ 30)
    × ((s'.runqueues.threads 30).state ≡ ready)
    × IsSched s'.runqueues (set_list 0 2 [] (requeued 0 2 30 none_queued))
schedule-alone_example =
    schedule-alone 2000 0 2 30 (system_of 30 boot) none_queued boot-Runs 77 (λ k l. refl) refl

sched_tick_lem_example :
    (s' : System) × (quantum : ℕ) × (sched_tick 1000 5 0 (system_of 30 boot) ≡ some s')
    × (quantum_ns 2 ≡ some quantum)
    × ((s'.runqueues.threads 30).priority_level < 8)
    × (2 ≤ (s'.runqueues.threads 30).priority_level)
    × ((s'.runqueues.threads 30).time_in_level_ns < quantum)
    × (leb quantum (add64 0 (delta_ns 1000 5 0)) ≡ true → (s'.cpus 0).need_resched ≡ true)
sched_tick_lem_example = sched_tick_lem 1000 5 0 (system_of 30 boot) (omega arith) (omega arith)

woken_after_blocked :
    sched_wake 0 30 (sched_mark_blocked 30 boot)
    ≡ sched_enqueue 0 30 (set_threads (set_state 30 ready (set_state 30 blocked boot.threads)) boot)
woken_after_blocked = wake-blocked 0 30 boot

exit-freed_example :
    ((reap_pending_zombie 0 (marked 0 30 (system_of 30 two))).freed ≡ 30 ∷ [])
    × (((reap_pending_zombie 0 (marked 0 30 (system_of 30 two))).cpus 0).current_thread ≡ 30)
    × ((s' : System) × (sched_exit_current 2000 77 0 30 (system_of 30 two) ≡ some s')
        × (s'.freed ≡ 30 ∷ [])
        × ((s'.cpus 0).current_thread ≡ 10)
        × IsSched s'.runqueues (set_list 0 2 (20 ∷ []) two_queued))
exit-freed_example =
    exit-freed 2000 77 0 30 2 10 (20 ∷ []) (system_of 30 two) two_queued two-IsSched two-NotDue refl
      (omega arith) (omega arith) (omega arith) above_two refl
