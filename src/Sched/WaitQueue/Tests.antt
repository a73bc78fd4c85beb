-- ===== src/Sched/WaitQueue/Tests.antt =====
-- A wait queue of two threads.
use lapis.Base.{refl, false, [], ◌∷◌, arith, pos, negsuc}
use lapis.Sched.Thread.{Thread, Store, running}
use lapis.Sched.WaitQueue.{Waitqueue, waitqueue_init, wq_link}
use lapis.Sched.WaitQueue.Fifo.{IsWaitqueue, link-IsWaitqueue}

abbrev some_thread : Thread
some_thread = record {
  state = running;
  priority_level = 0;
  time_in_level_ns = 0;
  last_run_tsc = 0;
  total_runtime_ns = 0;
  last_cpu = pos 0;
  pinned_cpu = negsuc 0;
  rq_next = 0;
  rq_prev = 0;
  blocked_on = 0;
  wait_next = 0;
  wait_prev = 0;
  woken = false;
}

abbrev threads : Store
threads t = some_thread

init-IsWaitqueue : IsWaitqueue waitqueue_init threads []
init-IsWaitqueue = record { distinct = tt; head = refl; tail = refl; links = tt }

abbrev one : Waitqueue × Store
one = wq_link 10 waitqueue_init threads

one-IsWaitqueue : IsWaitqueue one.0 one.1 (10 ∷ [])
one-IsWaitqueue = link-IsWaitqueue 10 init-IsWaitqueue (omega arith) refl
