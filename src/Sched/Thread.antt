-- ===== src/Sched/Thread.antt =====
-- kernel/src/sched/task.h: what the scheduler and the wait queues keep of a thread.
pub mod Fields
use lapis.Base.{ℕ, ◌≡◌, Bool, arith, if◌then◌else◌, put, ℤ, pos}

-- `thread_state_t`
pub data ThreadState : Type 0 where
  new ready running blocked sleeping zombie dead : ThreadState

-- `thread_t`, with the fields of its `wait_node`. Times are 64-bit words; the level is at least 0
-- and below 8; -1 stands for no processor; pointers are addresses, and NULL is 0.
pub record Thread : Type 0 where
  pub state : ThreadState
  pub priority_level : ℕ
  pub time_in_level_ns : ℕ
  pub last_run_tsc : ℕ
  pub total_runtime_ns : ℕ
  pub last_cpu : ℤ
  pub pinned_cpu : ℤ
  pub rq_next : ℕ
  pub rq_prev : ℕ
  pub blocked_on : ℕ
  pub wait_next : ℕ
  pub wait_prev : ℕ
  pub woken : Bool

-- The threads by their addresses.
abbrev pub Store : Type 0
Store = ℕ → Thread

unfoldable pub set_rq_next : ℕ → ℕ → Store → Store
set_rq_next t v st = put st t (record (st t) { rq_next = v })

unfoldable pub set_rq_prev : ℕ → ℕ → Store → Store
set_rq_prev t v st = put st t (record (st t) { rq_prev = v })

unfoldable pub set_state : ℕ → ThreadState → Store → Store
set_state t v st = put st t (record (st t) { state = v })

unfoldable pub set_last_cpu : ℕ → ℕ → Store → Store
set_last_cpu t c st = put st t (record (st t) { last_cpu = pos c })

-- The two writes of `sched_set_priority`, of the boost and of a tick.
unfoldable pub set_level : ℕ → (level time : ℕ) → Store → Store
set_level t level time st =
    put st t (record (st t) { priority_level = level; time_in_level_ns = time })

unfoldable pub set_wait_next : ℕ → ℕ → Store → Store
set_wait_next t v st = put st t (record (st t) { wait_next = v })

unfoldable pub set_wait_prev : ℕ → ℕ → Store → Store
set_wait_prev t v st = put st t (record (st t) { wait_prev = v })

unfoldable pub set_woken : ℕ → Bool → Store → Store
set_woken t v st = put st t (record (st t) { woken = v })

unfoldable pub set_blocked_on : ℕ → ℕ → Store → Store
set_blocked_on t v st = put st t (record (st t) { blocked_on = v })
