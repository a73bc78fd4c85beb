-- ===== src/Sched.antt =====
-- The scheduler and its queues, kernel/src/sched.
pub mod Thread
pub mod Mlfq
pub mod Runqueue
pub mod Dispatch
pub mod WaitQueue
mod Tests
