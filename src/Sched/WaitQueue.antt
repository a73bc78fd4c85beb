-- ===== src/Sched/WaitQueue.antt =====
-- kernel/src/sched/waitqueue.c: the queues of the threads that wait for an event. A node is a part of
-- its thread, and has the thread's address here.
pub mod Fields
pub mod Fifo
mod Tests
use lapis.Base.{
  ◌>>=◌, ℕ, zero, suc, Bool, true, false, Option, some, none, ◌==◌, not, if◌then◌else◌,
}
use lapis.Sched.Thread.{
  Store, set_wait_next, set_wait_prev, set_woken, set_blocked_on, blocked, set_state,
}
use lapis.Sched.Runqueue.{Runqueues, set_threads}
use lapis.Sched.Dispatch.{sched_mark_blocked, sched_wake}

-- `waitqueue_t` without its lock
pub record Waitqueue : Type 0 where
  pub head : ℕ
  pub tail : ℕ

abbrev pub waitqueue_init : Waitqueue
waitqueue_init = record { head = 0; tail = 0 }

unfoldable pub wq_link : ℕ → Waitqueue → Store → Waitqueue × Store
wq_link t q st =
    let st1 = set_woken t false (set_wait_prev t q.tail (set_wait_next t 0 st)) in
    let st2 = if q.tail == 0 then st1 else set_wait_next q.tail t st1 in
    (record { head = if q.tail == 0 then t else q.head; tail = t }, st2)

unfoldable pub wq_unlink : ℕ → Waitqueue → Store → Waitqueue × Store
wq_unlink t q st =
    let prev = (st t).wait_prev in
    let st1 = if prev == 0 then st else set_wait_next prev (st t).wait_next st in
    let head = if prev == 0 then (st t).wait_next else q.head in
    let next = (st1 t).wait_next in
    let st2 = if next == 0 then st1 else set_wait_prev next (st1 t).wait_prev st1 in
    let tail = if next == 0 then (st1 t).wait_prev else q.tail in
    (record { head = head; tail = tail }, set_wait_prev t 0 (set_wait_next t 0 st2))

-- The first part of `waitqueue_wait`, up to its call of `schedule`; `wq` is the queue's address.
unfoldable pub wait_begin : (wq self : ℕ) → Waitqueue → Runqueues → Waitqueue × Runqueues
wait_begin wq self q s =
    let r = wq_link self q (set_woken self false s.threads) in
    (r.0, sched_mark_blocked self (set_threads (set_blocked_on self wq r.1) s))

-- The last part, behind the call of `schedule`.
unfoldable pub wait_end : (self : ℕ) → Waitqueue → Runqueues → Waitqueue × Runqueues
wait_end self q s =
    let r = wq_unlink self q s.threads in
    let out = if (s.threads self).woken then (q, s.threads) else r in
    (out.0, set_threads (set_blocked_on self 0 out.1) s)

unfoldable pub waitqueue_wake_one : (me : ℕ) → Waitqueue → Runqueues → Waitqueue × Runqueues
waitqueue_wake_one me q s =
    let node = q.head in
    let r = wq_unlink node q s.threads in
    if node == 0
    then (q, s)
    else (r.0, sched_wake me node (set_threads (set_woken node true r.1) s))

-- The loop of `waitqueue_wake_all`, on fuel; `none` when it runs out.
unfoldable pub wake_loop : (fuel me node : ℕ) → Runqueues → Option Runqueues
wake_loop zero me node s = none
wake_loop (suc n) me node s =
    let next = (s.threads node).wait_next in
    let st = set_wait_prev node 0 (set_wait_next node 0 (set_woken node true s.threads)) in
    let rest = wake_loop n me next (sched_wake me node (set_threads st s)) in
    if node == 0 then some s else rest

unfoldable pub waitqueue_wake_all :
    (fuel me : ℕ) → Waitqueue → Runqueues → Option (Waitqueue × Runqueues)
waitqueue_wake_all fuel me q s = wake_loop fuel me q.head s >>= λ s1. some (waitqueue_init, s1)

unfoldable pub waitqueue_has_waiters : Waitqueue → Bool
waitqueue_has_waiters q = not (q.head == 0)
