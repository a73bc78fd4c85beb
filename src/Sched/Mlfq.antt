-- ===== src/Sched/Mlfq.antt =====
-- kernel/src/sched/sched.c: the queues of the run queues, one for each priority level. A queue is
-- threaded through the threads.
pub mod Queue
pub mod Fifo
pub mod Touch
use lapis.Base.{ℕ, ◌&&◌, ◌==◌, if◌then◌else◌, add32, sub32}
use lapis.Sched.Thread.{Store, set_rq_next, set_rq_prev}

-- `mlfq_queue_t`
pub record Mlfq : Type 0 where
  pub head : ℕ
  pub tail : ℕ
  pub count : ℕ

unfoldable pub mlfq_push : ℕ → Mlfq → Store → Mlfq × Store
mlfq_push t q st =
    let st1 = set_rq_prev t q.tail (set_rq_next t 0 st) in
    let st2 = if q.tail == 0 then st1 else set_rq_next q.tail t st1 in
    let head = if q.tail == 0 then t else q.head in
    (record { head = head; tail = t; count = add32 q.count 1 }, st2)

-- The part of `mlfq_pop` behind its test: it takes the first thread.
unfoldable pub take_head : Mlfq → Store → Mlfq × Store
take_head q st =
    let t = q.head in
    let head = (st t).rq_next in
    let st1 = if head == 0 then st else set_rq_prev head 0 st in
    let tail = if head == 0 then 0 else q.tail in
    let st2 = set_rq_prev t 0 (set_rq_next t 0 st1) in
    (record { head = head; tail = tail; count = sub32 q.count 1 }, st2)

-- The thread popped, or NULL, with the queue and the threads.
unfoldable pub mlfq_pop : Mlfq → Store → ℕ × (Mlfq × Store)
mlfq_pop q st = if q.head == 0 then (0, (q, st)) else (q.head, take_head q st)

unfoldable pub mlfq_remove : ℕ → Mlfq → Store → Mlfq × Store
mlfq_remove t q st =
    let prev = (st t).rq_prev in
    let st1 = if prev == 0 then st else set_rq_next prev (st t).rq_next st in
    let head = if prev == 0 && q.head == t then (st t).rq_next else q.head in
    let next = (st1 t).rq_next in
    let st2 = if next == 0 then st1 else set_rq_prev next (st1 t).rq_prev st1 in
    let tail = if next == 0 && q.tail == t then (st1 t).rq_prev else q.tail in
    let st3 = set_rq_prev t 0 (set_rq_next t 0 st2) in
    (record { head = head; tail = tail; count = sub32 q.count 1 }, st3)
