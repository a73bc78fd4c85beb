-- ===== src/Sched/Mlfq/Queue.antt =====
-- The queues of the scheduler are queues: what a push, a pop and a removal do to the list of the
-- threads of one.
use lapis.Base.{
  ℕ, ◌≡◌, refl, ◌≢◌, List, arith, ◌==◌, ◌<◌, ◌&&◌, if◌then◌else◌, length, first_of, last_of,
  Distinct, mod32, add32, sub32, test_ne,
}
use lapis.Dll.{Links}
use lapis.Dll.Unlink.{relinked}
use lapis.Sched.Thread.{Store}
use lapis.Sched.Thread.Fields.{links}
use lapis.Sched.Mlfq.{Mlfq, mlfq_push, mlfq_pop, mlfq_remove, take_head}

abbrev pub nexts : Store → ℕ → ℕ
nexts st t = (st t).rq_next

abbrev pub prevs : Store → ℕ → ℕ
prevs st t = (st t).rq_prev

-- The queue holds these threads, in this order.
pub record IsQueue (q : Mlfq) (st : Store) (xs : List ℕ) : Type 0 where
  pub distinct : Distinct xs
  pub head : q.head ≡ first_of xs
  pub tail : q.tail ≡ last_of 0 xs
  pub links : Links (nexts st) (prevs st) 0 xs
  pub count : q.count ≡ length xs
  pub small : length xs < mod32

module _ (t : ℕ) (q : Mlfq) (st : Store) where
  pub next-push :
      (b : ℕ)
      → nexts (mlfq_push t q st).1 b ≡ (
          if q.tail == 0
          then (if b == t then 0 else nexts st b)
          else if b == q.tail
          then t
          else if b == t
          then 0
          else nexts st b)
  unfolding mlfq_push
  next-push b = simp links

  pub prev-push : (b : ℕ) → prevs (mlfq_push t q st).1 b ≡ (if b == t then q.tail else prevs st b)
  unfolding mlfq_push
  prev-push b = simp links (ground arith)

  pub head-push : (mlfq_push t q st).0.head ≡ (if q.tail == 0 then t else q.head)
  unfolding mlfq_push
  head-push = refl

  pub tail-push : (mlfq_push t q st).0.tail ≡ t
  unfolding mlfq_push
  tail-push = refl

  pub count-push : (mlfq_push t q st).0.count ≡ add32 q.count 1
  unfolding mlfq_push
  count-push = refl

  pub next-remove :
      (b : ℕ) → nexts (mlfq_remove t q st).1 b ≡ relinked t b (prevs st t) (nexts st t) (nexts st b)
  unfolding mlfq_remove
  next-remove b = simp links (ground arith)

  pub prev-remove :
      prevs st t ≢ t
      → (b : ℕ)
      → prevs (mlfq_remove t q st).1 b ≡ relinked t b (nexts st t) (prevs st t) (prevs st b)
  unfolding mlfq_remove
  prev-remove e b = simp links (ground arith)

  pub head-remove :
      (mlfq_remove t q st).0.head ≡ (if prevs st t == 0 && q.head == t then nexts st t else q.head)
  unfolding mlfq_remove
  head-remove = refl

  pub tail-remove :
      prevs st t ≢ t
      → (mlfq_remove t q st).0.tail
        ≡ (if nexts st t == 0 && q.tail == t then prevs st t else q.tail)
  unfolding mlfq_remove
  tail-remove e = simp links (ground arith)

  pub count-remove : (mlfq_remove t q st).0.count ≡ sub32 q.count 1
  unfolding mlfq_remove
  count-remove = refl

module _ (q : Mlfq) (st : Store) where
  pub next-take : (b : ℕ) → nexts (take_head q st).1 b ≡ (if b == q.head then 0 else nexts st b)
  unfolding take_head
  next-take b = simp links (ground arith)

  pub prev-take :
      (b : ℕ) → prevs (take_head q st).1 b ≡ relinked q.head b (nexts st q.head) 0 (prevs st b)
  unfolding take_head
  prev-take b = simp links (ground arith)

  pub head-take : (take_head q st).0.head ≡ nexts st q.head
  unfolding take_head
  head-take = refl

  pub tail-take : (take_head q st).0.tail ≡ (if nexts st q.head == 0 then 0 else q.tail)
  unfolding take_head
  tail-take = refl

  pub count-take : (take_head q st).0.count ≡ sub32 q.count 1
  unfolding take_head
  count-take = refl

  pub pop_none : q.head ≡ 0 → mlfq_pop q st ≡ (0, (q, st))
  unfolding mlfq_pop
  pop_none e = ground arith

  pub pop_some : q.head ≢ 0 → mlfq_pop q st ≡ (q.head, take_head q st)
  unfolding mlfq_pop
  pop_some e = rw (test_ne q.head 0 e) refl
