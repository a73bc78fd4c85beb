-- ===== src/Sched/WaitQueue/Fifo.antt =====
-- The wait queues are queues.
use lapis.Base.{
  ℕ, ◌≡◌, refl, ◌≢◌, true, false, List, [], ◌∷◌, ◌++◌, arith, ◌==◌, if◌then◌else◌, subst, sym, ◌∙◌,
  has, erase, first_of, last_of, Distinct, test_self, test_ne, last_of-append, Distinct-snoc,
  Distinct-erase, not-has-zero,
}
use lapis.Dll.{Links, Links-snoc, ne-of_has}
use lapis.Dll.Neighbours.{prev-ne}
use lapis.Dll.Unlink.{relinked, Links-relinked, first_of-erase}
use lapis.Dll.Ends.{last_of-erase}
use lapis.Sched.Thread.{Store}
use lapis.Sched.Mlfq.Fifo.{head_after, tail_apart, link_of, inner_next, end_next, old_tail}
use lapis.Sched.WaitQueue.{Waitqueue, wq_link, wq_unlink}
use lapis.Sched.WaitQueue.Fields.{nodes}

abbrev pub nexts : Store → ℕ → ℕ
nexts st t = (st t).wait_next

abbrev pub prevs : Store → ℕ → ℕ
prevs st t = (st t).wait_prev

-- The queue holds these threads, in this order.
pub record IsWaitqueue (q : Waitqueue) (st : Store) (xs : List ℕ) : Type 0 where
  pub distinct : Distinct xs
  pub head : q.head ≡ first_of xs
  pub tail : q.tail ≡ last_of 0 xs
  pub links : Links (nexts st) (prevs st) 0 xs

module _ (t : ℕ) (q : Waitqueue) (st : Store) where
  next-link : (b : ℕ) → nexts (wq_link t q st).1 b ≡ link_of t q.tail b (nexts st b)
  unfolding wq_link
  next-link b = simp nodes

  prev-link : (b : ℕ) → prevs (wq_link t q st).1 b ≡ (if b == t then q.tail else prevs st b)
  unfolding wq_link
  prev-link b = simp nodes (ground arith)

  ends-link :
      ((wq_link t q st).0.head ≡ (if q.tail == 0 then t else q.head))
      × ((wq_link t q st).0.tail ≡ t)
  unfolding wq_link
  ends-link = (refl, refl)

  next-unlink :
      (b : ℕ) → nexts (wq_unlink t q st).1 b ≡ relinked t b (prevs st t) (nexts st t) (nexts st b)
  unfolding wq_unlink
  next-unlink b = simp nodes (ground arith)

  prev-unlink :
      prevs st t ≢ t
      → (b : ℕ) → prevs (wq_unlink t q st).1 b ≡ relinked t b (nexts st t) (prevs st t) (prevs st b)
  unfolding wq_unlink
  prev-unlink e b = simp nodes (ground arith)

  head-unlink : (wq_unlink t q st).0.head ≡ (if prevs st t == 0 then nexts st t else q.head)
  unfolding wq_unlink
  head-unlink = refl

  tail-unlink :
      prevs st t ≢ t → (wq_unlink t q st).0.tail ≡ (if nexts st t == 0 then prevs st t else q.tail)
  unfolding wq_unlink
  tail-unlink e = simp nodes (ground arith)

module _ {q : Waitqueue} {st : Store} {xs : List ℕ} where
  -- A thread, not NULL and not in the queue, that starts to wait is the last one of the queue.
  pub link-IsWaitqueue :
      (t : ℕ)
      → IsWaitqueue q st xs
      → t ≢ 0
      → has t xs ≡ false
      → IsWaitqueue (wq_link t q st).0 (wq_link t q st).1 (xs ++ (t ∷ []))
  link-IsWaitqueue t i z f = record {
    distinct = Distinct-snoc t xs z f i.distinct;
    head = (ends-link t q st).0 ∙ (rw (i.tail, i.head) (head_after t xs i.distinct));
    tail = (ends-link t q st).1 ∙ sym (last_of-append 0 t xs);
    links =
        Links-snoc t 0 xs f z i.distinct (not-has-zero xs i.distinct)
          (next-link t q st t
            ∙ end_next t q.tail (nexts st t) (λ w. tail_apart t xs z f (w ∙ i.tail)))
          (prev-link t q st t ∙ (rw (test_self t) i.tail))
          (λ b h. prev-link t q st b ∙ (rw (test_ne b t (ne-of_has b t xs h f)) refl))
          (λ b h e.
            next-link t q st b
            ∙ inner_next t q.tail b (nexts st b) (ne-of_has b t xs h f) (λ w. e (w ∙ i.tail)))
          (λ e.
            subst (λ b. nexts (wq_link t q st).1 b ≡ t) i.tail
              (next-link t q st q.tail
                ∙ old_tail t q.tail (nexts st q.tail) (λ w. e (sym i.tail ∙ w))))
          i.links;
  }

  -- A thread of the queue that is taken out, be it the first or one that gives up, leaves the
  -- others in their order.
  pub unlink-IsWaitqueue :
      (t : ℕ)
      → IsWaitqueue q st xs
      → has t xs ≡ true
      → IsWaitqueue (wq_unlink t q st).0 (wq_unlink t q st).1 (erase t xs)
  unlink-IsWaitqueue t i h =
      let n = nexts st in
      let p = prevs st in
      let apart = prev-ne n p 0 t xs i.distinct (not-has-zero xs i.distinct) h i.links in
      record {
        distinct = Distinct-erase t xs i.distinct;
        head = head-unlink t q st ∙ (rw i.head (first_of-erase n p t xs i.distinct h i.links));
        tail =
            tail-unlink t q st apart ∙ (rw i.tail (last_of-erase n p t 0 xs i.distinct h i.links));
        links =
            Links-relinked n p t xs i.distinct h i.links (next-unlink t q st)
              (prev-unlink t q st apart);
      }
