-- ===== src/Sched/Mlfq/Fifo.antt =====
-- The queues of the scheduler are queues: a push appends a thread, a pop takes the first one and a
-- removal takes out the one it is given.
use lapis.Base.{
  ℕ, suc, ◌+◌, ◌≡◌, refl, ◌≢◌, Bool, true, false, List, [], ◌∷◌, ◌++◌, arith, ◌==◌, ◌<◌, ◌&&◌,
  if◌then◌else◌, subst, sym, ◌∙◌, length, has, erase, first_of, last_of, Distinct, mod32, test_self,
  test_ne, eq_of_test, length-append, last_of-append, Distinct-snoc, Distinct-erase, length-erase,
  add32, sub32, not-has-zero, ne_zero-of_has,
}
use lapis.Dll.{Links, Links-snoc, Links-frame, has-last_of, ne-of_has}
use lapis.Dll.Neighbours.{prev-ne}
use lapis.Dll.Unlink.{Links-relinked, first_of-erase}
use lapis.Dll.Ends.{first_of-start, last_of-end, last_of-erase}
use lapis.Sched.Thread.{Store}
use lapis.Sched.Mlfq.{Mlfq, mlfq_push, mlfq_pop, mlfq_remove, take_head}
use lapis.Sched.Mlfq.Queue.{
  nexts, prevs, IsQueue, next-push, prev-push, head-push, tail-push, count-push, next-remove,
  prev-remove, head-remove, tail-remove, count-remove, next-take, prev-take, head-take, tail-take,
  count-take, pop_some,
}

-- The tail pointer is NULL only in an empty queue.
tail_zero : (xs : List ℕ) → Distinct xs → last_of 0 xs ≡ 0 → xs ≡ []
tail_zero [] d e = refl
tail_zero (x ∷ xs) d e = absurd (ne_zero-of_has (last_of x xs) (x ∷ xs) d (has-last_of x xs) e)

pub head_after :
    (t : ℕ) (xs : List ℕ)
    → Distinct xs
    → (if last_of 0 xs == 0 then t else first_of xs) ≡ first_of (xs ++ (t ∷ []))
head_after t [] d = refl
head_after t (x ∷ xs) d =
    rw (test_ne (last_of x xs) 0 (ne_zero-of_has (last_of x xs) (x ∷ xs) d (has-last_of x xs))) refl

pub tail_apart : (t : ℕ) (xs : List ℕ) → t ≢ 0 → has t xs ≡ false → t ≢ last_of 0 xs
tail_apart t [] z f e = z e
tail_apart t (x ∷ xs) z f e = ne-of_has (last_of x xs) t (x ∷ xs) (has-last_of x xs) f (sym e)

-- The second test of the removal only confirms the first.
if-and :
    (c d : Bool) (a b : ℕ)
    → (c ≡ true → d ≡ true)
    → (if c && d then a else b) ≡ (if c then a else b)
if-and c d a b e = ground arith

incremented : (n : ℕ) → suc n < mod32 → add32 n 1 ≡ n + 1
incremented n k = omega arith

decremented : (n : ℕ) → suc n < mod32 → sub32 (suc n) 1 ≡ n
decremented n k = omega arith

longer : (n : ℕ) → suc n < mod32 → n + 1 < mod32
longer n k = omega arith

shorter : {m n : ℕ} → m ≡ suc n → m < mod32 → n < mod32
shorter e k = omega arith

-- What a push leaves as the `next` of a thread `b`, if it was `old`.
abbrev pub link_of : (t tail b old : ℕ) → ℕ
link_of t tail b old =
    if tail == 0
    then (if b == t then 0 else old)
    else if b == tail
    then t
    else if b == t
    then 0
    else old

pub inner_next : (t tail b old : ℕ) → b ≢ t → b ≢ tail → link_of t tail b old ≡ old
inner_next t tail b old m n = ground arith

pub end_next : (t tail old : ℕ) → t ≢ tail → link_of t tail t old ≡ 0
end_next t tail old n = ground arith

pub old_tail : (t tail old : ℕ) → tail ≢ 0 → link_of t tail tail old ≡ t
old_tail t tail old n = ground arith

module _ {q : Mlfq} {st : Store} {xs : List ℕ} where
  -- Pushing a thread that the queue does not hold appends it.
  pub push-IsQueue :
      (t : ℕ)
      → IsQueue q st xs
      → t ≢ 0
      → has t xs ≡ false
      → suc (length xs) < mod32
      → IsQueue (mlfq_push t q st).0 (mlfq_push t q st).1 (xs ++ (t ∷ []))
  push-IsQueue t i z f k = record {
    distinct = Distinct-snoc t xs z f i.distinct;
    head = simp (head-push t q st, i.tail, i.head) (head_after t xs i.distinct);
    tail = tail-push t q st ∙ sym (last_of-append 0 t xs);
    links =
        Links-snoc t 0 xs f z i.distinct (not-has-zero xs i.distinct)
          (next-push t q st t
            ∙ end_next t q.tail (nexts st t) (λ w. tail_apart t xs z f (w ∙ i.tail)))
          (prev-push t q st t ∙ ground (arith, i.tail))
          (λ b h. prev-push t q st b ∙ ground (arith, ne-of_has b t xs))
          (λ b h e.
            next-push t q st b
            ∙ inner_next t q.tail b (nexts st b) (ne-of_has b t xs h f) (λ w. e (w ∙ i.tail)))
          (λ e.
            subst (λ b. nexts (mlfq_push t q st).1 b ≡ t) i.tail
              (next-push t q st q.tail
                ∙ old_tail t q.tail (nexts st q.tail) (λ w. e (sym i.tail ∙ w))))
          i.links;
    count =
        count-push t q st ∙ (rw (i.count, length-append xs (t ∷ [])) (incremented (length xs) k));
    small = rw (length-append xs (t ∷ [])) (longer (length xs) k);
  }

  -- Removing a thread that the queue holds leaves the others in their order.
  pub remove-IsQueue :
      (t : ℕ)
      → IsQueue q st xs
      → has t xs ≡ true
      → IsQueue (mlfq_remove t q st).0 (mlfq_remove t q st).1 (erase t xs)
  remove-IsQueue t i h =
      let n = nexts st in
      let p = prevs st in
      let apart = prev-ne n p 0 t xs i.distinct (not-has-zero xs i.distinct) h i.links in
      record {
        distinct = Distinct-erase t xs i.distinct;
        head =
            head-remove t q st
            ∙ if-and (p t == 0) (q.head == t) (n t) q.head (λ e.
              rw (i.head, first_of-start n p t xs i.distinct h i.links (eq_of_test (p t) 0 e))
                (test_self t))
            ∙ (rw i.head (first_of-erase n p t xs i.distinct h i.links));
        tail =
            tail-remove t q st apart
            ∙ if-and (n t == 0) (q.tail == t) (p t) q.tail (λ e.
              rw (i.tail, last_of-end n p t 0 xs i.distinct h i.links (eq_of_test (n t) 0 e))
                (test_self t))
            ∙ (rw i.tail (last_of-erase n p t 0 xs i.distinct h i.links));
        links =
            Links-relinked n p t xs i.distinct h i.links (next-remove t q st)
              (prev-remove t q st apart);
        count =
            count-remove t q st
            ∙ (rw (i.count, length-erase t xs h)
                (decremented (length (erase t xs))
                  (subst (λ n. n < mod32) (length-erase t xs h) i.small)));
        small = shorter (length-erase t xs h) i.small;
      }

-- A pop takes the first thread and leaves the others.
pub take-IsQueue :
    {q : Mlfq} {st : Store} {x : ℕ} {xs : List ℕ}
    → IsQueue q st (x ∷ xs)
    → IsQueue (take_head q st).0 (take_head q st).1 xs
take-IsQueue {q} {st} {x} {xs} i =
    let n = nexts st in
    let p = prevs st in
    record {
      distinct = i.distinct.2;
      head = head-take q st ∙ (rw i.head i.links.1);
      tail = tail-take q st ∙ (rw (i.head, i.tail, i.links.1) (last_left xs i.distinct.2));
      links = behind _ _ (
          Links-relinked n p x (x ∷ xs) i.distinct (ground arith) i.links
            (λ b. next-take q st b ∙ ground (arith, i.head, i.links.0))
            (λ b. prev-take q st b ∙ ground (arith, i.head, i.links.0)));
      count = count-take q st ∙ (rw i.count (decremented (length xs) i.small));
      small = shorter refl i.small;
    }
  where
    behind : (nx pv : ℕ → ℕ) → Links nx pv 0 (erase x (x ∷ xs)) → Links nx pv 0 xs
    behind nx pv = subst (λ ys. Links nx pv 0 ys) (ground (arith, test_self x))

    last_left :
        (ys : List ℕ) → Distinct ys → (if first_of ys == 0 then 0 else last_of x ys) ≡ last_of 0 ys
    last_left [] d = refl
    last_left (y ∷ ys) (z, f, d) = rw (test_ne y 0 z) refl

-- A pop gives the first thread and leaves the others in their order.
pub pop-IsQueue :
    {q : Mlfq} {st : Store} {x : ℕ} {xs : List ℕ}
    → IsQueue q st (x ∷ xs)
    → ((mlfq_pop q st).0 ≡ x) × IsQueue (mlfq_pop q st).1.0 (mlfq_pop q st).1.1 xs
pop-IsQueue {q} {st} {x} {xs} i =
    rw (pop_some q st (λ z. i.distinct.0 (sym i.head ∙ z))) (i.head, take-IsQueue i)

-- A queue stays what it is when the links of its threads do.
pub IsQueue-frame :
    {q : Mlfq} {st st' : Store} {xs : List ℕ}
    → ((b : ℕ) → has b xs ≡ true → (nexts st' b ≡ nexts st b) × (prevs st' b ≡ prevs st b))
    → IsQueue q st xs
    → IsQueue q st' xs
IsQueue-frame {xs = xs} same i = record {
  distinct = i.distinct;
  head = i.head;
  tail = i.tail;
  links = Links-frame 0 xs same i.links;
  count = i.count;
  small = i.small;
}
