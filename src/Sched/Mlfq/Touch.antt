-- ===== src/Sched/Mlfq/Touch.antt =====
-- What the operations of a queue leave alone: the links of the threads outside it, and the other
-- fields of all.
use lapis.Base.{
  ℕ, ◌≡◌, ◌≢◌, true, false, List, [], ◌∷◌, arith, ◌==◌, if◌then◌else◌, sym, ◌∙◌, has, last_of,
  first_of, ◌⊎◌, inl, inr, refl, not-has-zero, test_ne, if_same,
}
use lapis.Dll.{has-last_of, ne-of_has}
use lapis.Dll.Neighbours.{prev-in, next-in, prev-ne}
use lapis.Dll.Unlink.{relinked}
use lapis.Sched.Thread.{Store}
use lapis.Sched.Thread.Fields.{links}
use lapis.Sched.Mlfq.{Mlfq, mlfq_push, mlfq_remove, take_head}
use lapis.Sched.Mlfq.Queue.{
  nexts, prevs, IsQueue, next-push, prev-push, next-remove, prev-remove, next-take, prev-take,
}

-- Only links of the given threads change.
pub record Touched (st st' : Store) (ts : List ℕ) : Type 0 where
  pub next : (b : ℕ) → b ≢ 0 → has b ts ≡ false → nexts st' b ≡ nexts st b
  pub prev : (b : ℕ) → b ≢ 0 → has b ts ≡ false → prevs st' b ≡ prevs st b
  pub level : (b : ℕ) → (st' b).priority_level ≡ (st b).priority_level
  pub cpu : (b : ℕ) → (st' b).last_cpu ≡ (st b).last_cpu
  pub state : (b : ℕ) → (st' b).state ≡ (st b).state

last_apart : (b : ℕ) (xs : List ℕ) → b ≢ 0 → has b xs ≡ false → b ≢ last_of 0 xs
last_apart b [] z f = z
last_apart b (x ∷ xs) z f = λ e. ne-of_has (last_of x xs) b (x ∷ xs) (has-last_of x xs) f (sym e)

pushed_next :
    (t tail b old : ℕ)
    → b ≢ t
    → b ≢ tail
    → (if tail == 0
        then (if b == t then 0 else old)
        else if b == tail
        then t
        else if b == t
        then 0
        else old)
      ≡ old
pushed_next t tail b old m n = ground arith

spared : (a b near far old : ℕ) → b ≢ a → b ≢ near → relinked a b near far old ≡ old
spared a b near far old m n = ground arith

head_apart : (b a x : ℕ) (xs : List ℕ) → a ≡ x → has b (x ∷ xs) ≡ false → b ≢ a
head_apart b a x xs e f = ground arith

module _ {q : Mlfq} {st : Store} {xs : List ℕ} where
  pub push-Touched : (t : ℕ) (i : IsQueue q st xs) → Touched st (mlfq_push t q st).1 (t ∷ xs)
  unfolding mlfq_push
  push-Touched t i = record {
    next = λ b z f.
        next-push t q st b
        ∙ pushed_next t q.tail b (nexts st b) (head_apart b t t xs refl f)
            (λ e. last_apart b xs z (ground arith) (e ∙ i.tail));
    prev = λ b z f. prev-push t q st b ∙ (rw (test_ne b t (head_apart b t t xs refl f)) refl);
    level = λ b. simp (links, if_same);
    cpu = λ b. simp (links, if_same);
    state = λ b. simp (links, if_same);
  }

  pub remove-Touched :
      (t : ℕ) (i : IsQueue q st xs) → has t xs ≡ true → Touched st (mlfq_remove t q st).1 xs
  unfolding mlfq_remove
  remove-Touched t i h = record {
    next = λ b z f.
        next-remove t q st b
        ∙ spared t b (prevs st t) (nexts st t) (nexts st b) (λ e. ne-of_has t b xs h f (sym e))
            (λ e. neighbour b z f (prev-in (nexts st) (prevs st) 0 t xs i.links h) e);
    prev = λ b z f.
        prev-remove t q st
          (prev-ne (nexts st) (prevs st) 0 t xs i.distinct (not-has-zero xs i.distinct) h i.links) b
        ∙ spared t b (nexts st t) (prevs st t) (prevs st b) (λ e. ne-of_has t b xs h f (sym e))
            (λ e. neighbour b z f (next-in (nexts st) (prevs st) 0 t xs i.links h) e);
    level = λ b. simp (links, if_same);
    cpu = λ b. simp (links, if_same);
    state = λ b. simp (links, if_same);
  }
    where
      neighbour : (b : ℕ) {n : ℕ} → b ≢ 0 → has b xs ≡ false → (n ≡ 0) ⊎ (has n xs ≡ true) → b ≢ n
      neighbour b {n} z f w e = elim w [ inl k ↦ z (e ∙ k) | inr k ↦ ne-of_has n b xs k f (sym e) ]

pub take-Touched :
    {q : Mlfq} {st : Store} {x : ℕ} {xs : List ℕ}
    → IsQueue q st (x ∷ xs)
    → Touched st (take_head q st).1 (x ∷ xs)
unfolding take_head
take-Touched {q} {st} {x} {xs} i = record {
  next =
      λ b z f. next-take q st b ∙ (rw (test_ne b q.head (head_apart b q.head x xs i.head f)) refl);
  prev = λ b z f.
      prev-take q st b
      ∙ spared q.head b (nexts st q.head) 0 (prevs st b) (head_apart b q.head x xs i.head f)
          (second b z f);
  level = λ b. simp (links, if_same);
  cpu = λ b. simp (links, if_same);
  state = λ b. simp (links, if_same);
}
  where
    second : (b : ℕ) → b ≢ 0 → has b (x ∷ xs) ≡ false → b ≢ nexts st q.head
    second b z f e = first_apart b xs z (ground arith) (e ∙ (rw (i.head, i.links.1) refl))
      where
        first_apart : (b : ℕ) (ys : List ℕ) → b ≢ 0 → has b ys ≡ false → b ≢ first_of ys
        first_apart b [] z f = z
        first_apart b (y ∷ ys) z f = λ e. ground arith
