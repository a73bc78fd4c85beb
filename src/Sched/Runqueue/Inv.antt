-- ===== src/Sched/Runqueue/Inv.antt =====
-- When the run queues are sound: each queue holds a list of threads that are at its level and on its
-- processor, no thread is in two of them, and the counters are the numbers of threads.
use lapis.Base.{
  ◌⊎◌, ℕ, zero, suc, ◌+◌, ◌<◌, ◌≡◌, sym, ap, ◌∙◌, subst, Bool, true, false, ◌&&◌, ◌==◌, List, arith,
  if◌then◌else◌, length, has, mod32, pos, Bool-cases, inl, inr, ne_zero-of_has,
}
use lapis.Sched.Thread.{Store}
use lapis.Sched.Mlfq.{Mlfq}
use lapis.Sched.Mlfq.Queue.{IsQueue, nexts, prevs}
use lapis.Sched.Mlfq.Fifo.{IsQueue-frame}
use lapis.Sched.Mlfq.Touch.{Touched}
use lapis.Sched.Runqueue.{Runqueues}

-- The lists of the threads queued, by processor and level.
abbrev pub Lists : Type 0
Lists = ℕ → ℕ → List ℕ

abbrev pub is_at : (c l d k : ℕ) → Bool
is_at c l d k = d == c && k == l

abbrev pub set_list : (c l : ℕ) → List ℕ → Lists → Lists
set_list c l ys qs d k = if is_at c l d k then ys else qs d k

-- The number of threads in the first `n` of a family of lists.
unfoldable pub total : ℕ → (ℕ → List ℕ) → ℕ
total zero f = 0
total (suc n) f = total n f + length (f n)

-- The queues hold these lists.
pub record Queues (levels : ℕ → ℕ → Mlfq) (st : Store) (qs : Lists) : Type 0 where
  pub queue : (c l : ℕ) → IsQueue (levels c l) st (qs c l)
  pub apart : (c l d k b : ℕ) → has b (qs c l) ≡ true → has b (qs d k) ≡ true → is_at c l d k ≡ true
  pub level : (c l b : ℕ) → has b (qs c l) ≡ true → (st b).priority_level ≡ l
  pub owner : (c l b : ℕ) → has b (qs c l) ≡ true → (st b).last_cpu ≡ pos c

pub record IsSched (s : Runqueues) (qs : Lists) : Type 0 where
  pub queues : Queues (λ c l. (s.rqs c).levels l) s.threads qs
  pub count : (c : ℕ) → (s.rqs c).nr_running ≡ total 8 (qs c)
  pub small : (c : ℕ) → total 8 (qs c) < mod32

-- One queue is replaced by another, whose threads are in no other one, by a routine that spares the
-- threads of the others.
module _ {levels levels' : ℕ → ℕ → Mlfq} {st st' : Store} {qs : Lists} (c l : ℕ) (q : Mlfq)
    (ts ys : List ℕ) where
  pub Queues-set :
      Queues levels st qs
      → Touched st st' ts
      → ((d k b : ℕ) → is_at c l d k ≡ false → has b (qs d k) ≡ true → has b ts ≡ false)
      → IsQueue q st' ys
      → ((b : ℕ) → has b ys ≡ true → (st b).priority_level ≡ l)
      → ((b : ℕ) → has b ys ≡ true → (st b).last_cpu ≡ pos c)
      → ((d k b : ℕ) → is_at c l d k ≡ false → has b ys ≡ true → has b (qs d k) ≡ false)
      → ((d k : ℕ) → levels' d k ≡ (if is_at c l d k then q else levels d k))
      → Queues levels' st' (set_list c l ys qs)
  Queues-set i t far j lv ow new eq = record {
    queue = λ d k. at_queue d k (Bool-cases (is_at c l d k));
    apart = λ d k e m b h h'.
        meet d k e m b h h' (Bool-cases (is_at c l d k)) (Bool-cases (is_at c l e m));
    level = λ d k b h. at_level d k b h (Bool-cases (is_at c l d k));
    owner = λ d k b h. at_owner d k b h (Bool-cases (is_at c l d k));
  }
    where
      at_queue :
          (d k : ℕ)
          → (is_at c l d k ≡ true) ⊎ (is_at c l d k ≡ false)
          → IsQueue (levels' d k) st' (set_list c l ys qs d k)
      at_queue d k (inl e) = rw (eq d k, e) j
      at_queue d k (inr e) =
          rw (eq d k, e)
            (IsQueue-frame
              (λ b h.
                let z = ne_zero-of_has b (qs d k) (i.queue d k).distinct h in
                (t.next b z (far d k b e h), t.prev b z (far d k b e h)))
              (i.queue d k))

      here : (d k : ℕ) → is_at c l d k ≡ true → (d ≡ c) × (k ≡ l)
      here d k e = ground arith

      both : (d k e m : ℕ) → is_at c l d k ≡ true → is_at c l e m ≡ true → is_at d k e m ≡ true
      both d k e m h h' = ground arith

      listed :
          (d k b : ℕ)
          → has b (set_list c l ys qs d k) ≡ true
          → is_at c l d k ≡ true
          → has b ys ≡ true
      listed d k b h e = subst (λ x. has b (if x then ys else qs d k) ≡ true) e h

      kept :
          (d k b : ℕ)
          → has b (set_list c l ys qs d k) ≡ true
          → is_at c l d k ≡ false
          → has b (qs d k) ≡ true
      kept d k b h e = subst (λ x. has b (if x then ys else qs d k) ≡ true) e h

      clash : {x : Bool} → x ≡ true → x ≡ false → ⊥
      clash h k = cc

      meet :
          (d k e m b : ℕ)
          → has b (set_list c l ys qs d k) ≡ true
          → has b (set_list c l ys qs e m) ≡ true
          → (is_at c l d k ≡ true) ⊎ (is_at c l d k ≡ false)
          → (is_at c l e m ≡ true) ⊎ (is_at c l e m ≡ false)
          → is_at d k e m ≡ true
      meet d k e m b h h' (inl x) (inl y) = both d k e m x y
      meet d k e m b h h' (inl x) (inr y) =
          absurd (clash (kept e m b h' y) (new e m b y (listed d k b h x)))
      meet d k e m b h h' (inr x) (inl y) =
          absurd (clash (kept d k b h x) (new d k b x (listed e m b h' y)))
      meet d k e m b h h' (inr x) (inr y) = i.apart d k e m b (kept d k b h x) (kept e m b h' y)

      at_level :
          (d k b : ℕ)
          → has b (set_list c l ys qs d k) ≡ true
          → (is_at c l d k ≡ true) ⊎ (is_at c l d k ≡ false)
          → (st' b).priority_level ≡ k
      at_level d k b h (inl e) = t.level b ∙ lv b (listed d k b h e) ∙ sym (here d k e).1
      at_level d k b h (inr e) = t.level b ∙ i.level d k b (kept d k b h e)

      at_owner :
          (d k b : ℕ)
          → has b (set_list c l ys qs d k) ≡ true
          → (is_at c l d k ≡ true) ⊎ (is_at c l d k ≡ false)
          → (st' b).last_cpu ≡ pos d
      at_owner d k b h (inl e) = t.cpu b ∙ ow b (listed d k b h e) ∙ ap pos (sym (here d k e).0)
      at_owner d k b h (inr e) = t.cpu b ∙ i.owner d k b (kept d k b h e)

-- The queues stay what they are when the fields of their threads do.
pub Queues-frame :
    {levels levels' : ℕ → ℕ → Mlfq} {st st' : Store} {qs : Lists}
    → ((d k : ℕ) → levels' d k ≡ levels d k)
    → ((d k b : ℕ)
        → has b (qs d k) ≡ true
        → (nexts st' b ≡ nexts st b)
          × (prevs st' b ≡ prevs st b)
          × ((st' b).priority_level ≡ (st b).priority_level)
          × ((st' b).last_cpu ≡ (st b).last_cpu))
    → Queues levels st qs
    → Queues levels' st' qs
Queues-frame eq same i = record {
  queue = λ d k.
      rw (eq d k) (IsQueue-frame (λ b h. ((same d k b h).0, (same d k b h).1)) (i.queue d k));
  apart = i.apart;
  level = λ d k b h. (same d k b h).2 ∙ i.level d k b h;
  owner = λ d k b h. (same d k b h).3 ∙ i.owner d k b h;
}

pub clash : {x : Bool} → x ≡ true → x ≡ false → ⊥
clash h k = cc

-- A thread of one queue is in no other.
pub elsewhere :
    {levels : ℕ → ℕ → Mlfq} {st : Store} {qs : Lists}
    → Queues levels st qs
    → (c l d k b : ℕ) → is_at c l d k ≡ false
    → has b (qs d k) ≡ true
    → has b (qs c l) ≡ false
elsewhere {qs = qs} i c l d k b e h = elim (Bool-cases (has b (qs c l))) [
  | inl w ↦ absurd (clash (i.apart c l d k b w h) e)
  | inr w ↦ w
]

pub not_elsewhere :
    {levels : ℕ → ℕ → Mlfq} {st : Store} {qs : Lists}
    → Queues levels st qs
    → (c l d k b : ℕ) → is_at c l d k ≡ false
    → has b (qs c l) ≡ true
    → has b (qs d k) ≡ false
not_elsewhere {qs = qs} i c l d k b e h = elim (Bool-cases (has b (qs d k))) [
  | inl w ↦ absurd (clash (i.apart c l d k b h w) e)
  | inr w ↦ w
]
