-- ===== src/Semaphore/Balance.antt =====
-- A semaphore lets as many waits pass as it was given.
use lapis.Base.{
  subst, ℕ, suc, ◌+◌, ◌<◌, ◌≡◌, refl, sym, ap, ◌∙◌, true, false, ◌==◌, arith, put, Bool-cases, inl,
  inr, ℤ,
}
use lapis.Semaphore.{
  State, Step, Reachable, Waiting, idle, loaded, take, load, won, lost, signal, start, next,
  semaphore_init,
}

-- Every value that a processor has loaded is positive, and what was given is there or was taken.
pub record IsBalanced (count : ℤ) (s : State) : Type 0 where
  pub positive : (me old : ℕ) → s.places me ≡ loaded old → 0 < old
  pub sum : s.value + s.waits ≡ semaphore_init count + s.signals

value_of : Waiting → ℕ
value_of idle = 1
value_of (loaded n) = n

put-positive :
    (f : ℕ → Waiting) (me : ℕ) (w : Waiting)
    → 0 < value_of w
    → ((a old : ℕ) → f a ≡ loaded old → 0 < old)
    → (a old : ℕ) → put f me w a ≡ loaded old
    → 0 < old
unfolding value_of put
put-positive f me w k h a old e = elim (Bool-cases (a == me)) [
  | inl t ↦ subst (λ n. 0 < n) (ap value_of (sym (chosen t) ∙ e)) k
  | inr t ↦ h a old (sym (other t) ∙ e)
]
  where
    chosen : (a == me) ≡ true → put f me w a ≡ w
    chosen t = rw t refl

    other : (a == me) ≡ false → put f me w a ≡ f a
    other t = rw t refl

taken :
    (old value waits : ℕ)
    → 0 < old
    → (take old value).0 ≡ true
    → (take old value).1 + suc waits ≡ value + waits
unfolding take
taken old value waits k e = ground arith

kept : (old value : ℕ) → (take old value).0 ≡ false → (take old value).1 ≡ value
unfolding take
kept old value e = ground arith

Step-IsBalanced : (count : ℤ) {s s' : State} → Step s s' → IsBalanced count s → IsBalanced count s'
unfolding value_of
Step-IsBalanced count {s} (load me at k) i = record {
  positive = put-positive s.places me (loaded s.value) k i.positive;
  sum = i.sum;
}
Step-IsBalanced count {s} (won me old at t) i = record {
  positive = put-positive s.places me idle (omega arith) i.positive;
  sum = taken old s.value s.waits (i.positive me old at) t ∙ i.sum;
}
Step-IsBalanced count {s} (lost me old at t) i = record {
  positive = put-positive s.places me idle (omega arith) i.positive;
  sum = rw (kept old s.value t) i.sum;
}
Step-IsBalanced count {s} (signal k) i = record {
  positive = i.positive;
  sum = one_more s.value s.waits (semaphore_init count) s.signals i.sum;
}
  where
    one_more : (v w n g : ℕ) → v + w ≡ n + g → (v + 1) + w ≡ n + suc g
    one_more v w n g e = omega arith

-- In every state that the steps reach from a fresh semaphore, the value and the waits that are over
-- are as many as the initial count and the signals.
pub reachable-IsBalanced : (count : ℤ) {s : State} → Reachable count s → IsBalanced count s
unfolding value_of
reachable-IsBalanced count start = record {
  positive = λ me old e. subst (λ n. 0 < n) (ap value_of e) (omega arith);
  sum = omega arith;
}
reachable-IsBalanced count (next r t) = Step-IsBalanced count t (reachable-IsBalanced count r)
