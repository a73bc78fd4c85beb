-- ===== src/Sched/WaitQueue/Fields.antt =====
-- The links of the nodes of the wait queues, for `simp`.
use lapis.Base.{ℕ, ◌≡◌, Bool, arith, ◌==◌, if◌then◌else◌, put, Bool-cases, inl, inr}
use lapis.Sched.Thread.{Store, set_wait_next, set_wait_prev, set_woken}

module _ (t v : ℕ) (st : Store) (b : ℕ) where
  pub wait_next-set_wait_next :
      (set_wait_next t v st b).wait_next ≡ (if b == t then v else (st b).wait_next)
  unfolding set_wait_next put
  wait_next-set_wait_next = ground arith

  pub wait_prev-set_wait_next : (set_wait_next t v st b).wait_prev ≡ (st b).wait_prev
  unfolding set_wait_next put
  wait_prev-set_wait_next = ground arith

module _ (t v : ℕ) (st : Store) (b : ℕ) where
  pub wait_next-set_wait_prev : (set_wait_prev t v st b).wait_next ≡ (st b).wait_next
  unfolding set_wait_prev put
  wait_next-set_wait_prev = ground arith

  pub wait_prev-set_wait_prev :
      (set_wait_prev t v st b).wait_prev ≡ (if b == t then v else (st b).wait_prev)
  unfolding set_wait_prev put
  wait_prev-set_wait_prev = ground arith

module _ (t : ℕ) (v : Bool) (st : Store) (b : ℕ) where
  pub wait_next-set_woken : (set_woken t v st b).wait_next ≡ (st b).wait_next
  unfolding set_woken put
  wait_next-set_woken = ground arith

  pub wait_prev-set_woken : (set_woken t v st b).wait_prev ≡ (st b).wait_prev
  unfolding set_woken put
  wait_prev-set_woken = ground arith

-- A field of a conditional store.
module _ (c : Bool) (s t : Store) (b : ℕ) where
  pub wait_next-if :
      ((if c then s else t) b).wait_next ≡ (if c then (s b).wait_next else (t b).wait_next)
  wait_next-if = elim (Bool-cases c) [ inl e ↦ simp (e) | inr e ↦ simp (e) ]

  pub wait_prev-if :
      ((if c then s else t) b).wait_prev ≡ (if c then (s b).wait_prev else (t b).wait_prev)
  wait_prev-if = elim (Bool-cases c) [ inl e ↦ simp (e) | inr e ↦ simp (e) ]

pub ruleset nodes = (
  wait_next-set_wait_next, wait_prev-set_wait_next, wait_next-set_wait_prev,
  wait_prev-set_wait_prev, wait_next-set_woken, wait_prev-set_woken, wait_next-if, wait_prev-if,
)
