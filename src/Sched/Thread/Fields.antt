-- ===== src/Sched/Thread/Fields.antt =====
-- The fields of the threads that the scheduler reads, for `simp`: each setter changes one field of
-- one thread.
use lapis.Base.{ℕ, ◌≡◌, Bool, arith, ◌==◌, if◌then◌else◌, put, Bool-cases, inl, inr, pos}
use lapis.Sched.Thread.{
  Store, ThreadState, set_rq_next, set_rq_prev, set_state, set_last_cpu, set_level,
}

module _ (t v : ℕ) (st : Store) (b : ℕ) where
  pub rq_next-set_rq_next : (set_rq_next t v st b).rq_next ≡ (if b == t then v else (st b).rq_next)
  unfolding set_rq_next put
  rq_next-set_rq_next = ground arith

  pub rq_prev-set_rq_next : (set_rq_next t v st b).rq_prev ≡ (st b).rq_prev
  unfolding set_rq_next put
  rq_prev-set_rq_next = ground arith

  pub state-set_rq_next : (set_rq_next t v st b).state ≡ (st b).state
  unfolding set_rq_next put
  state-set_rq_next = ground arith

  pub last_cpu-set_rq_next : (set_rq_next t v st b).last_cpu ≡ (st b).last_cpu
  unfolding set_rq_next put
  last_cpu-set_rq_next = ground arith

  pub priority_level-set_rq_next : (set_rq_next t v st b).priority_level ≡ (st b).priority_level
  unfolding set_rq_next put
  priority_level-set_rq_next = ground arith

module _ (t v : ℕ) (st : Store) (b : ℕ) where
  pub rq_next-set_rq_prev : (set_rq_prev t v st b).rq_next ≡ (st b).rq_next
  unfolding set_rq_prev put
  rq_next-set_rq_prev = ground arith

  pub rq_prev-set_rq_prev : (set_rq_prev t v st b).rq_prev ≡ (if b == t then v else (st b).rq_prev)
  unfolding set_rq_prev put
  rq_prev-set_rq_prev = ground arith

  pub state-set_rq_prev : (set_rq_prev t v st b).state ≡ (st b).state
  unfolding set_rq_prev put
  state-set_rq_prev = ground arith

  pub last_cpu-set_rq_prev : (set_rq_prev t v st b).last_cpu ≡ (st b).last_cpu
  unfolding set_rq_prev put
  last_cpu-set_rq_prev = ground arith

  pub priority_level-set_rq_prev : (set_rq_prev t v st b).priority_level ≡ (st b).priority_level
  unfolding set_rq_prev put
  priority_level-set_rq_prev = ground arith

module _ (t : ℕ) (v : ThreadState) (st : Store) (b : ℕ) where
  pub rq_next-set_state : (set_state t v st b).rq_next ≡ (st b).rq_next
  unfolding set_state put
  rq_next-set_state = ground arith

  pub rq_prev-set_state : (set_state t v st b).rq_prev ≡ (st b).rq_prev
  unfolding set_state put
  rq_prev-set_state = ground arith

  pub state-set_state : (set_state t v st b).state ≡ (if b == t then v else (st b).state)
  unfolding set_state put
  state-set_state = ground arith

  pub last_cpu-set_state : (set_state t v st b).last_cpu ≡ (st b).last_cpu
  unfolding set_state put
  last_cpu-set_state = ground arith

  pub priority_level-set_state : (set_state t v st b).priority_level ≡ (st b).priority_level
  unfolding set_state put
  priority_level-set_state = ground arith

module _ (t c : ℕ) (st : Store) (b : ℕ) where
  pub rq_next-set_last_cpu : (set_last_cpu t c st b).rq_next ≡ (st b).rq_next
  unfolding set_last_cpu put
  rq_next-set_last_cpu = ground arith

  pub rq_prev-set_last_cpu : (set_last_cpu t c st b).rq_prev ≡ (st b).rq_prev
  unfolding set_last_cpu put
  rq_prev-set_last_cpu = ground arith

  pub state-set_last_cpu : (set_last_cpu t c st b).state ≡ (st b).state
  unfolding set_last_cpu put
  state-set_last_cpu = ground arith

  pub last_cpu-set_last_cpu :
      (set_last_cpu t c st b).last_cpu ≡ (if b == t then pos c else (st b).last_cpu)
  unfolding set_last_cpu put
  last_cpu-set_last_cpu = ground arith

  pub priority_level-set_last_cpu : (set_last_cpu t c st b).priority_level ≡ (st b).priority_level
  unfolding set_last_cpu put
  priority_level-set_last_cpu = ground arith

module _ (t l n : ℕ) (st : Store) (b : ℕ) where
  pub rq_next-set_level : (set_level t l n st b).rq_next ≡ (st b).rq_next
  unfolding set_level put
  rq_next-set_level = ground arith

  pub rq_prev-set_level : (set_level t l n st b).rq_prev ≡ (st b).rq_prev
  unfolding set_level put
  rq_prev-set_level = ground arith

  pub state-set_level : (set_level t l n st b).state ≡ (st b).state
  unfolding set_level put
  state-set_level = ground arith

  pub last_cpu-set_level : (set_level t l n st b).last_cpu ≡ (st b).last_cpu
  unfolding set_level put
  last_cpu-set_level = ground arith

  pub priority_level-set_level :
      (set_level t l n st b).priority_level ≡ (if b == t then l else (st b).priority_level)
  unfolding set_level put
  priority_level-set_level = ground arith

-- A field of a conditional store.
module _ (c : Bool) (s t : Store) (b : ℕ) where
  pub rq_next-if : ((if c then s else t) b).rq_next ≡ (if c then (s b).rq_next else (t b).rq_next)
  rq_next-if = elim (Bool-cases c) [ inl e ↦ simp (e) | inr e ↦ simp (e) ]

  pub rq_prev-if : ((if c then s else t) b).rq_prev ≡ (if c then (s b).rq_prev else (t b).rq_prev)
  rq_prev-if = elim (Bool-cases c) [ inl e ↦ simp (e) | inr e ↦ simp (e) ]

  pub state-if : ((if c then s else t) b).state ≡ (if c then (s b).state else (t b).state)
  state-if = elim (Bool-cases c) [ inl e ↦ simp (e) | inr e ↦ simp (e) ]

  pub last_cpu-if :
      ((if c then s else t) b).last_cpu ≡ (if c then (s b).last_cpu else (t b).last_cpu)
  last_cpu-if = elim (Bool-cases c) [ inl e ↦ simp (e) | inr e ↦ simp (e) ]

  pub priority_level-if :
      ((if c then s else t) b).priority_level
      ≡ (if c then (s b).priority_level else (t b).priority_level)
  priority_level-if = elim (Bool-cases c) [ inl e ↦ simp (e) | inr e ↦ simp (e) ]

pub ruleset links = (
  rq_next-set_rq_next, rq_prev-set_rq_next, state-set_rq_next, last_cpu-set_rq_next,
  priority_level-set_rq_next, rq_next-set_rq_prev, rq_prev-set_rq_prev, state-set_rq_prev,
  last_cpu-set_rq_prev, priority_level-set_rq_prev, rq_next-set_state, rq_prev-set_state,
  state-set_state, last_cpu-set_state, priority_level-set_state, rq_next-set_last_cpu,
  rq_prev-set_last_cpu, state-set_last_cpu, last_cpu-set_last_cpu, priority_level-set_last_cpu,
  rq_next-set_level, rq_prev-set_level, state-set_level, last_cpu-set_level,
  priority_level-set_level, rq_next-if, rq_prev-if, state-if, last_cpu-if, priority_level-if,
)
