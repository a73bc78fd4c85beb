-- ===== src/Sched/Runqueue/Fields.antt =====
-- The setters of the run queues, field by field: each changes one field of one run queue.
use lapis.Base.{ℕ, ◌≡◌, refl, Bool, arith, ◌==◌, ◌&&◌, if◌then◌else◌}
use lapis.Sched.Mlfq.{Mlfq}
use lapis.Sched.Runqueue.{Runqueues, on_rq, set_queue, set_nr_running, set_needs_resched}

module _ (c l : ℕ) (q : Mlfq) (s : Runqueues) where
  pub threads-set_queue : (set_queue c l q s).threads ≡ s.threads
  unfolding set_queue on_rq
  threads-set_queue = refl

  pub thread-set_queue : (b : ℕ) → (set_queue c l q s).threads b ≡ s.threads b
  unfolding set_queue on_rq
  thread-set_queue b = refl

  pub nr_cpus-set_queue : (set_queue c l q s).nr_cpus ≡ s.nr_cpus
  unfolding set_queue on_rq
  nr_cpus-set_queue = refl

  pub level-set_queue :
      (d k : ℕ)
      → ((set_queue c l q s).rqs d).levels k ≡ (if d == c && k == l then q else (s.rqs d).levels k)
  unfolding set_queue on_rq
  level-set_queue d k = ground arith

  pub nr_running-set_queue : (d : ℕ) → ((set_queue c l q s).rqs d).nr_running ≡ (s.rqs d).nr_running
  unfolding set_queue on_rq
  nr_running-set_queue d = ground arith

  pub last_boost-set_queue :
      (d : ℕ) → ((set_queue c l q s).rqs d).last_boost_ns ≡ (s.rqs d).last_boost_ns
  unfolding set_queue on_rq
  last_boost-set_queue d = ground arith

module _ (c n : ℕ) (s : Runqueues) where
  pub threads-set_nr : (set_nr_running c n s).threads ≡ s.threads
  unfolding set_nr_running on_rq
  threads-set_nr = refl

  pub thread-set_nr : (b : ℕ) → (set_nr_running c n s).threads b ≡ s.threads b
  unfolding set_nr_running on_rq
  thread-set_nr b = refl

  pub nr_cpus-set_nr : (set_nr_running c n s).nr_cpus ≡ s.nr_cpus
  unfolding set_nr_running on_rq
  nr_cpus-set_nr = refl

  pub level-set_nr : (d k : ℕ) → ((set_nr_running c n s).rqs d).levels k ≡ (s.rqs d).levels k
  unfolding set_nr_running on_rq
  level-set_nr d k = ground arith

  pub nr_running-set_nr :
      (d : ℕ)
      → ((set_nr_running c n s).rqs d).nr_running ≡ (if d == c then n else (s.rqs d).nr_running)
  unfolding set_nr_running on_rq
  nr_running-set_nr d = ground arith

  pub last_boost-set_nr :
      (d : ℕ) → ((set_nr_running c n s).rqs d).last_boost_ns ≡ (s.rqs d).last_boost_ns
  unfolding set_nr_running on_rq
  last_boost-set_nr d = ground arith

module _ (c : ℕ) (b : Bool) (s : Runqueues) where
  pub threads-set_resched : (set_needs_resched c b s).threads ≡ s.threads
  unfolding set_needs_resched on_rq
  threads-set_resched = refl

  pub thread-set_resched : (t : ℕ) → (set_needs_resched c b s).threads t ≡ s.threads t
  unfolding set_needs_resched on_rq
  thread-set_resched t = refl

  pub level-set_resched :
      (d k : ℕ) → ((set_needs_resched c b s).rqs d).levels k ≡ (s.rqs d).levels k
  unfolding set_needs_resched on_rq
  level-set_resched d k = ground arith

  pub nr_running-set_resched :
      (d : ℕ) → ((set_needs_resched c b s).rqs d).nr_running ≡ (s.rqs d).nr_running
  unfolding set_needs_resched on_rq
  nr_running-set_resched d = ground arith

pub ruleset rqs = (
  threads-set_queue, thread-set_queue, thread-set_nr, nr_cpus-set_queue, level-set_queue,
  nr_running-set_queue, last_boost-set_queue, threads-set_nr, nr_cpus-set_nr, level-set_nr,
  threads-set_resched, thread-set_resched, level-set_resched, nr_running-set_resched,
  nr_running-set_nr, last_boost-set_nr,
)
