-- ===== src/Sched/Runqueue/Enqueue.antt =====
-- What queueing a thread does, field by field, and that it keeps the run queues sound.
use lapis.Base.{
  ℤ, negsuc, ltb, lt_of_test, none, some, ◌⊎◌, ◌≤◌, ℕ, suc, ◌<◌, ◌≡◌, refl, ◌≢◌, ◌∙◌, true, false,
  ◌==◌, List, [], ◌∷◌, ◌++◌, arith, if◌then◌else◌, has, mod32, add32, pos, test_self, test_ne,
  Bool-cases, inl, inr, eq_of_test,
}
use lapis.Sched.Thread.{ready, Store, set_state, set_last_cpu}
use lapis.Sched.Thread.Fields.{links}
use lapis.Sched.Mlfq.{Mlfq, mlfq_push}
use lapis.Sched.Mlfq.Fifo.{push-IsQueue}
use lapis.Sched.Mlfq.Touch.{push-Touched}
use lapis.Sched.Runqueue.{
  Runqueues, enqueue_on, push_on, sched_enqueue, chosen_cpu, wanted_cpu, sched_rq_for_cpu,
}
use lapis.Sched.Runqueue.Fields.{rqs}
use lapis.Sched.Runqueue.Inv.{
  Lists, is_at, set_list, total, Queues, Queues-set, Queues-frame, IsSched, elsewhere,
  not_elsewhere,
}
use lapis.Sched.Runqueue.Count.{count-append, small-append, length-total}

abbrev ready_at : (t c : ℕ) → Store → Store
ready_at t c st = set_last_cpu t c (set_state t ready st)

pub has_snoc : (b t : ℕ) (xs : List ℕ) → has b (xs ++ (t ∷ [])) ≡ true → (has b xs ≡ true) ⊎ (b ≡ t)
has_snoc b t [] h = inr (ground (arith, eq_of_test b t))
has_snoc b t (x ∷ xs) h = ground (arith, has_snoc b t xs)

pub apart : (b t : ℕ) (xs : List ℕ) → has b xs ≡ true → has t xs ≡ false → b ≢ t
apart b t xs h k e = cc

pub neither : (b t : ℕ) (xs : List ℕ) → b ≢ t → has b xs ≡ false → has b (t ∷ xs) ≡ false
neither b t xs e f = ground arith

pub room : {n m : ℕ} → n ≤ m → suc m < mod32 → suc n < mod32
room k l = omega arith

module _ (c t : ℕ) (s : Runqueues) where
  abbrev pushed : Mlfq × Store
  pushed = mlfq_push t ((s.rqs c).levels (s.threads t).priority_level) (ready_at t c s.threads)

  threads-enqueue : (enqueue_on c t s).threads ≡ pushed.1
  unfolding enqueue_on push_on
  threads-enqueue = simp (rqs, links)

  level-enqueue :
      (d k : ℕ)
      → ((enqueue_on c t s).rqs d).levels k
        ≡ (if is_at c (s.threads t).priority_level d k then pushed.0 else (s.rqs d).levels k)
  unfolding enqueue_on push_on
  level-enqueue d k = simp (rqs, links)

  nr_running-enqueue :
      (d : ℕ)
      → ((enqueue_on c t s).rqs d).nr_running
        ≡ (if d == c then add32 (s.rqs c).nr_running 1 else (s.rqs d).nr_running)
  unfolding enqueue_on push_on
  nr_running-enqueue d = simp (rqs, links)

  -- The queues as they are for the push: only the thread itself has changed.
  Queues-ready :
      (qs : Lists)
      → Queues (λ d k. (s.rqs d).levels k) s.threads qs
      → ((d k : ℕ) → has t (qs d k) ≡ false)
      → Queues (λ d k. (s.rqs d).levels k) (ready_at t c s.threads) qs
  Queues-ready qs i out =
      Queues-frame (λ d k. refl)
        (λ d k b h.
          let e = test_ne b t (apart b t (qs d k) h (out d k)) in
          (simp (links), simp (links), simp (links), simp (links, e)))
        i

  -- Queueing a thread that is in no queue keeps the run queues sound: the thread is last in the
  -- queue of its level.
  pub enqueue_on-IsSched :
      {qs : Lists}
      → IsSched s qs
      → t ≢ 0
      → (s.threads t).priority_level < 8
      → ((d k : ℕ) → has t (qs d k) ≡ false)
      → suc (total 8 (qs c)) < mod32
      → IsSched (enqueue_on c t s) (
          set_list c
            (s.threads t).priority_level
            (qs c (s.threads t).priority_level ++ (t ∷ []))
            qs)
  enqueue_on-IsSched {qs} i z lt out small =
      let l = (s.threads t).priority_level in
      let r = Queues-ready qs i.queues out in
      record {
        queues = rw threads-enqueue (
            Queues-set c l pushed.0 (t ∷ qs c l) (qs c l ++ (t ∷ [])) r
              (push-Touched t (r.queue c l))
              (λ d k b e h.
                neither b t (qs c l) (apart b t (qs d k) h (out d k)) (elsewhere r c l d k b e h))
              (push-IsQueue t (r.queue c l) z (out c l) (room (length-total 8 l (qs c) lt) small))
              (λ b h. elim (has_snoc b t (qs c l) h) [
                | inl w ↦ r.level c l b w
                | inr w ↦ rw w (simp links)
              ])
              (λ b h. elim (has_snoc b t (qs c l) h) [
                | inl w ↦ r.owner c l b w
                | inr w ↦ rw w (simp (links, test_self))
              ])
              (λ d k b e h. elim (has_snoc b t (qs c l) h) [
                | inl w ↦ not_elsewhere r c l d k b e w
                | inr w ↦ rw w (out d k)
              ])
              level-enqueue);
        count = count-append c l t qs lt _ _ nr_running-enqueue i.count small;
        small = small-append c l t qs lt i.small small;
      }

-- The processor chosen for a thread is one of those that run.
pub chosen_cpu-known : (t me : ℕ) (s : Runqueues) → me < s.nr_cpus → chosen_cpu t me s < s.nr_cpus
unfolding chosen_cpu sched_rq_for_cpu
chosen_cpu-known t me s k = known (wanted_cpu (s.threads t) me)
  where
    known : (z : ℤ) → elim (sched_rq_for_cpu z s.nr_cpus) [ none ↦ me | some c ↦ c ] < s.nr_cpus
    known (negsuc n) = k
    known (pos c) = elim (Bool-cases (ltb c s.nr_cpus)) [
      | inl e ↦ rw e (lt_of_test c s.nr_cpus e)
      | inr e ↦ rw e k
    ]

-- `sched_enqueue` in sound run queues whose counters have room, for a thread other than NULL that
-- is in no queue and has one of the eight levels, called on a processor that runs: the thread is
-- last in the queue of its level on a processor that runs, READY, and the run queues stay sound.
pub sched_enqueue-IsSched :
    (t me : ℕ) (s : Runqueues) (qs : Lists)
    → IsSched s qs
    → me < s.nr_cpus
    → t ≢ 0
    → (s.threads t).priority_level < 8
    → ((d k : ℕ) → has t (qs d k) ≡ false)
    → ((d : ℕ) → suc (total 8 (qs d)) < mod32)
    → (c : ℕ) × (c < s.nr_cpus)
      × (((sched_enqueue me t s).threads t).state ≡ ready)
      × IsSched (sched_enqueue me t s) (
          set_list c
            (s.threads t).priority_level
            (qs c (s.threads t).priority_level ++ (t ∷ []))
            qs)
unfolding sched_enqueue
sched_enqueue-IsSched t me s qs i k z lt out small =
    let c = chosen_cpu t me s in
    (
      c,
      chosen_cpu-known t me s k,
      rw (threads-enqueue c t s) (
          (push-Touched t
              ((Queues-ready c t s qs i.queues out).queue c (s.threads t).priority_level)).state
            t
          ∙ simp (links, test_self)),
      enqueue_on-IsSched c t s i z lt out (small c),
    )
