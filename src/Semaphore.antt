-- ===== src/Semaphore.antt =====
-- kernel/src/util/semaphore.c: a counter that several processors wait on and signal, step by step. A
-- step is one access to the counter. The counter is at least 0 and stays below 2 ^ 31.
pub mod Balance
mod Tests
use lapis.Base.{
  ℕ, zero, suc, ◌+◌, ◌-◌, ◌<◌, ◌^◌, ◌≡◌, Bool, true, false, ◌==◌, if◌then◌else◌, put, ℤ, pos,
  negsuc,
}

unfoldable pub semaphore_init : ℤ → ℕ
semaphore_init (pos n) = n
semaphore_init (negsuc n) = 0

-- The compare-and-exchange of `old` and `old - 1`: whether it took one, and the counter.
unfoldable pub take : (old value : ℕ) → Bool × ℕ
take old value = if value == old then (true, old - 1) else (false, value)

-- Where a processor is: outside of the loops, or with the positive value that it has loaded.
pub data Waiting : Type 0 where
  idle : Waiting
  loaded : ℕ → Waiting

-- `waits` and `signals` count the waits that are over and the signals given.
pub record State : Type 0 where
  pub value : ℕ
  pub places : ℕ → Waiting
  pub waits : ℕ
  pub signals : ℕ

-- The steps of the processor `me`. Both waits load the counter and try to exchange it; when that
-- fails they load it again.
pub data Step : State → State → Type 0 where
  load :
      {s : State} (me : ℕ)
      → s.places me ≡ idle
      → 0 < s.value
      → Step s (record s { places = put s.places me (loaded s.value) })
  won :
      {s : State} (me old : ℕ)
      → s.places me ≡ loaded old
      → (take old s.value).0 ≡ true
      → Step s (record s {
        value = (take old s.value).1;
        places = put s.places me idle;
        waits = suc s.waits;
      })
  lost :
      {s : State} (me old : ℕ)
      → s.places me ≡ loaded old
      → (take old s.value).0 ≡ false
      → Step s (record s { value = (take old s.value).1; places = put s.places me idle })
  signal :
      {s : State}
      → s.value + 1 < 2 ^ 31
      → Step s (record s { value = s.value + 1; signals = suc s.signals })

abbrev pub fresh : ℤ → State
fresh count = record { value = semaphore_init count; places = λ me. idle; waits = 0; signals = 0 }

pub data Reachable (count : ℤ) : State → Type 0 where
  start : Reachable count (fresh count)
  next : {s s' : State} → Reachable count s → Step s s' → Reachable count s'
