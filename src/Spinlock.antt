-- ===== src/Spinlock.antt =====
-- kernel/src/util/spinlock.c: a lock that several processors try to take, step by step. A step is
-- one access to the lock.
pub mod Exclusion
mod Tests
use lapis.Base.{ℕ, zero, suc, ◌≡◌, ◌≢◌, Bool, true, false, ◌==◌, if◌then◌else◌, put, ℤ, pos, negsuc}

-- `spinlock_t`, as far as the processors share it.
pub record Lock : Type 0 where
  pub locked : ℕ
  pub owner : ℤ

-- The compare-and-exchange of `spinlock_acquire`, by what it compares: whether it took the lock.
unfoldable pub exchange : Bool → Lock → Bool × Lock
exchange true l = (true, record l { locked = 1 })
exchange false l = (false, l)

unfoldable pub try_lock : Lock → Bool × Lock
try_lock l = exchange (l.locked == 0) l

unfoldable pub set_owner : ℤ → Lock → Lock
set_owner o l = record l { owner = o }

unfoldable pub unlock : Lock → Lock
unlock l = record l { locked = 0 }

-- Where a processor is: outside; in the loop of `spinlock_acquire`; behind its exchange; with the
-- lock; in `spinlock_release`, behind its write of the owner.
pub data Place : Type 0 where
  away spinning won holding leaving : Place

pub record State : Type 0 where
  pub lock : Lock
  pub places : ℕ → Place

abbrev pub move : ℕ → Place → Lock → State → State
move me p l s = record { lock = l; places = put s.places me p }

-- The steps of the processor `me`: `spinlock_acquire` is `call`, then `spin` until `win`, then
-- `own`; `spinlock_release` is `leave` and `free`.
pub data Step : State → State → Type 0 where
  call : {s : State} (me : ℕ) → s.places me ≡ away → Step s (move me spinning s.lock s)
  spin :
      {s : State} (me : ℕ)
      → s.places me ≡ spinning
      → (try_lock s.lock).0 ≡ false
      → Step s (move me spinning (try_lock s.lock).1 s)
  win :
      {s : State} (me : ℕ)
      → s.places me ≡ spinning
      → (try_lock s.lock).0 ≡ true
      → Step s (move me won (try_lock s.lock).1 s)
  own :
      {s : State} (me : ℕ)
      → s.places me ≡ won
      → Step s (move me holding (set_owner (pos me) s.lock) s)
  leave :
      {s : State} (me : ℕ)
      → s.places me ≡ holding
      → Step s (move me leaving (set_owner (negsuc 0) s.lock) s)
  free : {s : State} (me : ℕ) → s.places me ≡ leaving → Step s (move me away (unlock s.lock) s)

abbrev pub unlocked : State
unlocked = record { lock = record { locked = 0; owner = negsuc 0 }; places = λ me. away }

pub data Reachable : State → Type 0 where
  start : Reachable unlocked
  next : {s s' : State} → Reachable s → Step s s' → Reachable s'
