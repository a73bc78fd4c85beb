-- ===== src/Spinlock/Tests.antt =====
-- Two processors and a lock that one of them takes.
use lapis.Base.{put, ◌≡◌, refl, true}
use lapis.Spinlock.{
  State, Reachable, call, win, start, next, unlocked, move, spinning, won, try_lock, exchange,
}
use lapis.Spinlock.Exclusion.{IsExclusive, reachable-IsExclusive}

abbrev called : State
called = move 0 spinning unlocked.lock unlocked

called-Reachable : Reachable called
called-Reachable = next start (call 0 refl)

called-place : called.places 0 ≡ spinning
unfolding put
called-place = refl

called-wins : (try_lock called.lock).0 ≡ true
unfolding try_lock exchange
called-wins = refl

reachable-IsExclusive_example : IsExclusive (move 0 won (try_lock called.lock).1 called)
reachable-IsExclusive_example =
    reachable-IsExclusive (next called-Reachable (win 0 called-place called-wins))
