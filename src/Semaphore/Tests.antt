-- ===== src/Semaphore/Tests.antt =====
-- A semaphore that starts at 2, and a processor that takes one.
use lapis.Base.{◌≡◌, refl, true, arith, put, pos}
use lapis.Semaphore.{
  State, Reachable, idle, loaded, load, won, start, next, fresh, take, semaphore_init,
}
use lapis.Semaphore.Balance.{IsBalanced, reachable-IsBalanced}

two : semaphore_init (pos 2) ≡ 2
unfolding semaphore_init
two = refl

abbrev seen : State
seen = record (fresh (pos 2)) {
  places = put (fresh (pos 2)).places 0 (loaded (semaphore_init (pos 2)));
}

seen-Reachable : Reachable (pos 2) seen
seen-Reachable = next start (load 0 refl (rw two (omega arith)))

seen-place : seen.places 0 ≡ loaded (semaphore_init (pos 2))
unfolding put
seen-place = refl

takes : (take (semaphore_init (pos 2)) seen.value).0 ≡ true
unfolding take semaphore_init
takes = refl

reachable-IsBalanced_example : IsBalanced (pos 2) (record seen {
  value = (take (semaphore_init (pos 2)) seen.value).1;
  places = put seen.places 0 idle;
  waits = 1;
})
reachable-IsBalanced_example =
    reachable-IsBalanced (pos 2)
      (next seen-Reachable (won 0 (semaphore_init (pos 2)) seen-place takes))
