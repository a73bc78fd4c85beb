-- ===== src/Fd/Tests.antt =====
-- A descriptor table of three slots, the first of them open.
use lapis.Base.{ℕ, ◌<◌, ◌≡◌, refl, ◌≢◌, true, [], ◌∷◌, ◌==◌, if◌then◌else◌, arith, pos}
use lapis.Fd.{Fds, Entry, fd_file, slot, fdtable_install, fdtable_close}
use lapis.Fd.Refs.{slots, Counted}
use lapis.Fd.Ops.{close-Counted}
use lapis.Fd.Install.{install-lowest}

abbrev entry : ℕ → Entry
entry n = record { kind = fd_file; file = 800; dir_vnode = 0; dir_buf = 0; refcount = n }

abbrev start : Fds
start = record {
  tables = λ t. record { slots = 500 ∷ (0 ∷ (0 ∷ [])); refcount = 1 };
  entries = λ b. entry (if b == 500 then 1 else 0);
  events = [];
}

abbrev nobody : ℕ → ℕ
nobody b = 0

start-Counted : Counted 7 start nobody
start-Counted = record { refs = λ b y. ground arith; small = λ b y. ground arith }

install-lowest_example :
    (i : ℕ) × ((fdtable_install true 7 600 start).0 ≡ pos i)
    × (slot (slots 7 (fdtable_install true 7 600 start).1) i ≡ 600)
    × (slot (slots 7 start) i ≡ 0)
    × ((k : ℕ) → k < i → slot (slots 7 start) k ≢ 0)
    × ((k : ℕ)
        → k ≢ i
        → slot (slots 7 (fdtable_install true 7 600 start).1) k ≡ slot (slots 7 start) k)
install-lowest_example = install-lowest 7 600 start (omega arith) (omega arith) (omega arith)

held : slot (slots 7 start) 0 ≡ 500
unfolding slot
held = refl

close-Counted_example :
    ((fdtable_close 7 (pos 0) start).0 ≡ pos 0)
    × Counted 7 (fdtable_close 7 (pos 0) start).1 nobody
    × (slot (slots 7 (fdtable_close 7 (pos 0) start).1) 0 ≡ 0)
    × ((k : ℕ)
        → k ≢ 0
        → slot (slots 7 (fdtable_close 7 (pos 0) start).1) k ≡ slot (slots 7 start) k)
close-Counted_example =
    close-Counted 7 500 0 start (omega arith) (omega arith) held nobody start-Counted
