-- ===== src/Kfile/Tests.antt =====
-- A file of 100 bytes, at its start.
use lapis.Base.{ℕ, ◌≡◌, refl, true, false, arith, ℤ, pos, negsuc}
use lapis.Kfile.{Kfile, kwrite, write_offset, has_flag, o_append}
use lapis.Kfile.Offsets.{IsPlain, kwrite-append_twice}

abbrev file : Kfile
file = record { size = 100; flags = 2; offset = 0; private = 40 }

abbrev log : Kfile
log = record { size = 100; flags = 0x402; offset = 0; private = 40 }

file-IsPlain : IsPlain file
unfolding has_flag
file-IsPlain = record { not_read_end = refl; not_write_end = refl }

log-IsPlain : IsPlain log
unfolding has_flag
log-IsPlain = record { not_read_end = refl; not_write_end = refl }

-- A device that reads nothing, one that reads two bytes, and one that writes everything.
abbrev broken : ℕ → ℕ → ℕ → ℤ × ℕ
broken vn size offset = (negsuc 1, 0)

abbrev short : ℕ → ℕ → ℕ → ℤ × ℕ
short vn size offset = (pos 0, 2)

abbrev store : ℕ → ℕ → ℕ → ℤ
store vn size offset = pos 0

no_append : has_flag 2 o_append ≡ false
unfolding has_flag
no_append = refl

append : has_flag 0x402 o_append ≡ true
unfolding has_flag
append = refl

kwrite-append_twice_example :
    (write_offset log ≡ 100) × (write_offset (kwrite store 1 2 10 log).1 ≡ write_offset log)
kwrite-append_twice_example =
    kwrite-append_twice store 1 2 log log-IsPlain (omega arith) (omega arith) 10 append
      (omega arith) (omega arith) refl
