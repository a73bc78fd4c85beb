-- ===== src/Memory/Tests.antt =====
-- A string of two bytes at the address 100.
use lapis.Base.{ℕ, ◌+◌, ◌≤◌, ◌≡◌, refl, ◌≢◌, [], ◌∷◌, arith, ◌==◌, if◌then◌else◌, pos}
use lapis.Memory.{Bytes, memmove, memcmp}
use lapis.Memory.Copy.{moved, memmove_lem}
use lapis.Memory.Strings.{StringAt}

abbrev text : Bytes
text a = if a == 100 then 72 else if a == 101 then 105 else 0

text-StringAt : StringAt text 100 (72 ∷ (105 ∷ []))
text-StringAt = (omega arith, refl, (omega arith, refl, refl))

memmove_lem_example : memmove 101 100 2 text 102 ≡ moved 101 100 2 text 102
memmove_lem_example = memmove_lem 101 100 2 102 text

zeros : memcmp 300 400 3 text ≡ pos 0
unfolding memcmp
zeros = refl

apart : (j : ℕ) → j ≤ 2 → 100 + j ≢ 200
apart j k e = omega arith
