-- ===== src/Memory.antt =====
-- kernel/src/util/memory.c: the routines on bytes and strings. The memory holds bytes by address.
pub mod Copy
pub mod Strings
mod Tests
use lapis.Base.{
  ◌>>=◌, ℕ, zero, suc, ◌+◌, ◌-◌, ◌%◌, Bool, true, false, Option, some, none, ◌==◌, ◌&&◌,
  if◌then◌else◌, ltb, put, ℤ, pos, negsuc,
}

abbrev pub Bytes : Type 0
Bytes = ℕ → ℕ

-- A loop that copies `n` bytes upwards, and one that copies them downwards.
unfoldable pub copy_up : (n dest src : ℕ) → Bytes → Bytes
copy_up zero dest src mem = mem
copy_up (suc n) dest src mem = copy_up n (suc dest) (suc src) (put mem dest (mem src))

unfoldable pub copy_down : (n dest src : ℕ) → Bytes → Bytes
copy_down zero dest src mem = mem
copy_down (suc n) dest src mem = copy_down n dest src (put mem (dest + n) (mem (src + n)))

unfoldable pub memcpy : (dest src n : ℕ) → Bytes → Bytes
memcpy dest src n mem = copy_up n dest src mem

unfoldable pub memset : (s c n : ℕ) → Bytes → Bytes
memset s c zero mem = mem
memset s c (suc n) mem = memset (suc s) c n (put mem s (c % 256))

unfoldable pub memmove : (dest src n : ℕ) → Bytes → Bytes
memmove dest src n mem =
    if ltb dest src
    then copy_up n dest src mem
    else if ltb src dest
    then copy_down n dest src mem
    else mem

unfoldable pub memcmp : (s1 s2 n : ℕ) → Bytes → ℤ
memcmp s1 s2 zero mem = pos 0
memcmp s1 s2 (suc n) mem =
    let rest = memcmp (suc s1) (suc s2) n mem in
    if mem s1 == mem s2 then rest else if ltb (mem s1) (mem s2) then negsuc 0 else pos 1

-- The difference of two bytes as an `int`.
unfoldable pub difference : ℕ → ℕ → ℤ
difference a b = if ltb a b then negsuc (b - a - 1) else pos (a - b)

-- The loops over strings run on fuel; `none` when it runs out.
unfoldable pub strcmp : (fuel s1 s2 : ℕ) → Bytes → Option ℤ
strcmp zero s1 s2 mem = none
strcmp (suc n) s1 s2 mem =
    let rest = strcmp n (suc s1) (suc s2) mem in
    if mem s1 == 0
    then some (difference (mem s1) (mem s2))
    else if mem s1 == mem s2
    then rest
    else some (difference (mem s1) (mem s2))

unfoldable pub strncmp : (s1 s2 n : ℕ) → Bytes → ℤ
strncmp s1 s2 zero mem = pos 0
strncmp s1 s2 (suc n) mem =
    let rest = strncmp (suc s1) (suc s2) n mem in
    if mem s1 == mem s2 then (if mem s1 == 0 then pos 0 else rest) else difference (mem s1) (mem s2)

unfoldable pub strlen : (fuel str : ℕ) → Bytes → Option ℕ
strlen zero str mem = none
strlen (suc n) str mem =
    let rest = strlen n (suc str) mem in if mem str == 0 then some 0 else rest >>= λ l. some (suc l)

unfoldable pub strcpy : (fuel dest src : ℕ) → Bytes → Option Bytes
strcpy zero dest src mem = none
strcpy (suc n) dest src mem =
    let rest = strcpy n (suc dest) (suc src) (put mem dest (mem src)) in
    if mem src == 0 then some (put mem dest 0) else rest

unfoldable pub strncpy : (dest src n : ℕ) → Bytes → Bytes
strncpy dest src zero mem = mem
strncpy dest src (suc n) mem =
    let rest = strncpy (suc dest) (suc src) n (put mem dest (mem src)) in
    if mem src == 0 then put mem dest 0 else rest

unfoldable pub strcat : (fuel dest src : ℕ) → Bytes → Option Bytes
strcat fuel dest src mem = strlen fuel dest mem >>= λ l. strcpy fuel (dest + l) src mem

-- The address found, or NULL.
unfoldable pub strchr : (fuel str c : ℕ) → Bytes → Option ℕ
strchr zero str c mem = none
strchr (suc n) str c mem =
    let rest = strchr n (suc str) c mem in
    if mem str == 0
    then some (if c == 0 then str else 0)
    else if mem str == c % 256
    then some str
    else rest

unfoldable pub strrchr_from : (fuel str c last : ℕ) → Bytes → Option ℕ
strrchr_from zero str c last mem = none
strrchr_from (suc n) str c last mem =
    let rest = strrchr_from n (suc str) c (if mem str == c % 256 then str else last) mem in
    if mem str == 0 then some (if c == 0 then str else last) else rest

unfoldable pub strrchr : (fuel s c : ℕ) → Bytes → Option ℕ
strrchr fuel s c mem = strrchr_from fuel s c 0 mem
