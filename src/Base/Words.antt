-- ===== src/Base/Words.antt =====
-- Unsigned machine words: a `uint32_t` and a `uint64_t` are numbers below these moduli, and sums
-- and differences wrap.
use Prim.Native.Nat.{ℕ, ◌+◌, ◌-◌, ◌%◌, ◌^◌}

abbrev pub mod32 : ℕ
mod32 = 2 ^ 32

abbrev pub mod64 : ℕ
mod64 = 2 ^ 64

abbrev pub add32 : ℕ → ℕ → ℕ
add32 a b = (a + b) % mod32

abbrev pub sub32 : ℕ → ℕ → ℕ
sub32 a b = (a + mod32 - b) % mod32

abbrev pub add64 : ℕ → ℕ → ℕ
add64 a b = (a + b) % mod64

abbrev pub sub64 : ℕ → ℕ → ℕ
sub64 a b = (a + mod64 - b) % mod64
