-- ===== src/Prelude/Words.antt =====
-- 32-bit words: `uintptr_t` and `size_t` of the ARM host.
use Prim.Native.Nat.{ℕ, ◌+◌, ◌-◌, ◌%◌, ◌^◌}

abbrev pub word_max : ℕ
word_max = 2 ^ 32 - 1

abbrev pub add32 : ℕ → ℕ → ℕ
add32 a b = (a + b) % 2 ^ 32

abbrev pub sub32 : ℕ → ℕ → ℕ
sub32 a b = (a + 2 ^ 32 - b) % 2 ^ 32
