-- ===== src/Base/Words.antt =====
-- Machine words: `uintptr_t` and `size_t` are numbers below `2 ^ 64`, an `int` is its bit pattern
-- below `2 ^ 32`, and every operation that can leave the range is reduced.
use Prim.Native.Nat.{ℕ, ◌+◌, ◌-◌, ◌%◌, ◌^◌}
use librave.Base.Tests.{ltb, if◌then◌else◌}

abbrev pub word_mod : ℕ
word_mod = 2 ^ 64

abbrev pub int_mod : ℕ
int_mod = 2 ^ 32

-- `a + b` and `a - b` on `uintptr_t` and `size_t`.
abbrev pub add64 : ℕ → ℕ → ℕ
add64 a b = (a + b) % 2 ^ 64

abbrev pub sub64 : ℕ → ℕ → ℕ
sub64 a b = (a + 2 ^ 64 - b) % 2 ^ 64

-- The conversion of a 64-bit value to `int` keeps the low 32 bits.
abbrev pub to_int : ℕ → ℕ
to_int a = a % 2 ^ 32

-- The conversion of an `int` to a 64-bit unsigned type repeats the sign bit.
abbrev pub sign_extend : ℕ → ℕ
sign_extend a = if ltb a (2 ^ 31) then a else a + (2 ^ 64 - 2 ^ 32)
