-- ===== src/Prelude/Word.antt =====
-- C integers: an `int` or `unsigned` is its 32-bit pattern, an `unsigned long` its 64-bit pattern.
use c_operating_system.Prelude.Tests.{ltb, leb, if◌then◌else◌}
use Prim.Native.Nat.{ℕ, ◌+◌, ◌-◌, ◌*◌, ◌%◌, ◌^◌}
use mathlib.Core.Bool.{Bool}

-- `a + b`, `a - b` and `a * b` on `int` or `unsigned`, with wrap-around.
abbrev pub add32 : ℕ → ℕ → ℕ
add32 a b = (a + b) % 2 ^ 32

abbrev pub sub32 : ℕ → ℕ → ℕ
sub32 a b = (a + 2 ^ 32 - b) % 2 ^ 32

abbrev pub mul32 : ℕ → ℕ → ℕ
mul32 a b = a * b % 2 ^ 32

-- The sign of an `int`.
abbrev pub is_negative : ℕ → Bool
is_negative a = leb (2 ^ 31) a

-- The conversion of an `int` to `unsigned long`, which C makes where it compares the two.
abbrev pub ulong : ℕ → ℕ
ulong a = if ltb a (2 ^ 31) then a else a + (2 ^ 64 - 2 ^ 32)

-- Subtraction of `unsigned long`.
abbrev pub sub64 : ℕ → ℕ → ℕ
sub64 a b = (a + (2 ^ 64 - b)) % 2 ^ 64
