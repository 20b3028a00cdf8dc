-- ===== src/Base/Words.antt =====
-- The 32-bit `size_t` and `unsigned` of the kernel's machine.
use Prim.Native.Nat.{ℕ, ◌+◌, ◌-◌, ◌/◌, ◌%◌, ◌^◌}
use mathlib.Core.Bool.{Bool}
use project.Base.Tests.{ltb}

abbrev pub word_mod : ℕ
word_mod = 2 ^ 32

-- `a + b` and `a - b`, which wrap
abbrev pub add32 : ℕ → ℕ → ℕ
add32 a b = (a + b) % word_mod

abbrev pub sub32 : ℕ → ℕ → ℕ
sub32 a b = (a + word_mod - b) % word_mod

-- `DIV_ROUND_UP (x, step)` of lib/round.h
abbrev pub div_round_up : ℕ → ℕ → ℕ
div_round_up x step = sub32 (add32 x step) 1 / step

-- the bit pattern of the `int` -n
abbrev pub minus : ℕ → ℕ
minus n = word_mod - n

-- `a < b` between the `int`s of two bit patterns
abbrev pub slt : ℕ → ℕ → Bool
slt a b = ltb (add32 a (2 ^ 31)) (add32 b (2 ^ 31))
