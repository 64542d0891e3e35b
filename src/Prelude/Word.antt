-- ===== src/Prelude/Word.antt =====
-- 64-bit words. A `uint64` is a number below 2 ^ 64; an `int64` and a `time.Duration` (nanoseconds)
-- are the bit pattern of their two's complement, so a conversion between the two is the identity.
use Prim.Native.Nat.{ℕ, ◌+◌, ◌-◌, ◌*◌, ◌/◌, ◌%◌, ◌^◌, ◌≤◌, ◌<◌}
use mathlib.Core.Bool.{Bool, ◌&&◌}
use mathlib.Core.Path.{◌≡◌}
use native.Mathlib.Omega.{arith}
use acadock_monitoring.Prelude.Tests.{ltb, leb, if◌then◌else◌}

abbrev pub Word : Type 0
Word = ℕ

abbrev pub modulus : ℕ
modulus = 2 ^ 64

abbrev pub half : ℕ
half = 2 ^ 63

abbrev pub add : Word → Word → Word
add a b = (a + b) % modulus

abbrev pub sub : Word → Word → Word
sub a b = (a + modulus - b) % modulus

abbrev pub mul : Word → Word → Word
mul a b = (a * b) % modulus

-- The sign of the integer that a bit pattern stands for.
abbrev pub is_negative : Word → Bool
is_negative a = leb half a

abbrev pub is_positive : Word → Bool
is_positive a = ltb 0 a && ltb a half

abbrev pub magnitude : Word → ℕ
magnitude a = if is_negative a then modulus - a else a

-- Go's signed division, which truncates towards zero, for a divisor that is not 0.
abbrev pub quotient : Word → Word → Word
quotient a b =
    let q : ℕ = magnitude a / magnitude b in
    if is_negative a
    then (if is_negative b then q % modulus else (modulus - q) % modulus)
    else (if is_negative b then (modulus - q) % modulus else q)

-- `a < b` for two signed integers.
abbrev pub signed_lt : Word → Word → Bool
signed_lt a b = ltb ((a + half) % modulus) ((b + half) % modulus)

pub sub-of_le : (a b : Word) → b ≤ a → a < modulus → sub a b ≡ a - b
sub-of_le a b h k = omega arith

pub sub_self : (a : Word) → sub a a ≡ 0
sub_self a = omega arith

pub signed_lt-of_small : (a b : Word) → a < half → b < half → signed_lt a b ≡ ltb a b
signed_lt-of_small a b h k = ground arith
