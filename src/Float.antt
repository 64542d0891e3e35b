-- ===== src/Float.antt =====
-- Go's `float64`: the type and the operations that the program uses are parameters, and what a
-- proof needs of them is a law of its own.
use acadock_monitoring.Prelude.Word
use acadock_monitoring.Prelude.Word.{Word, modulus, half}
use acadock_monitoring.Prelude.{◌+◌, ◌%◌, ◌<◌, Bool, Option, none, Bytes, ltb, ◌≡◌, arith}

pub record Float64 : Type 1 where
  pub F : Type 0
  -- The conversions `float64(x)` from an `int64`, by its bit pattern, and from a `uint64`.
  pub of_int64 : Word → F
  pub of_uint64 : Word → F
  pub add : F → F → F
  pub sub : F → F → F
  pub mul : F → F → F
  pub div : F → F → F
  pub lt : F → F → Bool
  -- The conversion `int64(x)`, as a bit pattern.
  pub to_int64 : F → Word
  pub exp : F → F
  -- What `fmt` reads a token of `%f` as.
  pub convert : Bytes → Option F

-- A conversion from an integer keeps the sign.
pub record KeepsSign (fl : Float64) : Type 0 where
  pub negative_of_int64 :
      (w : Word) → w < modulus → fl.lt (fl.of_int64 w) (fl.of_int64 0) ≡ Word.is_negative w
  pub positive_of_int64 :
      (w : Word) → w < modulus → fl.lt (fl.of_int64 0) (fl.of_int64 w) ≡ Word.is_positive w

-- Integers in place of floats, for runs on small numbers: the signed order, and the division that
-- truncates.
abbrev pub whole : Float64
whole = record {
  F = Word;
  of_int64 = λ w. w;
  of_uint64 = λ w. w;
  add = Word.add;
  sub = Word.sub;
  mul = Word.mul;
  div = λ a b. Word.quotient a b;
  lt = λ a b. ltb ((a + half) % modulus) ((b + half) % modulus);
  to_int64 = λ w. w;
  exp = λ w. 1;
  convert = λ _. none;
}

pub whole-KeepsSign : KeepsSign whole
whole-KeepsSign = record {
  negative_of_int64 = λ w h. ground arith;
  positive_of_int64 = λ w h. ground arith;
}
