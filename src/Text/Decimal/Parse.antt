-- ===== src/Text/Decimal/Parse.antt =====
-- What `ParseUint` accepts: one or more digits whose value fits 64 bits, and it returns that value.
use acadock_monitoring.Prelude.{
  ℕ, ◌<◌, ◌≤◌, Bytes, [], ◌∷◌, some, ◌≡◌, ◌≢◌, refl, ◌∙◌, arith, All, ap,
}
use acadock_monitoring.Prelude.Word.{modulus}
use acadock_monitoring.Text.Decimal.{
  IsDigit, append_digit, read_digits, parse_uint, format_uint, value,
}
use acadock_monitoring.Text.Decimal.Format.{
  value-format_uint, format_uint-IsDigit, format_uint-ne-nil,
}

pub append_digit-le-value : (n c : ℕ) (s : Bytes) → append_digit n c ≤ value n (c ∷ s)
append_digit-le-value n c [] = omega arith
append_digit-le-value n c (d ∷ s) = omega (arith, append_digit-le-value (append_digit n c) d s)

-- What the loop returns for a text, behind a number that fits: the value if it is all digits and
-- fits too.
read_digits-value :
    (n : ℕ) (s : Bytes) → value n s < modulus → All IsDigit s → read_digits s n ≡ some (value n s)
unfolding read_digits
read_digits-value n [] fits _ = refl
read_digits-value n (c ∷ s) fits (digit, more) =
    ground (arith, append_digit-le-value n c s, read_digits-value (append_digit n c) s fits more)

pub parse_uint-value :
    (s : Bytes) → value 0 s < modulus → All IsDigit s → s ≢ [] → parse_uint s ≡ some (value 0 s)
unfolding parse_uint
parse_uint-value (c ∷ s) fits spelled _ = read_digits-value 0 (c ∷ s) fits spelled
parse_uint-value [] fits spelled nonempty = absurd (nonempty refl)

-- Every `uint64` is read back from its print.
pub parse_uint-format_uint : (n : ℕ) → n < modulus → parse_uint (format_uint n) ≡ some n
parse_uint-format_uint n h =
    let e = value-format_uint n h in
    parse_uint-value (format_uint n) (rw e h) (format_uint-IsDigit n) (format_uint-ne-nil n)
    ∙ ap some e

-- The loop accepts nothing but digits, and its wrap-around tests keep the true value.
value-read_digits :
    (n : ℕ) (s : Bytes) {result : ℕ}
    → read_digits s n ≡ some result
    → n < modulus
    → (value n s ≡ result) × (result < modulus) × All IsDigit s
unfolding read_digits
value-read_digits n [] found fits = ground arith
value-read_digits n (c ∷ s) {result} found fits =
    ground (arith, value-read_digits (append_digit n c) s {result = result})

-- An accepted text is digits, and its true value is returned: nothing wrapped around.
pub value-parse_uint :
    (s : Bytes) {result : ℕ}
    → parse_uint s ≡ some result
    → (value 0 s ≡ result) × (result < modulus) × All IsDigit s
unfolding parse_uint
value-parse_uint (c ∷ s) found = value-read_digits 0 (c ∷ s) found (omega arith)
value-parse_uint [] found = cc
