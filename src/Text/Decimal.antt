-- ===== src/Text/Decimal.antt =====
-- `strconv.FormatUint(n, 10)` and `strconv.ParseUint(s, 10, 64)`.
pub mod Format
pub mod Parse
pub mod Integer
use acadock_monitoring.Prelude.{
  ℕ, zero, suc, ◌+◌, ◌-◌, ◌*◌, ◌/◌, ◌%◌, ◌^◌, Bool, true, false, ◌&&◌, ◌||◌, List, [], ◌∷◌, Option,
  none, some, Bytes, codes, ltb, leb, if◌then◌else◌, ◌≡◌, refl, ◌≤◌,
}
use acadock_monitoring.Prelude.Word
use acadock_monitoring.Prelude.Word.{Word, modulus}

abbrev pub is_digit : ℕ → Bool
is_digit c = leb b'0' c && leb c b'9'

abbrev pub IsDigit : ℕ → Type 0
IsDigit c = (b'0' ≤ c) × (c ≤ b'9')

-- The digits of `n`, in front of `out`. A round writes the last digit of what is left.
digits : ℕ → ℕ → Bytes → Bytes
digits zero n out = out
digits (suc fuel) n out =
    let more = (b'0' + n % 10) ∷ out in
    elim (ltb n 10) [ true ↦ more | false ↦ digits fuel (n / 10) more ]

-- A `uint64` has at most 20 digits.
unfoldable pub format_uint : ℕ → Bytes
unfolding digits
format_uint n = digits 20 n []

-- `strconv.Itoa`, and `%v` of an `int`.
unfoldable pub format_int : Word → Bytes
unfolding format_uint
format_int w = if Word.is_negative w then b'-' ∷ format_uint (Word.magnitude w) else format_uint w

cutoff : ℕ
cutoff = (modulus - 1) / 10 + 1

-- The loop of `ParseUint`: `n` wraps around, and the two tests find out.
read_digits : Bytes → ℕ → Option ℕ
unfolding cutoff
read_digits [] n = some n
read_digits (c ∷ s) n =
    let shifted = n * 10 % modulus in
    let next = (shifted + (c - b'0')) % modulus in
    let rest = read_digits s next in
    if is_digit c then (if leb cutoff n || ltb next shifted then none else rest) else none

unfoldable pub parse_uint : Bytes → Option ℕ
unfolding read_digits
parse_uint [] = none
parse_uint (c ∷ s) = read_digits (c ∷ s) 0

-- The number with one more digit behind it.
abbrev pub append_digit : ℕ → ℕ → ℕ
append_digit n c = n * 10 + (c - b'0')

-- What digits spell behind `n`, however large.
abbrev pub value : ℕ → Bytes → ℕ
value n [] = n
value n (c ∷ s) = value (append_digit n c) s

largest :
    (format_uint (modulus - 1) ≡ codes "18446744073709551615")
    × (parse_uint (codes "18446744073709551615") ≡ some (modulus - 1))
    × (parse_uint (codes "18446744073709551616") ≡ none)
unfolding format_uint parse_uint
largest = (refl, refl, refl)
