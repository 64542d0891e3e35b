-- ===== src/Text/Duration/Print.antt =====
-- The print of a duration: numbers, each with the name of a unit; and what its bytes are.
use acadock_monitoring.Prelude.Word.{half}
use acadock_monitoring.Prelude.Dict
use acadock_monitoring.Prelude.{
  ℕ, ◌+◌, ◌*◌, ◌<◌, ◌≤◌, false, List, [], ◌∷◌, ◌++◌, length-append, some, Bytes, All, bytes_eq,
  length, ◌≡◌, ◌≢◌, refl, arith, codes,
}
use acadock_monitoring.Text.Decimal.{IsDigit, is_digit, append_digit, value, format_uint}
use acadock_monitoring.Text.Decimal.Parse.{append_digit-le-value}
use acadock_monitoring.Text.Decimal.Format.{format_uint-ne-nil, format_uint-IsDigit}
use acadock_monitoring.Text.Duration.{leading_int, take_unit, unit_map}

-- No digit and no point.
abbrev pub IsUnitByte : ℕ → Type 0
IsUnitByte c = (c ≢ b'.') × (is_digit c ≡ false)

pub data TimeUnit : Type 0 where
  nanosecond microsecond millisecond second minute hour : TimeUnit

abbrev pub name : TimeUnit → Bytes
name nanosecond = codes "ns"
name microsecond = codes "us"
name millisecond = codes "ms"
name second = codes "s"
name minute = codes "m"
name hour = codes "h"

-- In nanoseconds.
abbrev pub factor : TimeUnit → ℕ
factor nanosecond = 1
factor microsecond = 1000
factor millisecond = 1000000
factor second = 1000000000
factor minute = 60000000000
factor hour = 3600000000000

unfoldable pub print_parts : List (ℕ × TimeUnit) → Bytes
print_parts [] = []
print_parts ((n, u) ∷ parts) = format_uint n ++ (name u ++ print_parts parts)

abbrev pub total : List (ℕ × TimeUnit) → ℕ
total [] = 0
total ((n, u) ∷ parts) = n * factor u + total parts

pub leading_int-digits :
    (w : Bytes) (x c : ℕ) (s : Bytes)
    → All IsDigit w
    → is_digit c ≡ false
    → value x w ≤ half
    → leading_int (w ++ c ∷ s) x ≡ some (value x w, c ∷ s)
unfolding leading_int
leading_int-digits [] x c s p h k = rw h
leading_int-digits (d ∷ w) x c s (p, ps) h k =
    ground (arith, append_digit-le-value x d w, leading_int-digits w (append_digit x d) c s ps h k)

pub take_unit-name :
    (w rest : Bytes)
    → All IsUnitByte w
    → take_unit rest ≡ ([], rest)
    → take_unit (w ++ rest) ≡ (w, rest)
unfolding take_unit
take_unit-name [] rest p h = h
take_unit-name (c ∷ w) rest (p, ps) h = ground (arith, take_unit-name w rest ps h)

pub name-IsUnitByte : (u : TimeUnit) → All IsUnitByte (name u)
name-IsUnitByte nanosecond =
    (((λ e. omega (arith, e)), refl), (((λ e. omega (arith, e)), refl), tt))
name-IsUnitByte microsecond =
    (((λ e. omega (arith, e)), refl), (((λ e. omega (arith, e)), refl), tt))
name-IsUnitByte millisecond =
    (((λ e. omega (arith, e)), refl), (((λ e. omega (arith, e)), refl), tt))
name-IsUnitByte second = (((λ e. omega (arith, e)), refl), tt)
name-IsUnitByte minute = (((λ e. omega (arith, e)), refl), tt)
name-IsUnitByte hour = (((λ e. omega (arith, e)), refl), tt)

pub lookup-name : (u : TimeUnit) → Dict.lookup (name u) unit_map ≡ some (factor u)
unfolding Dict.lookup bytes_eq
lookup-name nanosecond = refl
lookup-name microsecond = refl
lookup-name millisecond = refl
lookup-name second = refl
lookup-name minute = refl
lookup-name hour = refl

pub name-eq-nil : (u : TimeUnit) → bytes_eq (name u) [] ≡ false
unfolding bytes_eq
name-eq-nil nanosecond = refl
name-eq-nil microsecond = refl
name-eq-nil millisecond = refl
name-eq-nil second = refl
name-eq-nil minute = refl
name-eq-nil hour = refl

pub value-fits : (v : ℕ) (u : TimeUnit) → v * factor u ≤ half → v ≤ half
value-fits v nanosecond h = omega arith
value-fits v microsecond h = omega arith
value-fits v millisecond h = omega arith
value-fits v second h = omega arith
value-fits v minute h = omega arith
value-fits v hour h = omega arith

-- A print of parts starts with a digit, or is empty.
pub take_unit-digits :
    (w rest : Bytes) → w ≢ [] → All IsDigit w → take_unit (w ++ rest) ≡ ([], w ++ rest)
unfolding take_unit
take_unit-digits [] rest h p = absurd (h refl)
take_unit-digits (d ∷ w) rest h (p, ps) = ground arith

pub take_unit-print_parts :
    (parts : List (ℕ × TimeUnit)) → take_unit (print_parts parts) ≡ ([], print_parts parts)
unfolding print_parts take_unit
take_unit-print_parts [] = refl
take_unit-print_parts ((n, u) ∷ parts) =
    take_unit-digits (format_uint n) (name u ++ print_parts parts) (format_uint-ne-nil n)
      (format_uint-IsDigit n)

pub length-pos : (w : Bytes) → w ≢ [] → 0 < length w
length-pos [] h = absurd (h refl)
length-pos (c ∷ w) h = omega arith

pub length-name : (u : TimeUnit) → 0 < length (name u)
length-name nanosecond = omega arith
length-name microsecond = omega arith
length-name millisecond = omega arith
length-name second = omega arith
length-name minute = omega arith
length-name hour = omega arith

pub length-print_parts :
    (parts : List (ℕ × TimeUnit)) → length parts + length parts ≤ length (print_parts parts)
unfolding print_parts
length-print_parts [] = omega arith
length-print_parts ((n, u) ∷ parts) = omega (
  arith,
  length-append (format_uint n) (name u ++ print_parts parts),
  length-append (name u) (print_parts parts),
  length-pos (format_uint n) (format_uint-ne-nil n),
  length-name u,
  length-print_parts parts,
)

pub append-ne-nil : (w rest : Bytes) → w ≢ [] → w ++ rest ≢ []
append-ne-nil [] rest h = absurd (h refl)
append-ne-nil (c ∷ w) rest h = λ e. cc
