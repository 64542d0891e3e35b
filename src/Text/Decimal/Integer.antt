-- ===== src/Text/Decimal/Integer.antt =====
-- `strconv.Atoi`, which is `ParseInt` in base 10 for 64 bits.
use acadock_monitoring.Prelude.Word
use acadock_monitoring.Prelude.Word.{Word, half}
use acadock_monitoring.Prelude.{
  ℕ, ◌<◌, Bool, true, false, [], ◌∷◌, Option, none, some, Bytes, codes, ltb, leb, ◌==◌,
  if◌then◌else◌, Error, message, Outcome, ok, err, panic, if-ne-panic, All, ◌≡◌, ◌≢◌, refl, ap, ◌∙◌,
  arith,
}
use acadock_monitoring.Text.Decimal.{IsDigit, parse_uint, format_uint}
use acadock_monitoring.Text.Decimal.Format.{format_uint-ne-nil, format_uint-IsDigit}
use acadock_monitoring.Text.Decimal.Parse.{parse_uint-format_uint}

abbrev pub invalid_number : Error
invalid_number = message (codes "strconv.Atoi")

-- The limits are those of an `int64`, by the sign.
of_magnitude : Bool → Option Word → Outcome Word
of_magnitude neg none = err invalid_number
of_magnitude false (some n) = if leb half n then err invalid_number else ok n
of_magnitude true (some n) = if ltb half n then err invalid_number else ok (Word.sub 0 n)

unfoldable pub atoi : Bytes → Outcome Word
unfolding of_magnitude parse_uint
atoi [] = err invalid_number
atoi (c ∷ s) =
    if c == b'-'
    then of_magnitude true (parse_uint s)
    else if c == b'+'
    then of_magnitude false (parse_uint s)
    else of_magnitude false (parse_uint (c ∷ s))

of_magnitude-ne-panic : (neg : Bool) (o : Option Word) → of_magnitude neg o ≢ panic
unfolding of_magnitude
of_magnitude-ne-panic neg none = λ h. cc
of_magnitude-ne-panic false (some n) =
    if-ne-panic (leb half n) (err invalid_number) (ok n) (λ h. cc) (λ h. cc)
of_magnitude-ne-panic true (some n) =
    if-ne-panic (ltb half n) (err invalid_number) _ (λ h. cc) (λ h. cc)

pub atoi-ne-panic : (s : Bytes) → atoi s ≢ panic
unfolding atoi
atoi-ne-panic [] = λ h. cc
atoi-ne-panic (c ∷ s) = if-ne-panic (c == b'-') _ _ (of_magnitude-ne-panic true (parse_uint s)) (
    if-ne-panic (c == b'+') _ _ (of_magnitude-ne-panic false (parse_uint s))
      (of_magnitude-ne-panic false (parse_uint (c ∷ s))))

atoi-digits : (w : Bytes) → w ≢ [] → All IsDigit w → atoi w ≡ of_magnitude false (parse_uint w)
unfolding atoi
atoi-digits [] h p = absurd (h refl)
atoi-digits (c ∷ w) h (p, ps) = ground arith

pub atoi-format_uint : (n : ℕ) → n < half → atoi (format_uint n) ≡ ok n
unfolding of_magnitude
atoi-format_uint n h =
    atoi-digits (format_uint n) (format_uint-ne-nil n) (format_uint-IsDigit n)
    ∙ ap (of_magnitude false) (parse_uint-format_uint n (omega arith))
    ∙ ground arith

atoi_test :
    (atoi (codes "-12") ≡ ok (Word.sub 0 12))
    × (atoi (codes "9223372036854775807") ≡ ok 9223372036854775807)
    × (atoi (codes "9223372036854775808") ≡ err invalid_number)
    × (atoi (codes "-9223372036854775808") ≡ ok half)
    × (atoi (codes "+") ≡ err invalid_number)
unfolding atoi
atoi_test = (refl, refl, refl, refl, refl)
