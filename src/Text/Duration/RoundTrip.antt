-- ===== src/Text/Duration/RoundTrip.antt =====
-- A duration is read back from its print: numbers, each with the name of a unit.
use acadock_monitoring.Prelude.Word.{Word, half}
use acadock_monitoring.Prelude.{
  ℕ, zero, suc, ◌+◌, ◌*◌, ◌<◌, ◌≤◌, false, List, [], ◌∷◌, ◌++◌, length-append, some, Bytes, All,
  bytes_eq, length, ltb, if◌then◌else◌, Outcome, ok, err, ◌>>=◌, ◌≡◌, ◌≢◌, refl, ap, ◌∙◌, arith,
}
use acadock_monitoring.Text.Decimal.{IsDigit, value, format_uint}
use acadock_monitoring.Text.Decimal.Format.{
  format_uint-ne-nil, format_uint-IsDigit, value-format_uint,
}
use acadock_monitoring.Text.Duration.{
  take_unit, with_unit, after_number, after_int, component, components, parse_duration,
  parse_unsigned, finish_duration, invalid_duration,
}
use acadock_monitoring.Text.Duration.Print.{
  IsUnitByte, TimeUnit, name, factor, print_parts, total, leading_int-digits, take_unit-name,
  name-IsUnitByte, lookup-name, name-eq-nil, value-fits, take_unit-print_parts, length-print_parts,
  append-ne-nil, nanosecond, microsecond, millisecond, second, minute, hour,
}

module _ (fraction : ℕ → ℕ → ℕ → Word) where
  with_unit-factor :
      (v : ℕ) (u : TimeUnit) (rest : Bytes)
      → v * factor u ≤ half
      → with_unit fraction v 0 0 (some (factor u)) rest ≡ ok (v * factor u, rest)
  unfolding with_unit
  with_unit-factor v nanosecond rest k = ground arith
  with_unit-factor v microsecond rest k = ground arith
  with_unit-factor v millisecond rest k = ground arith
  with_unit-factor v second rest k = ground arith
  with_unit-factor v minute rest k = ground arith
  with_unit-factor v hour rest k = ground arith

  after_number-name :
      (v : ℕ) (u : TimeUnit) (rest : Bytes)
      → v * factor u ≤ half
      → after_number fraction v 0 0 (name u, rest) ≡ ok (v * factor u, rest)
  unfolding after_number
  after_number-name v u rest k = rw (lookup-name u, name-eq-nil u) (with_unit-factor v u rest k)

  component-digits :
      (d : ℕ) (w t rest : Bytes)
      → IsDigit d
      → All IsDigit w
      → bytes_eq t [] ≡ false
      → All IsUnitByte t
      → value 0 (d ∷ w) ≤ half
      → component fraction ((d ∷ w) ++ (t ++ rest))
        ≡ after_number fraction (value 0 (d ∷ w)) 0 0 (take_unit (t ++ rest))
  unfolding component after_int bytes_eq
  component-digits d w [] rest p ps h q fits = cc
  component-digits d w (c ∷ t) rest p ps h ((no_point, no_digit), qs) fits =
      rw (leading_int-digits (d ∷ w) 0 c (t ++ rest) (p, ps) no_digit fits)
        (ground (arith, length-append w (c ∷ (t ++ rest))))

  component-part :
      (w : Bytes) (u : TimeUnit) (rest : Bytes)
      → w ≢ []
      → All IsDigit w
      → value 0 w * factor u ≤ half
      → take_unit rest ≡ ([], rest)
      → component fraction (w ++ (name u ++ rest)) ≡ ok (value 0 w * factor u, rest)
  component-part [] u rest h p fits behind = absurd (h refl)
  component-part (d ∷ w) u rest h (p, ps) fits behind =
      component-digits d w (name u) rest p ps (name-eq-nil u) (name-IsUnitByte u)
        (value-fits (value 0 (d ∷ w)) u fits)
      ∙ ap (after_number fraction (value 0 (d ∷ w)) 0 0)
          (take_unit-name (name u) rest (name-IsUnitByte u) behind)
      ∙ after_number-name (value 0 (d ∷ w)) u rest fits

  within :
      (t : Word) (rest : Bytes) (fuel : ℕ)
      → t ≤ half
      → (if ltb half t then err invalid_duration else components fraction fuel t rest)
        ≡ components fraction fuel t rest
  within t rest fuel h = ground arith

  components-part :
      (fuel : ℕ) (d : Word) (s : Bytes) (v : ℕ) (rest : Bytes)
      → s ≢ []
      → component fraction s ≡ ok (v, rest)
      → d + v ≤ half
      → components fraction (suc fuel) d s ≡ components fraction fuel (d + v) rest
  unfolding components
  components-part fuel d [] v rest h e fits = absurd (h refl)
  components-part fuel d (c ∷ s) v rest h e fits = rw e (
      ap
        (λ (t : Word). if ltb half t then err invalid_duration else components fraction fuel t rest)
        {y = d + v} (omega arith)
      ∙ within (d + v) rest fuel fits)

  components-print_parts :
      (parts : List (ℕ × TimeUnit)) (fuel : ℕ) (d : Word)
      → length parts ≤ fuel
      → d + total parts ≤ half
      → components fraction fuel d (print_parts parts) ≡ ok (d + total parts)
  unfolding print_parts components
  components-print_parts [] zero d h fits = ap ok {y = d + 0} (omega arith)
  components-print_parts [] (suc fuel) d h fits = ap ok {y = d + 0} (omega arith)
  components-print_parts ((n, u) ∷ parts) zero d h fits = absurd (omega (arith, h))
  components-print_parts ((n, u) ∷ parts) (suc fuel) d h fits =
      let v : ℕ = n * factor u in
      let small : n ≤ half = value-fits n u (omega (arith, fits)) in
      let spelled : value 0 (format_uint n) ≡ n = value-format_uint n (omega (arith, small)) in
      let rest = print_parts parts in
      components-part fuel d (format_uint n ++ (name u ++ rest)) v rest
        (append-ne-nil (format_uint n) (name u ++ rest) (format_uint-ne-nil n))
        (component-part (format_uint n) u rest (format_uint-ne-nil n) (format_uint-IsDigit n)
            (rw spelled (omega (arith, fits))) (take_unit-print_parts parts)
          ∙ ap (λ (k : ℕ). ok (k * factor u, rest)) spelled)
        (omega (arith, fits))
      ∙ components-print_parts parts fuel (d + v) (omega (arith, h)) (omega (arith, fits))
      ∙ ap ok {x = d + v + total parts} {y = d + (v + total parts)} (omega arith)

  parse_duration-digits :
      (w rest : Bytes)
      → w ≢ []
      → All IsDigit w
      → parse_duration fraction (w ++ rest) ≡ parse_unsigned fraction false (w ++ rest)
  unfolding parse_duration
  parse_duration-digits [] rest h p = absurd (h refl)
  parse_duration-digits (d ∷ w) rest h (p, ps) = ground arith

  parse_unsigned-long :
      (s : Bytes)
      → 2 ≤ length s
      → parse_unsigned fraction false s
        ≡ (components fraction (length s) 0 s >>= finish_duration false)
  unfolding parse_unsigned bytes_eq
  parse_unsigned-long [] h = absurd (omega (arith, h))
  parse_unsigned-long (c ∷ []) h = absurd (omega (arith, h))
  parse_unsigned-long (c ∷ d ∷ s) h = ground arith

  -- A print of at least one part, in digits and with its unit, is read as the sum of the parts in
  -- nanoseconds, if this is below 2 ^ 63.
  pub parse_duration-print_parts :
      (n : ℕ) (u : TimeUnit) (parts : List (ℕ × TimeUnit))
      → total ((n, u) ∷ parts) < half
      → parse_duration fraction (print_parts ((n, u) ∷ parts)) ≡ ok (total ((n, u) ∷ parts))
  unfolding print_parts finish_duration
  parse_duration-print_parts n u parts h =
      let text = print_parts ((n, u) ∷ parts) in
      parse_duration-digits (format_uint n) (name u ++ print_parts parts) (format_uint-ne-nil n)
        (format_uint-IsDigit n)
      ∙ parse_unsigned-long text (omega (arith, length-print_parts ((n, u) ∷ parts)))
      ∙ ap (λ (o : Outcome Word). o >>= finish_duration false)
          (components-print_parts ((n, u) ∷ parts) (length text) 0
            (omega (arith, length-print_parts ((n, u) ∷ parts))) (omega arith))
      ∙ ground arith
