-- ===== src/Text/Duration.antt =====
-- `time.ParseDuration`: numbers with a unit, one behind the other. What the fraction of a number adds
-- is computed in floats and is a parameter.
pub mod Fuel
pub mod Print
pub mod RoundTrip
use acadock_monitoring.Prelude.Word
use acadock_monitoring.Prelude.Word.{Word, half}
use acadock_monitoring.Prelude.Dict
use acadock_monitoring.Prelude.{
  ℕ, zero, suc, ◌+◌, ◌-◌, ◌*◌, ◌/◌, Bool, true, false, not, ◌&&◌, ◌||◌, List, [], ◌∷◌, Option, none,
  some, Bytes, codes, bytes_eq, length, ltb, ◌==◌, if◌then◌else◌, Error, message, Outcome, ok, err,
  panic, ◌>>=◌, StringMap, ◌≡◌, refl,
}
use acadock_monitoring.Text.Decimal.{is_digit, append_digit}

abbrev pub invalid_duration : Error
invalid_duration = message (codes "time: invalid duration")

abbrev pub missing_unit : Error
missing_unit = message (codes "time: missing unit in duration")

abbrev pub unknown_unit : Error
unknown_unit = message (codes "time: unknown unit in duration")

-- `unitMap`: two characters stand for micro, in UTF-8.
abbrev pub unit_map : StringMap ℕ
unit_map =
    (codes "ns", 1)
    ∷ (codes "us", 1000)
    ∷ (194 ∷ 181 ∷ b's' ∷ [], 1000)
    ∷ (206 ∷ 188 ∷ b's' ∷ [], 1000)
    ∷ (codes "ms", 1000000)
    ∷ (codes "s", 1000000000)
    ∷ (codes "m", 60000000000)
    ∷ (codes "h", 3600000000000)
    ∷ []

-- `leadingInt`: the number and what stands behind it, or nothing if it overflows.
pub leading_int : Bytes → ℕ → Option (ℕ × Bytes)
leading_int [] x = some (x, [])
leading_int (c ∷ s) x =
    let rest = leading_int s (append_digit x c) in
    if is_digit c
    then (if ltb (half / 10) x || ltb half (append_digit x c) then none else rest)
    else some (x, c ∷ s)

-- `leadingFraction`: digits behind those that fit are passed over. The scale is 10 to the power of
-- the second number.
pub leading_fraction : Bool → Bytes → ℕ → ℕ → ℕ × ℕ × Bytes
leading_fraction overflow [] x scale = (x, scale, [])
leading_fraction overflow (c ∷ s) x scale =
    let over = overflow || ltb ((half - 1) / 10) x || ltb half (append_digit x c) in
    let passed = leading_fraction true s x scale in
    let taken = leading_fraction false s (append_digit x c) (suc scale) in
    if is_digit c then (if over then passed else taken) else (x, scale, c ∷ s)

-- The bytes in front of the next digit or point.
pub take_unit : Bytes → Bytes × Bytes
take_unit [] = ([], [])
take_unit (c ∷ s) =
    let (more, rest) = take_unit s in
    if (c == b'.') || is_digit c then ([], c ∷ s) else (c ∷ more, rest)

pub finish_duration : Bool → Word → Outcome Word
finish_duration neg d =
    if neg then ok (Word.sub 0 d) else if ltb (half - 1) d then err invalid_duration else ok d

module _ (fraction : ℕ → ℕ → ℕ → Word) where
  -- `v *= unit`, with what the fraction adds.
  pub with_unit : ℕ → ℕ → ℕ → Option ℕ → Bytes → Outcome (ℕ × Bytes)
  with_unit v f scale none rest = err unknown_unit
  with_unit v f scale (some unit) rest =
      let whole = v * unit in
      let total = Word.add whole (fraction f scale unit) in
      if ltb (half / unit) v
      then err invalid_duration
      else if ltb 0 f
      then (if ltb half total then err invalid_duration else ok (total, rest))
      else ok (whole, rest)

  pub after_number : ℕ → ℕ → ℕ → Bytes × Bytes → Outcome (ℕ × Bytes)
  after_number v f scale (unit, rest) =
      if bytes_eq unit []
      then err missing_unit
      else with_unit v f scale (Dict.lookup unit unit_map) rest

  -- Behind the point; `pre` tells whether there was a digit in front of it.
  pub after_point : ℕ → Bool → ℕ → ℕ × ℕ × Bytes → Outcome (ℕ × Bytes)
  after_point v pre len (f, scale, rest) =
      if not pre && (length rest == len)
      then err invalid_duration
      else after_number v f scale (take_unit rest)

  pub after_int : ℕ → Option (ℕ × Bytes) → Outcome (ℕ × Bytes)
  after_int len none = err invalid_duration
  after_int len (some (v, [])) = err missing_unit
  after_int len (some (v, c ∷ s)) =
      let pre = not (length (c ∷ s) == len) in
      if c == b'.'
      then after_point v pre (length s) (leading_fraction false s 0 0)
      else if pre
      then after_number v 0 0 (take_unit (c ∷ s))
      else err invalid_duration

  -- A round of the loop: a number with its unit, and the rest of the text.
  pub component : Bytes → Outcome (ℕ × Bytes)
  component [] = err invalid_duration
  component (c ∷ s) =
      if (c == b'.') || is_digit c
      then after_int (length (c ∷ s)) (leading_int (c ∷ s) 0)
      else err invalid_duration

  -- `d += v`
  pub components : ℕ → Word → Bytes → Outcome Word
  components fuel d [] = ok d
  components zero d (c ∷ s) = panic
  components (suc fuel) d (c ∷ s) = do
    (v, rest) ← component (c ∷ s)
    if ltb half (Word.add d v) then err invalid_duration else components fuel (Word.add d v) rest

  -- Behind the sign. Each round of the loop takes a byte, so that the length is fuel enough.
  pub parse_unsigned : Bool → Bytes → Outcome Word
  parse_unsigned neg s =
      if bytes_eq s (codes "0")
      then ok 0
      else if bytes_eq s []
      then err invalid_duration
      else components (length s) 0 s >>= finish_duration neg

  unfoldable pub parse_duration : Bytes → Outcome Word
  unfolding parse_unsigned finish_duration components component after_int leading_int after_point
      leading_fraction after_number take_unit with_unit
  parse_duration [] = parse_unsigned false []
  parse_duration (c ∷ s) =
      if c == b'-'
      then parse_unsigned true s
      else if c == b'+'
      then parse_unsigned false s
      else parse_unsigned false (c ∷ s)

abbrev no_fraction : ℕ → ℕ → ℕ → Word
no_fraction f scale unit = 0

duration_test :
    (parse_duration no_fraction (codes "20s") ≡ ok (20 * 1000000000))
    × (parse_duration no_fraction (codes "1h30m") ≡ ok (5400 * 1000000000))
    × (parse_duration no_fraction (codes "-2ms") ≡ ok (Word.sub 0 2000000))
    × (parse_duration no_fraction (codes "20") ≡ err missing_unit)
    × (parse_duration no_fraction (codes "20x") ≡ err unknown_unit)
unfolding parse_duration Dict.lookup bytes_eq
duration_test = (refl, refl, refl, refl, refl)
