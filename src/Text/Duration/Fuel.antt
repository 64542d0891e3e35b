-- ===== src/Text/Duration/Fuel.antt =====
-- Each round of the loop takes a byte: the length of the text is fuel enough.
use acadock_monitoring.Prelude.Word
use acadock_monitoring.Prelude.Word.{Word, half}
use acadock_monitoring.Prelude.Dict
use acadock_monitoring.Prelude.{
  ℕ, zero, suc, ◌+◌, ◌-◌, ◌/◌, ◌<◌, ◌≤◌, Bool, true, false, not, ◌&&◌, ◌||◌, [], ◌∷◌, Option, none,
  some, Bytes, bytes_eq, length, ltb, ◌==◌, if◌then◌else◌, Outcome, ok, err, panic, if-ne-panic,
  ◌>>=◌, inl, inr, Bool-cases, ◌≡◌, ◌≢◌, refl, arith, codes,
}
use acadock_monitoring.Text.Decimal.{is_digit, append_digit}
use acadock_monitoring.Text.Duration.{
  leading_int, leading_fraction, take_unit, with_unit, after_number, after_point, after_int,
  component, components, unit_map, invalid_duration, parse_duration, parse_unsigned,
  finish_duration,
}

-- What is left is shorter than a text of a length, and nothing panics.
abbrev IsShorter : ℕ → Outcome (ℕ × Bytes) → Type 0
IsShorter n (ok (v, rest)) = length rest < n
IsShorter n (err e) = Unit
IsShorter n panic = ⊥

abbrev RestIsShort : ℕ → Option (ℕ × Bytes) → Type 0
RestIsShort n (some (v, rest)) = length rest ≤ n
RestIsShort n none = Unit

leading_int-RestIsShort : (s : Bytes) (x : ℕ) → RestIsShort (length s) (leading_int s x)
unfolding leading_int
leading_int-RestIsShort [] x = omega arith
leading_int-RestIsShort (c ∷ s) x =
    go (is_digit c) (ltb (half / 10) x || ltb half (append_digit x c))
      (leading_int s (append_digit x c)) (leading_int-RestIsShort s (append_digit x c))
  where
    go :
        (digit over : Bool) (o : Option (ℕ × Bytes))
        → RestIsShort (length s) o
        → RestIsShort
            (length (c ∷ s))
            (if digit then (if over then none else o) else some (x, c ∷ s))
    go false over o h = omega arith
    go true true o h = tt
    go true false none h = tt
    go true false (some (v, rest)) h = omega arith

leading_fraction-length :
    (overflow : Bool) (s : Bytes) (x scale : ℕ)
    → length (leading_fraction overflow s x scale).2 ≤ length s
unfolding leading_fraction
leading_fraction-length overflow [] x scale = omega arith
leading_fraction-length overflow (c ∷ s) x scale = ground (
  arith,
  leading_fraction-length true s x scale,
  leading_fraction-length false s (append_digit x c) (suc scale),
)

take_unit-length : (s : Bytes) → length (take_unit s).0 + length (take_unit s).1 ≡ length s
unfolding take_unit
take_unit-length [] = refl
take_unit-length (c ∷ s) = ground (arith, take_unit-length s)

module _ (fraction : ℕ → ℕ → ℕ → Word) where
  with_unit-IsShorter :
      (v f scale n : ℕ) (unit : Option ℕ) (rest : Bytes)
      → length rest < n
      → IsShorter n (with_unit fraction v f scale unit rest)
  unfolding with_unit
  with_unit-IsShorter v f scale n none rest h = tt
  with_unit-IsShorter v f scale n (some unit) rest h = ground arith

  after_number-IsShorter :
      (v f scale : ℕ) (s : Bytes)
      → IsShorter (length s) (after_number fraction v f scale (take_unit s))
  unfolding after_number bytes_eq
  after_number-IsShorter v f scale s = go (take_unit s).0 (take_unit s).1 (take_unit-length s)
    where
      go :
          (unit rest : Bytes)
          → length unit + length rest ≡ length s
          → IsShorter (length s) (after_number fraction v f scale (unit, rest))
      go [] rest h = tt
      go (c ∷ unit) rest h =
          with_unit-IsShorter v f scale (length s) (Dict.lookup (c ∷ unit) unit_map) rest
            (omega arith)

  IsShorter-le : (n k : ℕ) (o : Outcome (ℕ × Bytes)) → n ≤ k → IsShorter n o → IsShorter k o
  IsShorter-le n k (ok (v, rest)) h p = omega arith
  IsShorter-le n k (err e) h p = tt
  IsShorter-le n k panic h p = p

  after_point-IsShorter :
      (v : ℕ) (pre : Bool) (len n : ℕ) (p : ℕ × ℕ × Bytes)
      → length p.2 ≤ n
      → IsShorter n (after_point fraction v pre len p)
  unfolding after_point
  after_point-IsShorter v pre len n (f, scale, rest) h =
      let next =
        IsShorter-le (length rest) n (after_number fraction v f scale (take_unit rest)) h
          (after_number-IsShorter v f scale rest) in
      elim (Bool-cases (not pre && (length rest == len))) [
        | inl none_read ↦ rw none_read tt
        | inr some_read ↦ rw some_read next
      ]

  after_int-IsShorter :
      (len n : ℕ) (o : Option (ℕ × Bytes))
      → RestIsShort n o
      → IsShorter n (after_int fraction len o)
  unfolding after_int
  after_int-IsShorter len n none h = tt
  after_int-IsShorter len n (some (v, [])) h = tt
  after_int-IsShorter len n (some (v, c ∷ s)) h =
      let point =
        after_point-IsShorter v (not (length (c ∷ s) == len)) (length s) n
          (leading_fraction false s 0 0) (omega (arith, leading_fraction-length false s 0 0)) in
      let plain =
        IsShorter-le (length (c ∷ s)) n (after_number fraction v 0 0 (take_unit (c ∷ s))) h
          (after_number-IsShorter v 0 0 (c ∷ s)) in
      go (c == b'.') (not (length (c ∷ s) == len)) _ _ point plain
    where
      go :
          (dot pre : Bool) (a b : Outcome (ℕ × Bytes))
          → IsShorter n a
          → IsShorter n b
          → IsShorter n (if dot then a else if pre then b else err invalid_duration)
      go true pre a b p q = p
      go false true a b p q = q
      go false false a b p q = tt

  component-IsShorter : (s : Bytes) → IsShorter (length s) (component fraction s)
  unfolding component
  component-IsShorter [] = tt
  component-IsShorter (c ∷ s) =
      let next =
        after_int-IsShorter (length (c ∷ s)) (length (c ∷ s)) (leading_int (c ∷ s) 0)
          (leading_int-RestIsShort (c ∷ s) 0) in
      elim (Bool-cases ((c == b'.') || is_digit c)) [
        | inl number ↦ rw number next
        | inr other ↦ rw other tt
      ]

  -- The loop behind a component.
  goes_on : ℕ → Word → ℕ × Bytes → Outcome Word
  goes_on fuel d (v, rest) =
      if ltb half (Word.add d v)
      then err invalid_duration
      else components fraction fuel (Word.add d v) rest

  -- Two fuels that are enough give the same, which is an end.
  EndsAlike : Outcome Word → Outcome Word → Type 0
  EndsAlike a b = (a ≢ panic) × (a ≡ b)

  components-EndsAlike :
      (j k : ℕ) (d : Word) (s : Bytes)
      → length s ≤ j
      → length s ≤ k
      → EndsAlike (components fraction j d s) (components fraction k d s)
  unfolding components goes_on EndsAlike
  components-EndsAlike zero zero d [] h i = ((λ e. cc), refl)
  components-EndsAlike zero (suc k) d [] h i = ((λ e. cc), refl)
  components-EndsAlike (suc j) zero d [] h i = ((λ e. cc), refl)
  components-EndsAlike (suc j) (suc k) d [] h i = ((λ e. cc), refl)
  components-EndsAlike zero k d (c ∷ s) h i = absurd (omega (arith, h))
  components-EndsAlike (suc j) zero d (c ∷ s) h i = absurd (omega (arith, i))
  components-EndsAlike (suc j) (suc k) d (c ∷ s) h i =
      go (component fraction (c ∷ s)) (component-IsShorter (c ∷ s))
        (λ v rest p q. components-EndsAlike j k (Word.add d v) rest p q)
    where
      round :
          (over : Bool) (a b : Outcome Word)
          → EndsAlike a b
          → EndsAlike
              (if over then err invalid_duration else a)
              (if over then err invalid_duration else b)
      round true a b e = ((λ q. cc), refl)
      round false a b e = e

      go :
          (o : Outcome (ℕ × Bytes))
          → IsShorter (length (c ∷ s)) o
          → ((v : ℕ) (rest : Bytes)
              → length rest ≤ j
              → length rest ≤ k
              → EndsAlike
                  (components fraction j (Word.add d v) rest)
                  (components fraction k (Word.add d v) rest))
          → EndsAlike (o >>= goes_on j d) (o >>= goes_on k d)
      go (ok (v, rest)) p ih =
          round (ltb half (Word.add d v)) _ _
            (ih v rest (omega (arith, p, h)) (omega (arith, p, i)))
      go (err e) p ih = ((λ q. cc), refl)
      go panic p ih = absurd p

  -- With the length of the text as fuel the loop comes to an end, and more fuel changes nothing.
  pub components-fuel :
      (fuel : ℕ) (d : Word) (s : Bytes)
      → length s ≤ fuel
      → (components fraction fuel d s ≢ panic)
        × (components fraction fuel d s ≡ components fraction (length s) d s)
  unfolding EndsAlike
  components-fuel fuel d s h = components-EndsAlike fuel (length s) d s h (omega arith)

  finish_duration-ne-panic :
      (neg : Bool) (o : Outcome Word) → o ≢ panic → (o >>= finish_duration neg) ≢ panic
  unfolding finish_duration
  finish_duration-ne-panic true (ok d) h e = cc
  finish_duration-ne-panic false (ok d) h e =
      if-ne-panic (ltb (half - 1) d) (err invalid_duration) (ok d) (λ x. cc) (λ x. cc) e
  finish_duration-ne-panic neg (err x) h e = cc
  finish_duration-ne-panic neg panic h e = h refl

  parse_unsigned-ne-panic : (neg : Bool) (s : Bytes) → parse_unsigned fraction neg s ≢ panic
  unfolding parse_unsigned
  parse_unsigned-ne-panic neg s =
      let looped =
        finish_duration-ne-panic neg (components fraction (length s) 0 s)
          (components-fuel (length s) 0 s (omega arith)).0 in
      if-ne-panic (bytes_eq s (codes "0")) _ _ (λ e. cc)
        (if-ne-panic (bytes_eq s []) (err invalid_duration) _ (λ e. cc) looped)

  -- Every text is a duration or an error.
  pub parse_duration-ne-panic : (s : Bytes) → parse_duration fraction s ≢ panic
  unfolding parse_duration
  parse_duration-ne-panic [] = parse_unsigned-ne-panic false []
  parse_duration-ne-panic (c ∷ s) = if-ne-panic (c == b'-') _ _ (parse_unsigned-ne-panic true s) (
      if-ne-panic (c == b'+') _ _ (parse_unsigned-ne-panic false s)
        (parse_unsigned-ne-panic false (c ∷ s)))
