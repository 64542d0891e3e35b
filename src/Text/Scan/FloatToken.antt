-- ===== src/Text/Scan/FloatToken.antt =====
-- What `%f` reads: a decimal number with a fraction is one token.
use acadock_monitoring.Prelude.{
  ℕ, ◌+◌, Bool, true, false, [], ◌∷◌, ◌++◌, append_assoc, append-nil, Option, some, none, Bytes,
  All, ◌==◌, ◌≡◌, ◌≢◌, refl, inl, inr, Bool-cases, ap, ◌∙◌, arith,
}
use acadock_monitoring.Text.Decimal.{IsDigit}
use acadock_monitoring.Text.Fields.{Marked}
use acadock_monitoring.Text.Scan.{
  done, operand, accept, accept_all, second_letter, after_nan, after_sign, after_inf, after_nought,
  is_decimal, either, word_of_three, float_fraction, fraction_digits, float_exponent,
  exponent_digits, float_digits, float_token, float_of, scan_float, Scanned, stopped, skip_blanks,
}
use acadock_monitoring.Text.Scan.RoundTrip.{plain}

accept_all-digits :
    (token w : Bytes) (c : ℕ) (space : Bool) (rest : Marked)
    → All IsDigit w
    → is_decimal c ≡ false
    → accept_all is_decimal token (plain w ++ (c, space) ∷ rest) ≡ (token ++ w, (c, space) ∷ rest)
unfolding accept_all
accept_all-digits token [] c space rest _ h = rw (h, append-nil token)
accept_all-digits token (d ∷ w) c space rest (p, ps) h =
    rw (accept_all-digits (token ++ d ∷ []) w c space rest ps h, append_assoc token (d ∷ []) w)
      (ground arith)

-- A decimal number with a fraction.
abbrev pub decimal : Bytes → Bytes → Bytes
decimal whole fraction = whole ++ b'.' ∷ fraction

abbrev pub behind_decimal : Bytes → Bytes → Marked → Marked
behind_decimal whole fraction rest =
    plain whole ++ (b'.', false) ∷ (plain fraction ++ (32, true) ∷ rest)

float_digits-decimal :
    (token whole fraction : Bytes) (rest : Marked)
    → All IsDigit whole
    → All IsDigit fraction
    → float_digits false token (behind_decimal whole fraction rest)
      ≡ (token ++ decimal whole fraction, (32, true) ∷ rest)
unfolding float_digits float_fraction fraction_digits float_exponent exponent_digits
float_digits-decimal token whole fraction rest p q =
    ap (float_fraction false)
      (accept_all-digits token whole b'.' false (plain fraction ++ (32, true) ∷ rest) p refl)
    ∙ ap (float_exponent false)
        (accept_all-digits (token ++ whole ++ b'.' ∷ []) fraction 32 true rest q refl)
    ∙ ap (λ (t : Bytes). (t, (32, true) ∷ rest))
        (append_assoc (token ++ whole) (b'.' ∷ []) fraction
          ∙ append_assoc token whole (b'.' ∷ fraction))

accept-no :
    (f : ℕ → Bool) (token : Bytes) (c : ℕ) (s : Marked)
    → f c ≡ false
    → accept f token ((c, false) ∷ s) ≡ (false, token, (c, false) ∷ s)
accept-no f token c s h = rw h

accept-yes :
    (f : ℕ → Bool) (token : Bytes) (c : ℕ) (s : Marked)
    → f c ≡ true
    → accept f token ((c, false) ∷ s) ≡ (true, token ++ c ∷ [], s)
accept-yes f token c s h = rw h

word_of_three-no :
    (f g h : ℕ → Bool) (token : Bytes) (c : ℕ) (s : Marked)
    → f c ≡ false
    → word_of_three f g h token ((c, false) ∷ s) ≡ (false, token, (c, false) ∷ s)
unfolding word_of_three second_letter
word_of_three-no f g h token c s e = rw e

either-no : (a b d : ℕ) → a ≢ d → b ≢ d → either a b d ≡ false
either-no a b d h k = ground arith

-- Behind a first 0 there is no x.
after_nought-decimal :
    (token whole fraction : Bytes) (rest : Marked)
    → All IsDigit whole
    → All IsDigit fraction
    → after_nought (true, token, behind_decimal whole fraction rest)
      ≡ (token ++ decimal whole fraction, (32, true) ∷ rest)
unfolding after_nought
after_nought-decimal token [] fraction rest q r = float_digits-decimal token [] fraction rest q r
after_nought-decimal token (c ∷ w) fraction rest (q, qs) r =
    rw (either-no b'x' b'X' c (λ e. omega (arith, e)) (λ e. omega (arith, e)))
      (float_digits-decimal token (c ∷ w) fraction rest (q, qs) r)

-- The token starts with a digit.
float_token-decimal :
    (d : ℕ) (whole fraction : Bytes) (rest : Marked)
    → IsDigit d
    → All IsDigit whole
    → All IsDigit fraction
    → float_token (behind_decimal (d ∷ whole) fraction rest)
      ≡ (decimal (d ∷ whole) fraction, (32, true) ∷ rest)
unfolding float_token after_nan after_sign after_inf after_nought
float_token-decimal d whole fraction rest p q r =
    let s : Marked = behind_decimal whole fraction rest in
    ap after_nan (
      word_of_three-no (either b'n' b'N') (either b'a' b'A') (either b'n' b'N') [] d s
        (either-no b'n' b'N' d (λ e. omega (arith, e)) (λ e. omega (arith, e))))
    ∙ ap after_sign (
        accept-no (either b'+' b'-') [] d s
          (either-no b'+' b'-' d (λ e. omega (arith, e)) (λ e. omega (arith, e))))
    ∙ ap after_inf (
        word_of_three-no (either b'i' b'I') (either b'n' b'N') (either b'f' b'F') [] d s
          (either-no b'i' b'I' d (λ e. omega (arith, e)) (λ e. omega (arith, e))))
    ∙ elim (Bool-cases (d == b'0')) [
      | inl nought ↦
          ap after_nought (accept-yes (λ c. c == b'0') [] d s nought)
          ∙ after_nought-decimal (d ∷ []) whole fraction rest q r
      | inr other ↦
          ap after_nought (accept-no (λ c. c == b'0') [] d s other)
          ∙ float_digits-decimal [] (d ∷ whole) fraction rest (p, q) r
    ]

scan_operand :
    {F : Type 0} (convert : Bytes → Option F) (n : ℕ) (s : Marked)
    → operand s ≡ some s
    → scan_float convert n s ≡ float_of convert n (float_token s)
unfolding scan_float
scan_operand convert n s h =
    ap
      (λ (o : Option Marked). elim o as (λ x. Scanned _) [
        | none ↦ stopped n
        | some r ↦ float_of convert n (float_token r)
      ])
      h

operand-digit : (d : ℕ) (s : Marked) → IsDigit d → operand ((d, false) ∷ s) ≡ some ((d, false) ∷ s)
unfolding operand skip_blanks
operand-digit d s p = ground arith

-- `%f` converts a decimal number with a fraction in front of a space, whole.
pub scan_float-decimal :
    {F : Type 0} (convert : Bytes → Option F) (d : ℕ) (whole fraction : Bytes) (rest : Marked)
    (x : F) (n : ℕ)
    → IsDigit d
    → All IsDigit whole
    → All IsDigit fraction
    → convert (decimal (d ∷ whole) fraction) ≡ some x
    → scan_float convert n (behind_decimal (d ∷ whole) fraction rest)
      ≡ done x (n + 1) ((32, true) ∷ rest)
unfolding float_of
scan_float-decimal convert d whole fraction rest x n p q r h =
    scan_operand convert n (behind_decimal (d ∷ whole) fraction rest) (operand-digit d _ p)
    ∙ ap (float_of convert n) (float_token-decimal d whole fraction rest p q r)
    ∙ rw (float_of, h)
