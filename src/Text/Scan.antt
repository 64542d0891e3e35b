-- ===== src/Text/Scan.antt =====
-- `fmt.Sscanf`, for the formats of the program: verbs `%s`, `%d` (into a `uint64`) and `%f` (into a
-- `float64`), spaces and literal bytes. Spaces do not match a newline.
pub mod RoundTrip
pub mod Count
pub mod FloatToken
use acadock_monitoring.Prelude.{
  ℕ, zero, suc, ◌+◌, Bool, true, false, ◌&&◌, ◌||◌, List, [], ◌∷◌, ◌++◌, Option, none, some, Bytes,
  codes, leb, ◌==◌, if◌then◌else◌, ◌≡◌, refl,
}
use acadock_monitoring.Text.Decimal.{is_digit, parse_uint}
use acadock_monitoring.Text.Fields.{Marked, mark, space_width, wide_space}

-- What `Sscanf` knows: the operands stored so far are counted, also when it stops with an error.
pub data Scanned {ℓ} (A : Type ℓ) : Type ℓ where
  done : A → ℕ → Marked → Scanned A
  stopped : ℕ → Scanned A

abbrev pub Scanner {ℓ} : Type ℓ → Type ℓ
Scanner A = ℕ → Marked → Scanned A

infixl 5 ◌>>=◌ ◌>>◌
abbrev pub ◌>>=◌ {ℓ κ} : {A : Type ℓ} {B : Type κ} → Scanner A → (A → Scanner B) → Scanner B
◌>>=◌ m f n s = elim (m n s) [ done a n' s' ↦ f a n' s' | stopped n' ↦ stopped n' ]

abbrev pub ◌>>◌ {ℓ} : {B : Type ℓ} → Scanner (Unit {0}) → Scanner B → Scanner B
m >> k = m >>= λ _. k

abbrev pub pure {ℓ} : {A : Type ℓ} → A → Scanner A
pure a n s = done a n s

-- Spaces that are no newline are passed over.
skip_blanks : Marked → Marked
skip_blanks [] = []
skip_blanks ((c, space) ∷ s) =
    if space && (if c == b'\n' then false else true) then skip_blanks s else (c, space) ∷ s

abbrev at_newline : Marked → Bool
at_newline [] = false
at_newline ((c, _) ∷ s) = c == b'\n'

-- A space of the format: one space or more, or the end of the text.
match_space : Marked → Option Marked
match_space [] = some []
match_space ((c, space) ∷ s) =
    if space && (if c == b'\n' then false else true) then some (skip_blanks s) else none

-- The loop `for s.accept(digits)`.
take_digits : Marked → Bytes × Marked
take_digits [] = ([], [])
take_digits ((c, space) ∷ s) =
    let (more, rest) = take_digits s in
    if is_digit c then (c ∷ more, rest) else ([], (c, space) ∷ s)

take_word : Marked → Bytes × Marked
take_word [] = ([], [])
take_word ((c, space) ∷ s) =
    let (more, rest) = take_word s in if space then ([], (c, space) ∷ s) else (c ∷ more, rest)

-- `SkipSpace` and `notEOF`, in front of each operand.
operand : Marked → Option Marked
unfolding skip_blanks
operand s = elim (skip_blanks s) [
  | [] ↦ none
  | c ∷ r ↦ if at_newline (c ∷ r) then none else some (c ∷ r)
]

unfoldable pub scan_space : Scanner (Unit {0})
unfolding match_space skip_blanks
scan_space n s = elim (match_space s) [ none ↦ stopped n | some r ↦ done tt n r ]

unfoldable pub scan_literal : ℕ → Scanner (Unit {0})
scan_literal c n [] = stopped n
scan_literal c n ((d, space) ∷ s) = if c == d then done tt n s else stopped n

number_of : ℕ → Bytes × Marked → Scanned ℕ
number_of n (digits, rest) = elim (parse_uint digits) [
  | none ↦ stopped n
  | some v ↦ done v (n + 1) rest
]

-- `%d` into a `*uint64`
unfoldable pub scan_uint : Scanner ℕ
unfolding operand take_digits number_of
scan_uint n s = elim (operand s) [ none ↦ stopped n | some r ↦ number_of n (take_digits r) ]

-- `%s` into a `*string`
unfoldable pub scan_string : Scanner Bytes
unfolding operand take_word
scan_string n s = elim (operand s) [
  | none ↦ stopped n
  | some r ↦ let (word, rest) = take_word r in done word (n + 1) rest
]

-- `accept(set)`: the token with the next byte if that is in the set, and whether it was.
abbrev accept : (ℕ → Bool) → Bytes → Marked → Bool × Bytes × Marked
accept p token [] = (false, token, [])
accept p token ((c, space) ∷ s) =
    if p c then (true, token ++ c ∷ [], s) else (false, token, (c, space) ∷ s)

accept_all : (ℕ → Bool) → Bytes → Marked → Bytes × Marked
accept_all p token [] = (token, [])
accept_all p token ((c, space) ∷ s) =
    let more = accept_all p (token ++ c ∷ []) s in if p c then more else (token, (c, space) ∷ s)

abbrev either : ℕ → ℕ → ℕ → Bool
either a b c = (c == a) || (c == b)

abbrev is_hex : ℕ → Bool
is_hex c = is_digit c || (leb b'a' c && leb c b'f') || (leb b'A' c && leb c b'F') || (c == b'_')

abbrev is_decimal : ℕ → Bool
is_decimal c = is_digit c || (c == b'_')

abbrev is_exponent : Bool → ℕ → Bool
is_exponent hex c =
    (c == b'p') || (c == b'P') || (if hex then false else (c == b'e') || (c == b'E'))

-- Three letters of a word such as `NaN`, each tried only if the one before was there.
third_letter : (ℕ → Bool) → Bool × Bytes × Marked → Bool × Bytes × Marked
third_letter r (second, t, s) = if second then accept r t s else (false, t, s)

second_letter : (ℕ → Bool) → (ℕ → Bool) → Bool × Bytes × Marked → Bool × Bytes × Marked
unfolding third_letter
second_letter q r (first, t, s) = if first then third_letter r (accept q t s) else (false, t, s)

word_of_three : (ℕ → Bool) → (ℕ → Bool) → (ℕ → Bool) → Bytes → Marked → Bool × Bytes × Marked
unfolding second_letter
word_of_three p q r token s = second_letter q r (accept p token s)

abbrev float_digit : Bool → ℕ → Bool
float_digit hex c = if hex then is_hex c else is_decimal c

-- The exponent of `floatToken`: a letter, a sign and digits.
exponent_digits : Bool × Bytes × Marked → Bytes × Marked
unfolding accept_all
exponent_digits (power, t, s) =
    let (_, t', s') = accept (either b'+' b'-') t s in
    if power then accept_all is_decimal t' s' else (t, s)

float_exponent : Bool → Bytes × Marked → Bytes × Marked
unfolding exponent_digits
float_exponent hex (t, s) = exponent_digits (accept (is_exponent hex) t s)

-- The digits behind a point.
fraction_digits : Bool → Bool × Bytes × Marked → Bytes × Marked
unfolding accept_all
fraction_digits hex (dot, t, s) = if dot then accept_all (float_digit hex) t s else (t, s)

float_fraction : Bool → Bytes × Marked → Bytes × Marked
unfolding fraction_digits float_exponent
float_fraction hex (t, s) = float_exponent hex (fraction_digits hex (accept (λ c. c == b'.') t s))

-- The digits, the fraction and the exponent of `floatToken`.
float_digits : Bool → Bytes → Marked → Bytes × Marked
unfolding accept_all float_fraction
float_digits hex token s = float_fraction hex (accept_all (float_digit hex) token s)

after_nought : Bool × Bytes × Marked → Bytes × Marked
unfolding float_digits
after_nought (nought, t, s) =
    let (x, t', s') = accept (either b'x' b'X') t s in
    if nought then float_digits x t' s' else float_digits false t s

after_inf : Bool × Bytes × Marked → Bytes × Marked
unfolding after_nought
after_inf (inf, t, s) = if inf then (t, s) else after_nought (accept (λ c. c == b'0') t s)

after_sign : Bool × Bytes × Marked → Bytes × Marked
unfolding after_inf word_of_three
after_sign (_, t, s) =
    after_inf (word_of_three (either b'i' b'I') (either b'n' b'N') (either b'f' b'F') t s)

after_nan : Bool × Bytes × Marked → Bytes × Marked
unfolding after_sign
after_nan (nan, t, s) = if nan then (t, s) else after_sign (accept (either b'+' b'-') t s)

-- `floatToken`
float_token : Marked → Bytes × Marked
unfolding word_of_three after_nan
float_token s =
    after_nan (word_of_three (either b'n' b'N') (either b'a' b'A') (either b'n' b'N') [] s)

float_of {ℓ} : {F : Type ℓ} → (Bytes → Option F) → ℕ → Bytes × Marked → Scanned F
float_of convert n (token, rest) = elim (convert token) [
  | none ↦ stopped n
  | some v ↦ done v (n + 1) rest
]

-- `%f` into a `*float64`: `convert` is `convertFloat`, which reads the token that was found.
unfoldable pub scan_float {ℓ} : {F : Type ℓ} → (Bytes → Option F) → Scanner F
unfolding operand float_token float_of
scan_float convert n s = elim (operand s) [
  | none ↦ stopped n
  | some r ↦ float_of convert n (float_token r)
]

-- `Sscanf(text, …)`
abbrev pub sscanf {ℓ} : {A : Type ℓ} → Scanner A → Bytes → Scanned A
sscanf m text = m 0 (mark 0 text)

a_float :
    sscanf (scan_float (λ token. some token)) (codes "1.76 4")
    ≡ done (codes "1.76") 1 (mark 0 (codes " 4"))
unfolding scan_float mark space_width wide_space
a_float = refl
