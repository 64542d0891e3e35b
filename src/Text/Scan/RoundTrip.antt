-- ===== src/Text/Scan/RoundTrip.antt =====
-- What the operands of `Sscanf` read from plain text: a word, and the print of a number.
use acadock_monitoring.Prelude.{
  ℕ, ◌+◌, ◌≤◌, ◌<◌, Bool, true, false, [], ◌∷◌, ◌++◌, map, some, Bytes, All, ◌≡◌, ◌≢◌, refl, ap,
  arith,
}
use acadock_monitoring.Prelude.Word.{modulus}
use acadock_monitoring.Text.Decimal.{IsDigit, is_digit, format_uint, parse_uint}
use acadock_monitoring.Text.Decimal.Format.{format_uint-IsDigit, format_uint-ne-nil}
use acadock_monitoring.Text.Decimal.Parse.{parse_uint-format_uint}
use acadock_monitoring.Text.Fields.{Marked, mark, space_width, wide_space-ascii, byte_at}
use acadock_monitoring.Text.Scan.{
  Scanner, done, ◌>>=◌, skip_blanks, take_digits, take_word, operand, number_of, scan_uint,
  scan_string, scan_space,
}

-- A visible ASCII character.
abbrev pub IsPlain : ℕ → Type 0
IsPlain c = (33 ≤ c) × (c < 127)

abbrev pub plain : Bytes → Marked
plain s = map (λ c. (c, false)) s

-- A scanner that is done hands its result on.
pub done->>= {ℓ κ} :
    {A : Type ℓ} {B : Type κ} (m : Scanner A) (f : A → Scanner B) {n n' : ℕ} {s s' : Marked} {a : A}
    → m n s ≡ done a n' s'
    → (m >>= f) n s ≡ f a n' s'
done->>= m f h = rw (h, ◌>>=◌)

space_width-plain : (c : ℕ) (s : Bytes) → IsPlain c → space_width (c ∷ s) ≡ 0
unfolding space_width
space_width-plain c s h = ground (arith, wide_space-ascii c (byte_at 0 s) (byte_at 1 s))

pub mark-plain : (w s : Bytes) → All IsPlain w → mark 0 (w ++ s) ≡ plain w ++ mark 0 s
unfolding mark
mark-plain [] s _ = refl
mark-plain (c ∷ w) s (h, hs) =
    rw (space_width-plain c (w ++ s) h) (ap (◌∷◌ (c, false)) (mark-plain w s hs))

pub mark_space : (s : Bytes) → mark 0 (32 ∷ s) ≡ (32, true) ∷ mark 0 s
unfolding mark space_width
mark_space s = refl

pub mark_newline : mark 0 (10 ∷ []) ≡ (10, true) ∷ []
unfolding mark space_width
mark_newline = refl

pub IsDigit→IsPlain : (w : Bytes) → All IsDigit w → All IsPlain w
IsDigit→IsPlain [] _ = tt
IsDigit→IsPlain (c ∷ w) (h, hs) = ((omega arith, omega arith), IsDigit→IsPlain w hs)

pub format_uint-IsPlain : (n : ℕ) → All IsPlain (format_uint n)
format_uint-IsPlain n = IsDigit→IsPlain _ (format_uint-IsDigit n)

operand-plain :
    (w : Bytes) (rest : Marked)
    → w ≢ []
    → All IsPlain w
    → operand (plain w ++ rest) ≡ some (plain w ++ rest)
unfolding operand skip_blanks
operand-plain [] rest h _ = absurd (h refl)
operand-plain (c ∷ w) rest h (p, ps) = ground arith

take_digits-plain :
    (w : Bytes) (c : ℕ) (space : Bool) (rest : Marked)
    → All IsDigit w
    → is_digit c ≡ false
    → take_digits (plain w ++ (c, space) ∷ rest) ≡ (w, (c, space) ∷ rest)
unfolding take_digits
take_digits-plain [] c space rest _ h = rw h
take_digits-plain (d ∷ w) c space rest (p, ps) h =
    ground (arith, take_digits-plain w c space rest ps h)

take_word-plain :
    (w : Bytes) (c : ℕ) (rest : Marked)
    → take_word (plain w ++ (c, true) ∷ rest) ≡ (w, (c, true) ∷ rest)
unfolding take_word
take_word-plain [] c rest = refl
take_word-plain (d ∷ w) c rest = ground (arith, take_word-plain w c rest)

number_of_read :
    (p : Bytes × Marked) (w : Bytes) (r : Marked) (n v : ℕ)
    → p ≡ (w, r)
    → parse_uint w ≡ some v
    → number_of n p ≡ done v (n + 1) r
unfolding number_of
number_of_read p w r n v e h = rw e (rw (h, number_of))

-- `%d` reads a number back from its print, in front of anything but a digit.
pub scan_uint-format_uint :
    (v n c : ℕ) (space : Bool) (rest : Marked)
    → v < modulus
    → is_digit c ≡ false
    → scan_uint n (plain (format_uint v) ++ (c, space) ∷ rest) ≡ done v (n + 1) ((c, space) ∷ rest)
unfolding scan_uint number_of
scan_uint-format_uint v n c space rest fits h =
    rw
      (
        operand-plain _ ((c, space) ∷ rest) (format_uint-ne-nil v) (format_uint-IsPlain v),
        scan_uint,
      )
      (number_of_read _ _ _ n v (take_digits-plain _ c space rest (format_uint-IsDigit v) h)
        (parse_uint-format_uint v fits))

-- `%s` reads a word in front of a space.
pub scan_string-plain :
    (w : Bytes) (n c : ℕ) (rest : Marked)
    → w ≢ []
    → All IsPlain w
    → scan_string n (plain w ++ (c, true) ∷ rest) ≡ done w (n + 1) ((c, true) ∷ rest)
unfolding scan_string
scan_string-plain w n c rest h p =
    rw (operand-plain w ((c, true) ∷ rest) h p, scan_string, take_word-plain w c rest)

-- A space of the format passes over many spaces as over one.
pub scan_space-space :
    (n : ℕ) (s : Marked)
    → scan_space n ((32, true) ∷ (32, true) ∷ s) ≡ scan_space n ((32, true) ∷ s)
unfolding scan_space
scan_space-space n s = refl

-- A space of the format passes over one space of the text.
pub scan_space-plain :
    (w : Bytes) (n : ℕ) (rest : Marked)
    → w ≢ []
    → scan_space n ((32, true) ∷ plain w ++ rest) ≡ done tt n (plain w ++ rest)
unfolding scan_space
scan_space-plain [] n rest h = absurd (h refl)
scan_space-plain (c ∷ w) n rest h = refl
