-- ===== src/Procfs/LoadAvg/Line.antt =====
-- A load average that the kernel prints is read back.
use acadock_monitoring.Prelude.{
  ℕ, ◌+◌, ◌<◌, true, false, List, [], ◌∷◌, ◌++◌, Option, some, Bytes, codes, All, All-append,
  map-append, append_assoc, Outcome, ok, ◌≡◌, ◌≢◌, refl, sym, ap, Bool, ◌∙◌, arith,
}
use acadock_monitoring.Prelude.Word.{Word, modulus}
use acadock_monitoring.Text.Decimal.{IsDigit, is_digit, format_uint}
use acadock_monitoring.Text.Decimal.Format.{format_uint-ne-nil}
use acadock_monitoring.Text.Fields.{Marked, mark}
use acadock_monitoring.Text.Lines.{File, complete_lines}
use acadock_monitoring.Text.Scan.{
  Scanned, done, sscanf, scan_space, scan_uint, scan_float, scan_literal, ◌>>◌,
}
use acadock_monitoring.Text.Scan.RoundTrip.{
  IsPlain, IsDigit→IsPlain, plain, mark-plain, mark_space, mark_newline, format_uint-IsPlain,
  scan_uint-format_uint, scan_space-plain, done->>=,
}
use acadock_monitoring.Text.Scan.FloatToken.{decimal, behind_decimal, scan_float-decimal}
use acadock_monitoring.Procfs.LoadAvg.{LoadAverage, scan_line, finish_line, first_line, read}

-- The print of a load: at least one digit, a point, and the digits behind it.
pub record Load : Type 0 where
  pub digit : ℕ
  pub whole : Bytes
  pub fraction : Bytes

abbrev pub IsLoad : Load → Type 0
IsLoad l = IsDigit l.digit × All IsDigit l.whole × All IsDigit l.fraction

abbrev pub print_load : Load → Bytes
print_load l = decimal (l.digit ∷ l.whole) l.fraction

IsLoad-IsPlain : (l : Load) → IsLoad l → All IsPlain (print_load l)
IsLoad-IsPlain l (p, q, r) =
    All-append IsPlain (l.digit ∷ l.whole) (b'.' ∷ l.fraction)
      (IsDigit→IsPlain (l.digit ∷ l.whole) (p, q))
      ((omega arith, omega arith), IsDigit→IsPlain l.fraction r)

-- The number of processes that run, of all, and the last process.
unfoldable pub print_counts : Word → Word → Word → Bytes
print_counts running total last =
    format_uint running ++ b'/' ∷ (format_uint total ++ 32 ∷ (format_uint last ++ b'\n' ∷ []))

-- The line of the kernel.
unfoldable pub print_line : Load → Load → Load → Word → Word → Word → Bytes
print_line l₁ l₅ l₁₀ running total last =
    print_load l₁
    ++ 32 ∷ (print_load l₅ ++ 32 ∷ (print_load l₁₀ ++ 32 ∷ print_counts running total last))

mark-load :
    (l : Load) (tail : Bytes)
    → IsLoad l
    → mark 0 (print_load l ++ 32 ∷ tail)
      ≡ behind_decimal (l.digit ∷ l.whole) l.fraction (mark 0 tail)
mark-load l tail h =
    mark-plain (print_load l) (32 ∷ tail) (IsLoad-IsPlain l h)
    ∙ ap (λ (m : Marked). plain (print_load l) ++ m) (mark_space tail)
    ∙ ap (λ (m : Marked). m ++ (32, true) ∷ mark 0 tail)
        (map-append (λ (c : ℕ). (c, false)) (l.digit ∷ l.whole) (b'.' ∷ l.fraction))
    ∙ append_assoc (plain (l.digit ∷ l.whole)) (plain (b'.' ∷ l.fraction))
        ((32, true) ∷ mark 0 tail)

scan_gap :
    (w tail : Bytes) (n : ℕ)
    → w ≢ []
    → All IsPlain w
    → scan_space n (mark 0 (32 ∷ (w ++ tail))) ≡ done tt n (mark 0 (w ++ tail))
scan_gap w tail n h p =
    rw (mark_space (w ++ tail), mark-plain w tail p) (scan_space-plain w n (mark 0 tail) h)

module _ {F : Type 0} (convert : Bytes → Option F) where
  scan_load :
      (l : Load) (x : F) (tail : Bytes) (n : ℕ)
      → IsLoad l
      → convert (print_load l) ≡ some x
      → scan_float convert n (mark 0 (print_load l ++ 32 ∷ tail))
        ≡ done x (n + 1) (mark 0 (32 ∷ tail))
  scan_load l x tail n (p, q, r) h =
      ap (scan_float convert n) (mark-load l tail (p, q, r))
      ∙ scan_float-decimal convert l.digit l.whole l.fraction (mark 0 tail) x n p q r h
      ∙ ap (λ (m : Marked). done x (n + 1) m) (sym (mark_space tail))

  next_load :
      (l : Load) (x : F) (tail : Bytes) (n : ℕ)
      → IsLoad l
      → convert (print_load l) ≡ some x
      → (scan_space >> scan_float convert) n (mark 0 (32 ∷ (print_load l ++ 32 ∷ tail)))
        ≡ done x (n + 1) (mark 0 (32 ∷ tail))
  next_load l x tail n h e =
      done->>= scan_space _ (scan_gap (print_load l) (32 ∷ tail) n (λ i. cc) (IsLoad-IsPlain l h))
      ∙ scan_load l x tail n h e

scan_count :
    (v n c : ℕ) (space : Bool) (tail : Bytes) (rest : Marked)
    → v < modulus
    → mark 0 tail ≡ (c, space) ∷ rest
    → is_digit c ≡ false
    → scan_uint n (mark 0 (format_uint v ++ tail)) ≡ done v (n + 1) (mark 0 tail)
scan_count v n c space tail rest fits e h =
    rw (mark-plain (format_uint v) tail (format_uint-IsPlain v), e)
      (scan_uint-format_uint v n c space rest fits h)

mark_slash : (tail : Bytes) → mark 0 (b'/' ∷ tail) ≡ (b'/', false) ∷ mark 0 tail
mark_slash tail = mark-plain (b'/' ∷ []) tail ((omega arith, omega arith), tt)

scan_slash :
    (tail : Bytes) (n : ℕ) → scan_literal b'/' n (mark 0 (b'/' ∷ tail)) ≡ done tt n (mark 0 tail)
unfolding scan_literal
scan_slash tail n = ap (scan_literal b'/' n) (mark_slash tail)

module _ {F : Type 0} (convert : Bytes → Option F) (l₁ l₅ l₁₀ : Load) (x₁ x₅ x₁₀ : F)
    (running total last : Word) where
  printed : LoadAverage F
  printed = record {
    load1 = x₁;
    load5 = x₅;
    load10 = x₁₀;
    running_process = running;
    total_process = total;
    last_pid = last;
  }

  scan_line-print_line :
      IsLoad l₁
      → IsLoad l₅
      → IsLoad l₁₀
      → convert (print_load l₁) ≡ some x₁
      → convert (print_load l₅) ≡ some x₅
      → convert (print_load l₁₀) ≡ some x₁₀
      → running < modulus
      → total < modulus
      → last < modulus
      → sscanf (scan_line convert) (print_line l₁ l₅ l₁₀ running total last)
        ≡ done printed 6 (mark 0 (b'\n' ∷ []))
  unfolding scan_line print_line print_counts printed
  scan_line-print_line h₁ h₅ h₁₀ c₁ c₅ c₁₀ fits₁ fits₂ fits₃ =
      let tail₃ : Bytes = b'\n' ∷ [] in
      let tail₂ : Bytes = 32 ∷ (format_uint last ++ tail₃) in
      let tail₁ : Bytes = b'/' ∷ (format_uint total ++ tail₂) in
      let counts : Bytes = format_uint running ++ tail₁ in
      let text₁₀ : Bytes = print_load l₁₀ ++ 32 ∷ counts in
      let text₅ : Bytes = print_load l₅ ++ 32 ∷ text₁₀ in
      done->>= (scan_float convert) _ (scan_load convert l₁ x₁ text₅ 0 h₁ c₁)
      ∙ done->>= (scan_space >> scan_float convert) _ (next_load convert l₅ x₅ text₁₀ 1 h₅ c₅)
      ∙ done->>= (scan_space >> scan_float convert) _ (next_load convert l₁₀ x₁₀ counts 2 h₁₀ c₁₀)
      ∙ done->>= (scan_space >> scan_uint) _ (
          done->>= scan_space _ (
            scan_gap (format_uint running) tail₁ 3 (format_uint-ne-nil running)
              (format_uint-IsPlain running))
          ∙ scan_count running 3 b'/' false tail₁ (mark 0 (format_uint total ++ tail₂)) fits₁
              (mark_slash _) refl)
      ∙ done->>= (scan_literal b'/' >> scan_uint) _ (
          done->>= (scan_literal b'/') _ (scan_slash (format_uint total ++ tail₂) 4)
          ∙ scan_count total 4 32 true tail₂ (mark 0 (format_uint last ++ tail₃)) fits₂
              (mark_space _) refl)
      ∙ done->>= (scan_space >> scan_uint) _ (
          done->>= scan_space _ (
            scan_gap (format_uint last) tail₃ 5 (format_uint-ne-nil last)
              (format_uint-IsPlain last))
          ∙ scan_count last 5 10 true tail₃ [] fits₃ mark_newline refl)

  -- If /proc/loadavg starts with a line as the kernel prints it - three decimal numbers that the
  -- conversion of floats knows, and numbers below 2 ^ 64 - then the read returns these values.
  pub read-print_line :
      (open_file : Bytes → Outcome File) (file : File) (more : List Bytes)
      → IsLoad l₁
      → IsLoad l₅
      → IsLoad l₁₀
      → convert (print_load l₁) ≡ some x₁
      → convert (print_load l₅) ≡ some x₅
      → convert (print_load l₁₀) ≡ some x₁₀
      → running < modulus
      → total < modulus
      → last < modulus
      → open_file (codes "/proc/loadavg") ≡ ok file
      → complete_lines file.content ≡ print_line l₁ l₅ l₁₀ running total last ∷ more
      → read convert open_file
        ≡ ok (record {
          load1 = x₁;
          load5 = x₅;
          load10 = x₁₀;
          running_process = running;
          total_process = total;
          last_pid = last;
        })
  unfolding read printed
  read-print_line open_file file more h₁ h₅ h₁₀ c₁ c₅ c₁₀ fits₁ fits₂ fits₃ opened lines =
      rw (opened, lines, first_line)
        (ap (λ (r : Scanned (LoadAverage F)). finish_line r)
          (scan_line-print_line h₁ h₅ h₁₀ c₁ c₅ c₁₀ fits₁ fits₂ fits₃))
