-- ===== src/Procfs/CpuStat/Line.antt =====
-- A line that the kernel prints is read back.
use acadock_monitoring.Prelude.Word
use acadock_monitoring.Prelude.{ℕ, zero, suc, List, [], ◌∷◌, ◌++◌, Bytes, ◌≢◌, subst, err, arith}
use acadock_monitoring.Text.Decimal.{format_uint}
use acadock_monitoring.Text.Fields.{Marked, mark}
use acadock_monitoring.Text.Scan.{
  Scanned, done, stopped, scan_space, scan_uint, scan_string, ◌>>=◌, ◌>>◌,
}
use acadock_monitoring.Text.Scan.{pure}
use acadock_monitoring.Text.Scan.Count.{
  Counts, CountsTo, Counts->>=, Counts-pure, scan_uint-Counts, scan_string-Counts,
  scan_space-Counts,
}
use acadock_monitoring.Procfs.CpuStat.{
  scan_numbers, scan_line, finish_line, read_one_cpu_line, wrong_count,
}

-- The counters behind the name, as the kernel prints them.
unfoldable pub print_counters : List ℕ → Bytes
print_counters [] = b'\n' ∷ []
print_counters (v ∷ vs) = 32 ∷ format_uint v ++ print_counters vs

-- The counters without the space in front of the first.
unfoldable pub unspaced : List ℕ → Bytes
unspaced [] = b'\n' ∷ []
unspaced (v ∷ vs) = format_uint v ++ print_counters vs

abbrev pub spaces : ℕ → Bytes
spaces zero = []
spaces (suc k) = 32 ∷ spaces k

-- A line of counters behind a name, with so many spaces more than one between them: the kernel prints
-- one more for the whole machine, and none for a single CPU.
unfoldable pub print_line : Bytes → ℕ → List ℕ → Bytes
print_line name more vs = name ++ 32 ∷ (spaces more ++ unspaced vs)

separator : List ℕ → ℕ
separator [] = 10
separator (v ∷ vs) = 32

behind : List ℕ → Marked
unfolding print_counters
behind [] = []
behind (v ∷ vs) = mark 0 (format_uint v ++ print_counters vs)

scan_numbers-Counts : (k : ℕ) → Counts k (scan_numbers k)
unfolding scan_numbers
scan_numbers-Counts zero = Counts-pure {A = List ℕ} []
scan_numbers-Counts (suc k) =
    subst (λ j. Counts j (scan_numbers (suc k))) (omega arith)
      (Counts->>= (scan_space >> scan_uint) _ 1 k
        (Counts->>= scan_space _ 0 1 scan_space-Counts (λ _. scan_uint-Counts))
        (λ v.
          subst (λ j. Counts j (scan_numbers k >>= λ vs. pure (v ∷ vs))) (omega arith)
            (Counts->>= (scan_numbers k) _ k 0 (scan_numbers-Counts k)
              (λ vs. Counts-pure (v ∷ vs)))))

scan_line-Counts : Counts 11 scan_line
unfolding scan_line
scan_line-Counts = Counts->>= scan_string _ 1 10 scan_string-Counts (λ name.
    Counts->>= (scan_numbers 10) _ 10 0 (scan_numbers-Counts 10)
      (λ raw. Counts-pure {A = Bytes × List ℕ} (name, raw)))

finish_line-ne-wrong_count :
    (user_hz : ℕ) (r : Scanned (Bytes × List ℕ))
    → CountsTo 11 r
    → finish_line user_hz r ≢ err wrong_count
unfolding finish_line
finish_line-ne-wrong_count user_hz (done _ n rest) h = ground arith
finish_line-ne-wrong_count user_hz (stopped n) h = λ e. cc

-- The test of the count of operands never fails: an error of `Sscanf` is the only one.
pub read_one_cpu_line-ne-wrong_count :
    (line : Bytes) (user_hz : ℕ) → read_one_cpu_line line user_hz ≢ err wrong_count
unfolding read_one_cpu_line
read_one_cpu_line-ne-wrong_count line user_hz =
    finish_line-ne-wrong_count user_hz _ (scan_line-Counts 0 (mark 0 line))
