-- ===== src/Procfs/LoadAvg.antt =====
-- procfs/loadavg.go: the load average of /proc/loadavg. `convert` is the conversion of a token to a
-- `float64`; what `Open` returns is an input.
pub mod Line
pub mod Errors
mod Examples
use acadock_monitoring.Prelude.{
  ℕ, List, [], ◌∷◌, Option, some, Bytes, codes, ◌==◌, if◌then◌else◌, Error, foreign, message,
  wrapped, Outcome, ok, err, panic, wrap, ◌>>=◌,
}
use acadock_monitoring.Prelude.Word.{Word}
use acadock_monitoring.Text.Lines.{File, complete_lines, read_error}
use acadock_monitoring.Text.Scan.{
  Scanned, done, stopped, Scanner, pure, ◌>>◌, scan_space, scan_literal, scan_uint, scan_float,
  sscanf,
}
use acadock_monitoring.Text.Scan as Scan

pub record LoadAverage (F : Type 0) : Type 0 where
  pub load1 : F
  pub load5 : F
  pub load10 : F
  pub running_process : Word
  pub total_process : Word
  pub last_pid : Word

module _ {F : Type 0} (convert : Bytes → Option F) where
  -- The format `%f %f %f %d/%d %d`.
  unfoldable pub scan_line : Scanner (LoadAverage F)
  scan_line = Scan.◌>>=◌ (scan_float convert) λ load1.
      Scan.◌>>=◌ (scan_space >> scan_float convert) λ load5.
        Scan.◌>>=◌ (scan_space >> scan_float convert) λ load10.
          Scan.◌>>=◌ (scan_space >> scan_uint) λ running.
            Scan.◌>>=◌ (scan_literal b'/' >> scan_uint) λ total.
              Scan.◌>>=◌ (scan_space >> scan_uint) λ last. pure (record {
                load1 = load1;
                load5 = load5;
                load10 = load10;
                running_process = running;
                total_process = total;
                last_pid = last;
              })

abbrev pub wrong_count : Error
wrong_count = message (codes "invalid loadavg line")

finish_line : {F : Type 0} → Scanned (LoadAverage F) → Outcome (LoadAverage F)
finish_line (stopped n) = err (wrapped (codes "parse loadavg line") (foreign 0))
finish_line (done average n rest) = if n == 6 then ok average else err wrong_count

-- `ReadString('\n')`, once.
first_line : Error → List Bytes → Outcome Bytes
first_line last [] = err last
first_line last (line ∷ lines) = ok line

-- `LoadAvgReader.Read`; the value beside an error is dropped.
unfoldable pub read :
    {F : Type 0} → (Bytes → Option F) → (Bytes → Outcome File) → Outcome (LoadAverage F)
unfolding first_line finish_line
read convert open_file = do
  file ← wrap (codes "open loadavg file") (open_file (codes "/proc/loadavg"))
  line ←
      wrap (codes "read loadavg") (first_line (read_error file.fault) (complete_lines file.content))
  finish_line (sscanf (scan_line convert) line)

-- `LoadAvgMetricsWrapper.Read`, with the conversion of an unsigned number.
unfoldable pub read_running :
    {F : Type 0} → (Bytes → Option F) → (Word → F) → (Bytes → Outcome File) → Outcome F
read_running convert of_uint open_file = do
  average ← read convert open_file
  ok (of_uint average.running_process)
