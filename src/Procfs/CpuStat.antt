-- ===== src/Procfs/CpuStat.antt =====
-- procfs/cpu_stat.go: /proc/stat, read into a `SingleCPUStat` for each line about a CPU.
pub mod Line
pub mod Table
pub mod Total
mod Examples
use acadock_monitoring.Prelude.Word
use acadock_monitoring.Prelude.Word.{Word}
use acadock_monitoring.Prelude.Dict
use acadock_monitoring.Prelude.{
  ℕ, zero, suc, ◌+◌, ◌*◌, ◌^◌, Bool, true, false, List, [], ◌∷◌, map, Bytes, codes, ◌==◌,
  if◌then◌else◌, Error, eof, foreign, message, wrapped, Outcome, ◌≡◌, refl, ok, err, panic, wrap,
  ◌>>=◌, StringMap,
}
use acadock_monitoring.Text.Fields.{has_prefix}
use acadock_monitoring.Text.Lines.{File, complete_lines, read_error}
use acadock_monitoring.Text.Scan.{
  Scanned, done, stopped, Scanner, pure, ◌>>◌, scan_space, scan_uint, scan_string, sscanf,
}
use acadock_monitoring.Text.Scan as Scan

pub record SingleCpuStat : Type 0 where
  pub name : Bytes
  pub user : Word
  pub nice : Word
  pub system : Word
  pub idle : Word
  pub io_wait : Word
  pub irq : Word
  pub soft_irq : Word
  pub steal : Word
  pub guest : Word
  pub guest_nice : Word

pub record CpuStats : Type 0 where
  pub cpus : StringMap SingleCpuStat

-- The zero value of the struct.
abbrev pub zero_cpu_stat : SingleCpuStat
zero_cpu_stat = record {
  name = [];
  user = 0;
  nice = 0;
  system = 0;
  idle = 0;
  io_wait = 0;
  irq = 0;
  soft_irq = 0;
  steal = 0;
  guest = 0;
  guest_nice = 0;
}

unfoldable pub sum : SingleCpuStat → Word
sum c =
    Word.add
      (Word.add
        (Word.add
          (Word.add
            (Word.add
              (Word.add (Word.add (Word.add (Word.add c.user c.nice) c.system) c.idle) c.io_wait)
              c.irq)
            c.soft_irq)
          c.steal)
        c.guest)
      c.guest_nice

-- `All` is the line of the whole machine, or the zero value where there is none.
unfoldable pub all : CpuStats → SingleCpuStat
unfolding Dict.get_or
all c = Dict.get_or zero_cpu_stat (codes "cpu") c.cpus

-- The directives ` %d`, so many times.
pub scan_numbers : ℕ → Scanner (List ℕ)
scan_numbers zero = pure []
scan_numbers (suc k) =
    Scan.◌>>=◌ (scan_space >> scan_uint) (λ v. Scan.◌>>=◌ (scan_numbers k) (λ vs. pure (v ∷ vs)))

-- The format `%s %d %d %d %d %d %d %d %d %d %d`.
pub scan_line : Scanner (Bytes × List ℕ)
scan_line = Scan.◌>>=◌ scan_string (λ name. Scan.◌>>=◌ (scan_numbers 10) (λ raw. pure (name, raw)))

-- `buffer[i]`, of a buffer that is long enough.
abbrev pub at : ℕ → List Word → Word
at i [] = 0
at zero (v ∷ vs) = v
at (suc i) (v ∷ vs) = at i vs

abbrev pub of_buffer : Bytes → List Word → SingleCpuStat
of_buffer name b = record {
  name = name;
  user = at 0 b;
  nice = at 1 b;
  system = at 2 b;
  idle = at 3 b;
  io_wait = at 4 b;
  irq = at 5 b;
  soft_irq = at 6 b;
  steal = at 7 b;
  guest = at 8 b;
  guest_nice = at 9 b;
}

abbrev pub second : Word
second = 10 ^ 9

-- `time.Second / time.Duration(userHZ)`: a division by zero panics.
pub scale_factor : Word → Outcome Word
scale_factor user_hz = if user_hz == 0 then panic else ok (Word.quotient second user_hz)

-- The error that `Sscanf` returns.
abbrev pub scan_error : Error
scan_error = foreign 0

abbrev pub wrong_count : Error
wrong_count = message (codes "invalid procstat line")

pub finish_line : Word → Scanned (Bytes × List ℕ) → Outcome SingleCpuStat
unfolding scale_factor
finish_line user_hz (stopped n) = err (wrapped (codes "parse procstat line") scan_error)
finish_line user_hz (done (name, raw) n rest) =
    if n == 11
    then (do scale ← scale_factor user_hz; ok (of_buffer name (map (λ v. Word.mul v scale) raw)))
    else err wrong_count

pub read_one_cpu_line : Bytes → Word → Outcome SingleCpuStat
unfolding finish_line scan_line scan_numbers
read_one_cpu_line line user_hz = finish_line user_hz (sscanf scan_line line)

-- The loop ends when a read fails: at the end of the file with the result.
pub end_of_lines : Error → StringMap SingleCpuStat → Outcome CpuStats
end_of_lines eof cpus = ok (record { cpus = cpus })
end_of_lines last cpus = err (wrapped (codes "read a line from stat file") last)

-- The loop over the lines of the file: `last` is the error of the read behind the last line.
pub read_lines : Word → Error → List Bytes → StringMap SingleCpuStat → Outcome CpuStats
unfolding end_of_lines
read_lines user_hz last [] cpus = end_of_lines last cpus
read_lines user_hz last (line ∷ lines) cpus = elim (has_prefix line (codes "cpu")) [
  | false ↦ read_lines user_hz last lines cpus
  | true ↦ elim (read_one_cpu_line line user_hz) [
    | ok stat ↦ read_lines user_hz last lines (Dict.insert stat.name stat cpus)
    | err e ↦ err (wrapped (codes "parse one line of stat file") e)
    | panic ↦ panic
  ]
]

-- `CPUStatReader.Read`, with what `ClockTick` and `Open` return.
unfoldable pub read : Outcome Word → (Bytes → Outcome File) → Outcome CpuStats
unfolding read_lines read_one_cpu_line
read clock_tick open_file = do
  clktck ← wrap (codes "get SC_CLK_TCK") clock_tick
  file ← wrap (codes "open stat file") (open_file (codes "/proc/stat"))
  read_lines clktck (read_error file.fault) (complete_lines file.content) []
