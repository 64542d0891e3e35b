-- ===== src/Procfs/LoadAvg/Examples.antt =====
-- Reads of a load average.
use acadock_monitoring.Prelude.{
  ℕ, Option, [], some, none, Bytes, codes, Outcome, ok, ◌≡◌, refl, arith,
}
use acadock_monitoring.Text.Lines.{File, complete_lines}
use acadock_monitoring.Text.Decimal.{format_uint}
use acadock_monitoring.Procfs.LoadAvg.{read}
use acadock_monitoring.Procfs.LoadAvg.Line.{Load, print_line, print_counts, read-print_line}
use acadock_monitoring.Procfs.LoadAvg.Errors.{IsReadOutcome, read-IsReadOutcome}

-- The tokens stand for the numbers.
abbrev convert : Bytes → Option Bytes
convert token = some token

abbrev load_file : File
load_file = record { content = codes "1.76 4.08 4.41 3/1484 2852530\n"; fault = none }

abbrev open_file : Bytes → Outcome File
open_file name = ok load_file

abbrev load : ℕ → Bytes → Load
load digit fraction = record { digit = digit; whole = []; fraction = fraction }

read-print_line_example :
    read convert open_file
    ≡ ok (record {
      load1 = codes "1.76";
      load5 = codes "4.08";
      load10 = codes "4.41";
      running_process = 3;
      total_process = 1484;
      last_pid = 2852530;
    })
unfolding print_line print_counts complete_lines format_uint
read-print_line_example =
    read-print_line convert (load b'1' (codes "76")) (load b'4' (codes "08"))
      (load b'4' (codes "41")) (codes "1.76") (codes "4.08") (codes "4.41") 3 1484 2852530 open_file
      load_file []
      (
        (omega arith, omega arith),
        tt,
        ((omega arith, omega arith), ((omega arith, omega arith), tt)),
      )
      (
        (omega arith, omega arith),
        tt,
        ((omega arith, omega arith), ((omega arith, omega arith), tt)),
      )
      (
        (omega arith, omega arith),
        tt,
        ((omega arith, omega arith), ((omega arith, omega arith), tt)),
      )
      refl refl refl (omega arith) (omega arith) (omega arith) refl refl

read-IsReadOutcome_example : IsReadOutcome (read convert open_file)
read-IsReadOutcome_example = read-IsReadOutcome convert open_file (λ h. cc)
