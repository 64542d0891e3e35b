-- ===== src/Procfs/MemInfo/Safety.antt =====
-- The read of /proc/meminfo never panics.
use acadock_monitoring.Prelude.Word.{Word}
use acadock_monitoring.Prelude.Dict
use acadock_monitoring.Prelude.{
  ℕ, List, [], ◌∷◌, Option, none, some, Bytes, codes, Error, eof, foreign, message, wrapped,
  wrapped_nil, stats_reader, not_enough_metrics, Outcome, panic, wrap, wrap-ne-panic, >>=-ne-panic,
  StringMap, ◌≢◌, arith,
}
use acadock_monitoring.Text.Decimal.{parse_uint}
use acadock_monitoring.Text.Fields.{fields, trim_suffix}
use acadock_monitoring.Text.Lines.{File, complete_lines, read_error}
use acadock_monitoring.Procfs.MemInfo.{
  with_unit, with_value, of_fields, parse_line, at_end, read_lines, read,
}

with_unit-ne-panic :
    (line name : Bytes) (value : Word) (rest : List Bytes) → with_unit line name value rest ≢ panic
unfolding with_unit
with_unit-ne-panic line name value [] = λ e. cc
with_unit-ne-panic line name value (unit ∷ []) = λ e. ground arith
with_unit-ne-panic line name value (unit ∷ more ∷ rest) = λ e. cc

with_value-ne-panic :
    (line name digits : Bytes) (value : Option ℕ) (rest : List Bytes)
    → with_value line name digits value rest ≢ panic
unfolding with_value
with_value-ne-panic line name digits none rest = λ e. cc
with_value-ne-panic line name digits (some value) rest = with_unit-ne-panic line name value rest

of_fields-ne-panic : (line : Bytes) (fs : List Bytes) → of_fields line fs ≢ panic
unfolding of_fields
of_fields-ne-panic line [] = λ e. cc
of_fields-ne-panic line (header ∷ []) = λ e. cc
of_fields-ne-panic line (header ∷ digits ∷ rest) =
    with_value-ne-panic line (trim_suffix header b':') digits (parse_uint digits) rest

at_end-ne-panic : (last : Error) (results : StringMap Word) → at_end last results ≢ panic
unfolding at_end
at_end-ne-panic eof results = λ e. cc
at_end-ne-panic not_enough_metrics results = λ e. cc
at_end-ne-panic (foreign n) results = λ e. cc
at_end-ne-panic (message text) results = λ e. cc
at_end-ne-panic (wrapped text x) results = λ e. cc
at_end-ne-panic (wrapped_nil text) results = λ e. cc
at_end-ne-panic (stats_reader x) results = λ e. cc

read_lines-ne-panic :
    (last : Error) (lines : List Bytes) (results : StringMap Word)
    → read_lines last lines results ≢ panic
unfolding read_lines parse_line
read_lines-ne-panic last [] results = at_end-ne-panic last results
read_lines-ne-panic last (line ∷ lines) results =
    >>=-ne-panic (of_fields line (fields line))
      (λ pair. read_lines last lines (Dict.insert pair.0 pair.1 results))
      (of_fields-ne-panic line (fields line))
      (λ pair. read_lines-ne-panic last lines (Dict.insert pair.0 pair.1 results))

-- If the file can be opened or not, the read returns.
pub read-ne-panic :
    (open_file : Bytes → Outcome File)
    → open_file (codes "/proc/meminfo") ≢ panic
    → read open_file ≢ panic
unfolding read
read-ne-panic open_file h =
    >>=-ne-panic (wrap (codes "open meminfo file") (open_file (codes "/proc/meminfo")))
      (λ file. read_lines (read_error file.fault) (complete_lines file.content) [])
      (wrap-ne-panic _ h)
      (λ file. read_lines-ne-panic (read_error file.fault) (complete_lines file.content) [])
