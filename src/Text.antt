-- ===== src/Text.antt =====
-- The parts of Go's standard library for text that the program calls: `strconv` for decimal
-- numbers, `strings`, `bufio.Reader.ReadString` and `fmt.Sscanf`. A text is a list of bytes.
pub mod Decimal
pub mod Duration
pub mod Fields
pub mod Lines
pub mod Scan
pub mod Split
use Decimal.{format_uint, format_int, parse_uint}
use Fields.{has_prefix, trim_suffix, fields, to_lower, mark, space_width, wide_space}
use Lines.{complete_lines}
use Scan.{scan_space, scan_literal, scan_uint, scan_string, scan_float}
use acadock_monitoring.Prelude.{bytes_eq}

-- A test that names it on its `unfolding` line runs all of them.
unfoldable pub text : Unit {0}
unfolding bytes_eq format_uint format_int parse_uint has_prefix trim_suffix fields to_lower mark
    space_width wide_space complete_lines scan_space scan_literal scan_uint scan_string scan_float
text = tt
