-- ===== src/Text/Lines.antt =====
-- `bufio.Reader.ReadString('\n')`, called until it fails: the lines with their newline. What stands
-- behind the last newline is returned beside the error, and the callers drop it.
use acadock_monitoring.Prelude.{
  ℕ, Bytes, List, [], ◌∷◌, ◌++◌, Option, none, some, Error, eof, ◌==◌, ◌≡◌, refl, codes, true,
  false,
}

-- An open file: its bytes, and the error that a read meets behind them (`none` is the end).
pub record File : Type 0 where
  pub content : Bytes
  pub fault : Option Error

abbrev pub newline : ℕ
newline = b'\n'

-- The complete lines of the text, the current one so far given.
lines_from : Bytes → Bytes → List Bytes
lines_from line [] = []
lines_from line (c ∷ s) = elim (c == newline) [
  | true ↦ (line ++ c ∷ []) ∷ lines_from [] s
  | false ↦ lines_from (line ++ c ∷ []) s
]

unfoldable pub complete_lines : Bytes → List Bytes
unfolding lines_from
complete_lines s = lines_from [] s

-- The error of the read that fails.
abbrev pub read_error : Option Error → Error
read_error none = eof
read_error (some e) = e

-- A last line with no newline is not among them.
unfinished_line : complete_lines (codes "ab\ncd") ≡ codes "ab\n" ∷ []
unfolding complete_lines
unfinished_line = refl
