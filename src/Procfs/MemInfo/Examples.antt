-- ===== src/Procfs/MemInfo/Examples.antt =====
-- Runs of the reader of /proc/meminfo.
use acadock_monitoring.Prelude.Word.{Word}
use acadock_monitoring.Prelude.Dict
use acadock_monitoring.Prelude.{
  All, List, [], ◌∷◌, Bytes, codes, none, wrapped_nil, ok, err, ◌≡◌, refl,
}
use acadock_monitoring.Text.{text}
use acadock_monitoring.Text.Lines.{File, complete_lines}
use acadock_monitoring.Procfs.MemInfo.{MemInfo, parse_line, read}
use acadock_monitoring.Procfs.MemInfo.Table.{parse_all, named_values, read-last_of, read-err}

abbrev file : File
file = record {
  content = codes "MemTotal:  8 kB\nMemFree: 3 kB\nHugePages_Total:   0\nMemFree: 2 kB\n";
  fault = none;
}

abbrev pairs : List (Bytes × Word)
pairs =
    (codes "MemTotal", 8192)
    ∷ (codes "MemFree", 3072)
    ∷ (codes "HugePages_Total", 0)
    ∷ (codes "MemFree", 2048)
    ∷ []

file_pairs : parse_all (complete_lines file.content) ≡ ok pairs
unfolding parse_all parse_line text
file_pairs = refl

read-last_of_example :
    (m : MemInfo) × (read (λ _. ok file) ≡ ok m)
    × All (λ (name, value). value ≡ Dict.last_of name pairs 0) (named_values m)
read-last_of_example = read-last_of (λ _. ok file) file refl pairs refl file_pairs

abbrev broken : File
broken = record { content = codes "MemTotal: 8 kB\nMemFree\nCached: x kB\n"; fault = none }

-- The error of a line with one field wraps nil.
broken_pairs :
    parse_all (complete_lines broken.content)
    ≡ err (wrapped_nil (codes "invalid meminfo line: MemFree\n"))
unfolding parse_all parse_line text
broken_pairs = refl

read-err_example :
    read (λ _. ok broken) ≡ err (wrapped_nil (codes "invalid meminfo line: MemFree\n"))
read-err_example = read-err (λ _. ok broken) broken refl _ broken_pairs
