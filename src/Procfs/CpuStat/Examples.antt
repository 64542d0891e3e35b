-- ===== src/Procfs/CpuStat/Examples.antt =====
-- Runs of the reader of /proc/stat.
use acadock_monitoring.Prelude.Word
use acadock_monitoring.Prelude.Word.{Word, modulus}
use acadock_monitoring.Prelude.Dict
use acadock_monitoring.Prelude.{
  ℕ, ◌+◌, ◌%◌, ◌≤◌, ◌<◌, ◌*◌, ◌^◌, List, [], ◌∷◌, map, Bytes, codes, some, none, ok, ◌≡◌, refl,
  arith,
}
use acadock_monitoring.Text.{text}
use acadock_monitoring.Text.Lines.{File, complete_lines}
use acadock_monitoring.Procfs.CpuStat.{
  CpuStats, read, SingleCpuStat, read_one_cpu_line, of_buffer, sum,
}
use acadock_monitoring.Procfs.CpuStat.Line.{print_line, print_counters, unspaced}
use acadock_monitoring.Procfs.CpuStat.Table.{cpu_lines, last_named, read-lookup}
use acadock_monitoring.Procfs.CpuStat.Total.{total, sum-total, sum_grows}

abbrev counters : List Word
counters = 13 ∷ 9 ∷ 5 ∷ 48 ∷ 103 ∷ 17 ∷ 38 ∷ 0 ∷ 0 ∷ 1 ∷ []

-- The clock ticks 100 times a second.
abbrev parsed : Bytes → SingleCpuStat
parsed name = of_buffer name (map (λ (v : ℕ). v * 10 ^ 7) counters)

stat_line :
    read_one_cpu_line (codes "cpu0 13 9 5 48 103 17 38 0 0 1\n") 100 ≡ ok (parsed (codes "cpu0"))
unfolding read_one_cpu_line text
stat_line = refl

-- The kernel's line for the whole machine, with two spaces.
machine_line : print_line (codes "cpu") 1 counters ≡ codes "cpu  13 9 5 48 103 17 38 0 0 1\n"
unfolding print_line print_counters unspaced text
machine_line = refl

abbrev stat_file : File
stat_file = record { content = codes "cpu  13 9 5 48 103 17 38 0 0 1\nintr 5\n"; fault = none }

abbrev broken_file : File
broken_file = record { content = codes "cpu  13 9\ncpu0 13 9 5 48 103 17 38 0 0 1\n"; fault = none }

stat_file_lines :
    cpu_lines 100 (complete_lines stat_file.content) ≡ some (parsed (codes "cpu") ∷ [])
unfolding cpu_lines read_one_cpu_line text
stat_file_lines = refl

broken_file_lines : cpu_lines 100 (complete_lines broken_file.content) ≡ none
unfolding cpu_lines read_one_cpu_line text
broken_file_lines = refl

read-lookup_example :
    (result : CpuStats) × (read (ok 100) (λ _. ok stat_file) ≡ ok result)
    × ((name : Bytes)
        → Dict.lookup name result.cpus ≡ last_named name (parsed (codes "cpu") ∷ []) none)
read-lookup_example =
    read-lookup 100 (λ _. ok stat_file) stat_file refl (parsed (codes "cpu") ∷ []) refl
      stat_file_lines

abbrev later : SingleCpuStat
later = record (parsed (codes "cpu")) { idle = 500_000_000 }

sum_grows_example :
    (Word.sub (sum later) (sum (parsed (codes "cpu"))) + total (parsed (codes "cpu")) ≡ total later)
    × (Word.sub later.idle (parsed (codes "cpu")).idle
        ≤ Word.sub (sum later) (sum (parsed (codes "cpu"))))
sum_grows_example =
    sum_grows (parsed (codes "cpu")) later (omega arith) (omega arith) (omega arith) (omega arith)
      (omega arith) (omega arith) (omega arith) (omega arith) (omega arith) (omega arith)
      (unfold total in omega arith)

sum-total_example :
    (sum later ≡ total later % modulus) × (total later < modulus → sum later ≡ total later)
sum-total_example = sum-total later
