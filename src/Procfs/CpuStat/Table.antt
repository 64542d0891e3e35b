-- ===== src/Procfs/CpuStat/Table.antt =====
-- Which lines of the file count: the ones about a CPU, and the last of two with one name.
use mathlib.Core.Option
use acadock_monitoring.Prelude.Dict
use acadock_monitoring.Prelude.{
  ℕ, true, false, List, [], ◌∷◌, Bytes, bytes_eq, codes, Option, none, some, Error, eof, Outcome,
  ok, err, panic, StringMap, ◌≡◌, ◌≢◌, refl, if◌then◌else◌, arith, inl, inr, Bool-cases, ap, ◌∙◌,
}
use acadock_monitoring.Text.Fields.{has_prefix}
use acadock_monitoring.Text.Lines.{File, complete_lines, read_error}
use acadock_monitoring.Procfs.CpuStat.{
  read, SingleCpuStat, CpuStats, read_one_cpu_line, read_lines, end_of_lines,
}

-- The statistics of the lines about a CPU, in their order, if each of these lines can be read.
unfoldable pub cpu_lines : ℕ → List Bytes → Option (List SingleCpuStat)
cpu_lines hz [] = some []
cpu_lines hz (line ∷ lines) = elim (has_prefix line (codes "cpu")) [
  | false ↦ cpu_lines hz lines
  | true ↦ elim (read_one_cpu_line line hz) [
    | ok stat ↦ Option.map (λ stats. stat ∷ stats) (cpu_lines hz lines)
    | _ ↦ none
  ]
]

-- The last of the statistics with that name, or else what was there before.
unfoldable pub last_named : Bytes → List SingleCpuStat → Option SingleCpuStat → Option SingleCpuStat
last_named name [] before = before
last_named name (stat ∷ stats) before =
    last_named name stats (if bytes_eq stat.name name then some stat else before)

insert_all : List SingleCpuStat → StringMap SingleCpuStat → StringMap SingleCpuStat
insert_all [] cpus = cpus
insert_all (stat ∷ stats) cpus = insert_all stats (Dict.insert stat.name stat cpus)

lookup-insert_all :
    (name : Bytes) (stats : List SingleCpuStat) (cpus : StringMap SingleCpuStat)
    → Dict.lookup name (insert_all stats cpus) ≡ last_named name stats (Dict.lookup name cpus)
unfolding insert_all last_named
lookup-insert_all name [] cpus = refl
lookup-insert_all name (stat ∷ stats) cpus =
    lookup-insert_all name stats _
    ∙ ap (last_named name stats) (Dict.lookup-insert stat.name name stat cpus)

module _ (hz : ℕ) where
  -- What the loop makes of the lines is what `cpu_lines` says, once a line is about a CPU.
  read_cpu_line :
      (line : Bytes) (lines : List Bytes) (stats : List SingleCpuStat)
      (cpus : StringMap SingleCpuStat) (o : Outcome SingleCpuStat)
      → read_one_cpu_line line hz ≡ o
      → has_prefix line (codes "cpu") ≡ true
      → ((rest : List SingleCpuStat) (more : StringMap SingleCpuStat)
          → cpu_lines hz lines ≡ some rest
          → read_lines hz eof lines more ≡ ok (record { cpus = insert_all rest more }))
      → cpu_lines hz (line ∷ lines) ≡ some stats
      → read_lines hz eof (line ∷ lines) cpus ≡ ok (record { cpus = insert_all stats cpus })
  unfolding cpu_lines read_lines insert_all
  read_cpu_line line lines [] cpus (ok stat) e p ih h = ground arith
  read_cpu_line line lines (s ∷ stats) cpus (ok stat) e p ih h =
      ground (arith, ih stats (Dict.insert stat.name stat cpus))
  read_cpu_line line lines stats cpus (err x) e p ih h = ground arith
  read_cpu_line line lines stats cpus panic e p ih h = ground arith

  read_lines-cpu_lines :
      (lines : List Bytes) (stats : List SingleCpuStat) (cpus : StringMap SingleCpuStat)
      → cpu_lines hz lines ≡ some stats
      → read_lines hz eof lines cpus ≡ ok (record { cpus = insert_all stats cpus })
  unfolding cpu_lines read_lines insert_all end_of_lines
  read_lines-cpu_lines [] stats cpus h = ground arith
  read_lines-cpu_lines (line ∷ lines) stats cpus h =
      elim (Bool-cases (has_prefix line (codes "cpu"))) [
        | inl p ↦ read_cpu_line line lines stats cpus _ refl p (read_lines-cpu_lines lines) h
        | inr p ↦ ground (arith, read_lines-cpu_lines lines stats cpus)
      ]

  read_lines-of_none :
      (lines : List Bytes) (last : Error) (cpus : StringMap SingleCpuStat) (result : CpuStats)
      → cpu_lines hz lines ≡ none
      → read_lines hz last lines cpus ≢ ok result
  unfolding cpu_lines read_lines
  read_lines-of_none [] last cpus result h = ground arith
  read_lines-of_none (line ∷ lines) last cpus result h =
      elim (Bool-cases (has_prefix line (codes "cpu"))) [
        | inr p ↦ ground (arith, read_lines-of_none lines last cpus result)
        | inl p ↦
            refuse (read_one_cpu_line line hz) refl p
              (λ more. read_lines-of_none lines last more result)
      ]
    where
      refuse :
          (o : Outcome SingleCpuStat)
          → read_one_cpu_line line hz ≡ o
          → has_prefix line (codes "cpu") ≡ true
          → ((more : StringMap SingleCpuStat)
              → cpu_lines hz lines ≡ none
              → read_lines hz last lines more ≢ ok result)
          → read_lines hz last (line ∷ lines) cpus ≢ ok result
      refuse (ok stat) e q ih = ground (arith, ih (Dict.insert stat.name stat cpus))
      refuse (err x) e q ih = ground arith
      refuse panic e q ih = ground arith

module _ (hz : ℕ) (open_file : Bytes → Outcome File) (file : File)
    (opened : open_file (codes "/proc/stat") ≡ ok file) where
  -- If the file is read to its end and each line about a CPU is well formed, the table that `Read`
  -- returns holds, under each name, the last line of that name, and nothing under other names.
  pub read-lookup :
      (stats : List SingleCpuStat)
      → file.fault ≡ none
      → cpu_lines hz (complete_lines file.content) ≡ some stats
      → (result : CpuStats) × (read (ok hz) open_file ≡ ok result)
        × ((name : Bytes) → Dict.lookup name result.cpus ≡ last_named name stats none)
  unfolding read
  read-lookup stats no_fault h = (
    record { cpus = insert_all stats [] },
    rw (opened, no_fault) (read_lines-cpu_lines hz (complete_lines file.content) stats [] h),
    λ name. lookup-insert_all name stats [] ∙ unfold Dict.lookup in refl,
  )

  -- One malformed line about a CPU, and `Read` returns no table, whatever the other lines are.
  pub read-of_none :
      (result : CpuStats)
      → cpu_lines hz (complete_lines file.content) ≡ none
      → read (ok hz) open_file ≢ ok result
  unfolding read
  read-of_none result h =
      rw opened
        (read_lines-of_none hz (complete_lines file.content) (read_error file.fault) [] result h)
