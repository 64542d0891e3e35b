-- ===== src/Procfs/LoadAvg/Errors.antt =====
-- The errors of a read of the load average.
use acadock_monitoring.Prelude.{
  List, [], ◌∷◌, Option, Bytes, codes, Error, wrapped, foreign, Outcome, ok, err, panic, wrap,
  ◌>>=◌, ◌⊎◌, inl, inr, ◌≡◌, ◌≢◌, refl, arith,
}
use acadock_monitoring.Text.Lines.{File, complete_lines, read_error}
use acadock_monitoring.Text.Scan.{
  Scanned, done, stopped, scan_float, scan_space, scan_literal, scan_uint, sscanf, ◌>>◌,
}
use acadock_monitoring.Text.Fields.{mark}
use acadock_monitoring.Text.Scan.Count.{
  Counts, CountsTo, Counts->>=, Counts-pure, scan_float-Counts, scan_space-Counts,
  scan_literal-Counts, scan_uint-Counts,
}
use acadock_monitoring.Procfs.LoadAvg.{LoadAverage, scan_line, finish_line, first_line, read}

-- The error of one of the three steps.
abbrev pub IsStepError : Error → Type 0
IsStepError e =
    (cause : Error) × ((e ≡ wrapped (codes "open loadavg file") cause)
      ⊎ (e ≡ wrapped (codes "read loadavg") cause)
      ⊎ (e ≡ wrapped (codes "parse loadavg line") cause))

-- A value, or such an error, and no panic.
abbrev pub IsReadOutcome : {A : Type 0} → Outcome A → Type 0
IsReadOutcome (ok a) = Unit
IsReadOutcome (err e) = IsStepError e
IsReadOutcome panic = ⊥

module _ {F : Type 0} (convert : Bytes → Option F) where
  space_float : Counts 1 (scan_space >> scan_float convert)
  space_float = Counts->>= scan_space _ 0 1 scan_space-Counts (λ _. scan_float-Counts convert)

  space_uint : Counts 1 (scan_space >> scan_uint)
  space_uint = Counts->>= scan_space _ 0 1 scan_space-Counts (λ _. scan_uint-Counts)

  slash_uint : Counts 1 (scan_literal b'/' >> scan_uint)
  slash_uint =
      Counts->>= (scan_literal b'/') _ 0 1 (scan_literal-Counts b'/') (λ _. scan_uint-Counts)

  scan_line-Counts : Counts 6 (scan_line convert)
  unfolding scan_line
  scan_line-Counts = Counts->>= (scan_float convert) _ 1 5 (scan_float-Counts convert) λ load1.
      Counts->>= (scan_space >> scan_float convert) _ 1 4 space_float λ load5.
        Counts->>= (scan_space >> scan_float convert) _ 1 3 space_float λ load10.
          Counts->>= (scan_space >> scan_uint) _ 1 2 space_uint λ running.
            Counts->>= (scan_literal b'/' >> scan_uint) _ 1 1 slash_uint λ total.
              Counts->>= (scan_space >> scan_uint) _ 1 0 space_uint λ last.
                Counts-pure {A = LoadAverage F} (record {
                  load1 = load1;
                  load5 = load5;
                  load10 = load10;
                  running_process = running;
                  total_process = total;
                  last_pid = last;
                })

finish_line-IsReadOutcome :
    {F : Type 0} (r : Scanned (LoadAverage F)) → CountsTo 6 r → IsReadOutcome (finish_line r)
unfolding finish_line
finish_line-IsReadOutcome (done average n rest) h = ground arith
finish_line-IsReadOutcome (stopped n) h = (foreign 0, inr (inr refl))

module _ {F : Type 0} (convert : Bytes → Option F) where
  read_line-IsReadOutcome :
      (o : Outcome Bytes)
      → o ≢ panic
      → IsReadOutcome (
          wrap (codes "read loadavg") o >>= (λ line. finish_line (sscanf (scan_line convert) line)))
  read_line-IsReadOutcome (ok line) h =
      finish_line-IsReadOutcome _ (scan_line-Counts convert 0 (mark 0 line))
  read_line-IsReadOutcome (err e) h = (e, inr (inl refl))
  read_line-IsReadOutcome panic h = absurd (h refl)

  first_line-ne-panic : (e : Error) (lines : List Bytes) → first_line e lines ≢ panic
  unfolding first_line
  first_line-ne-panic e [] h = cc
  first_line-ne-panic e (line ∷ lines) h = cc

  opened-IsReadOutcome :
      (o : Outcome File)
      → o ≢ panic
      → IsReadOutcome (
          wrap (codes "open loadavg file") o >>= (λ file.
            wrap
              (codes "read loadavg")
              (first_line (read_error file.fault) (complete_lines file.content))
            >>= (λ line. finish_line (sscanf (scan_line convert) line))))
  opened-IsReadOutcome (ok file) h = read_line-IsReadOutcome _ (first_line-ne-panic _ _)
  opened-IsReadOutcome (err e) h = (e, inl refl)
  opened-IsReadOutcome panic h = absurd (h refl)

  -- Unless `Open` panics, a read gives a value or an error of the opening, of the reading of the line
  -- or of `Sscanf`: the test that all six numbers were found never fails, whatever the file holds.
  pub read-IsReadOutcome :
      (open_file : Bytes → Outcome File)
      → open_file (codes "/proc/loadavg") ≢ panic
      → IsReadOutcome (read convert open_file)
  unfolding read
  read-IsReadOutcome open_file h = opened-IsReadOutcome (open_file (codes "/proc/loadavg")) h
