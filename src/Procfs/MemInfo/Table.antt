-- ===== src/Procfs/MemInfo/Table.antt =====
-- Which lines of /proc/meminfo count.
use acadock_monitoring.Prelude.Word
use acadock_monitoring.Prelude.Word.{Word, modulus}
use acadock_monitoring.Prelude.Dict
use acadock_monitoring.Prelude.{
  ℕ, ◌<◌, List, [], ◌∷◌, ◌++◌, Bytes, codes, bytes_eq, none, Error, Outcome, ok, err, panic, wrap,
  All, map, ◌>>=◌, StringMap, ◌≡◌, refl, ◌∙◌,
}
use acadock_monitoring.Text.Fields.{trim_suffix-append}
use acadock_monitoring.Text.Decimal.{format_uint}
use acadock_monitoring.Text.Decimal.Parse.{parse_uint-format_uint}
use acadock_monitoring.Text.Lines.{File, complete_lines, read_error}
use acadock_monitoring.Procfs.MemInfo.{
  MemInfo, parse_line, of_fields, with_value, with_unit, read_lines, at_end, read, fill_struct,
}

-- The pairs of all lines, or the first error.
unfoldable pub parse_all : List Bytes → Outcome (List (Bytes × Word))
parse_all [] = ok []
parse_all (line ∷ lines) = do pair ← parse_line line; rest ← parse_all lines; ok (pair ∷ rest)

read_lines-parse_all :
    (last : Error) (lines : List Bytes) (results : StringMap Word)
    → read_lines last lines results
      ≡ (parse_all lines >>= (λ pairs. at_end last (Dict.insert_all pairs results)))
unfolding read_lines parse_all Dict.insert_all
read_lines-parse_all last [] results = refl
read_lines-parse_all last (line ∷ lines) results =
    step (parse_line line) (λ m. read_lines-parse_all last lines m)
  where
    step :
        (o : Outcome (Bytes × Word))
        → ((m : StringMap Word)
            → read_lines last lines m
              ≡ (parse_all lines >>= (λ pairs. at_end last (Dict.insert_all pairs m))))
        → (o >>= (λ pair. read_lines last lines (Dict.insert pair.0 pair.1 results))) ≡ (
            (o >>= (λ pair. parse_all lines >>= (λ rest. ok (pair ∷ rest))))
            >>= (λ pairs. at_end last (Dict.insert_all pairs results)))
    step (ok pair) ih = ih (Dict.insert pair.0 pair.1 results) ∙ bind (parse_all lines) pair
      where
        bind :
            (o : Outcome (List (Bytes × Word))) (kv : Bytes × Word)
            → (o >>= (λ pairs. at_end last (Dict.insert_all pairs (Dict.insert kv.0 kv.1 results))))
              ≡ ((o >>= (λ rest. ok (kv ∷ rest)))
                  >>= (λ pairs. at_end last (Dict.insert_all pairs results)))
        bind (ok rest) kv = refl
        bind (err x) kv = refl
        bind panic kv = refl
    step (err x) ih = refl
    step panic ih = refl

-- `Read` parses every line and returns the first error; if there is none, and the file was read to
-- its end, it fills the struct from the pairs.
read-parse_all :
    (open_file : Bytes → Outcome File)
    → read open_file ≡ (do
      file ← wrap (codes "open meminfo file") (open_file (codes "/proc/meminfo"))
      pairs ← parse_all (complete_lines file.content)
      at_end (read_error file.fault) (Dict.insert_all pairs []))
unfolding read
read-parse_all open_file = go (wrap (codes "open meminfo file") (open_file (codes "/proc/meminfo")))
  where
    go :
        (o : Outcome File)
        → (o >>= (λ file. read_lines (read_error file.fault) (complete_lines file.content) [])) ≡ (
            o >>= (λ file.
              parse_all (complete_lines file.content)
              >>= (λ pairs. at_end (read_error file.fault) (Dict.insert_all pairs []))))
    go (ok file) = read_lines-parse_all _ (complete_lines file.content) []
    go (err x) = refl
    go panic = refl

-- The values of the struct, with the names that they have in the file.
abbrev pub named_values : MemInfo → List (Bytes × Word)
named_values m =
    (codes "MemTotal", m.mem_total)
    ∷ (codes "MemFree", m.mem_free)
    ∷ (codes "Buffers", m.buffers)
    ∷ (codes "Cached", m.cached)
    ∷ (codes "SwapCached", m.swap_cached)
    ∷ (codes "Active", m.active)
    ∷ (codes "Inactive", m.inactive)
    ∷ (codes "Active(anon)", m.active_anon)
    ∷ (codes "Inactive(anon)", m.inactive_anon)
    ∷ (codes "Active(file)", m.active_file)
    ∷ (codes "Inactive(file)", m.inactive_file)
    ∷ (codes "Unevictable", m.unevictable)
    ∷ (codes "Mlocked", m.m_locked)
    ∷ (codes "SwapTotal", m.swap_total)
    ∷ (codes "SwapFree", m.swap_free)
    ∷ (codes "Dirty", m.dirty)
    ∷ (codes "Writeback", m.writeback)
    ∷ (codes "AnonPages", m.anon_pages)
    ∷ (codes "Mapped", m.mapped)
    ∷ (codes "Slab", m.slab)
    ∷ (codes "SReclaimable", m.s_reclaimable)
    ∷ (codes "SUnreclaim", m.s_unreclaim)
    ∷ (codes "PurgeTables", m.purge_tables)
    ∷ (codes "NFS_Unstable", m.nfs_unstable)
    ∷ (codes "Bounce", m.bounce)
    ∷ (codes "WritebackTmp", m.writeback_tmp)
    ∷ (codes "CommitLimit", m.commit_limit)
    ∷ (codes "Committed_AS", m.committed_as)
    ∷ (codes "VmallocTotal", m.vmalloc_total)
    ∷ (codes "VmallocUsed", m.vmalloc_used)
    ∷ (codes "VmallocChunk", m.vmalloc_chunk)
    ∷ (codes "DirectMap4k", m.direct_map_4k)
    ∷ (codes "DirectMap2M", m.direct_map_2m)
    ∷ (codes "DirectMap1G", m.direct_map_1g)
    ∷ []

module _ (open_file : Bytes → Outcome File) (file : File)
    (opened : open_file (codes "/proc/meminfo") ≡ ok file) where
  -- If the file is read to its end and each line can be parsed, `Read` returns the numbers of the
  -- file: each of the 34 fields has the last value that the file gives under its name, and 0 if it
  -- gives none.
  pub read-last_of :
      (pairs : List (Bytes × Word))
      → file.fault ≡ none
      → parse_all (complete_lines file.content) ≡ ok pairs
      → (m : MemInfo) × (read open_file ≡ ok m)
        × All (λ (name, value). value ≡ Dict.last_of name pairs 0) (named_values m)
  unfolding fill_struct at_end
  read-last_of pairs no_fault h = (
    fill_struct (Dict.insert_all pairs []),
    read-parse_all open_file ∙ rw (opened, h, no_fault) refl,
    looked_up
        (map (λ (p : Bytes × Word). p.0) (named_values (fill_struct (Dict.insert_all pairs [])))),
  )
    where
      looked_up :
          (names : List Bytes)
          → All
              (λ (name, value). value ≡ Dict.last_of name pairs 0)
              (map (λ (n : Bytes). (n, Dict.get_or 0 n (Dict.insert_all pairs []))) names)
      looked_up [] = tt
      looked_up (n ∷ names) = (Dict.get_or-insert_all_nil 0 n pairs, looked_up names)

  -- A line that cannot be parsed, with all lines before it parsed, decides the result: its error.
  pub read-err :
      (e : Error) → parse_all (complete_lines file.content) ≡ err e → read open_file ≡ err e
  read-err e h = read-parse_all open_file ∙ rw (opened, h) refl

-- A line of a name with a colon, a number that the kernel prints, and the unit is read as that
-- number of kilobytes in bytes, modulo 2 ^ 64; without a unit as the number itself.
pub of_fields-print :
    (line name : Bytes) (v : ℕ)
    → v < modulus
    → (of_fields line ((name ++ b':' ∷ []) ∷ format_uint v ∷ codes "kB" ∷ [])
        ≡ ok (name, Word.mul v 1024))
      × (of_fields line ((name ++ b':' ∷ []) ∷ format_uint v ∷ []) ≡ ok (name, v))
unfolding of_fields with_value with_unit bytes_eq
of_fields-print line name v h =
    rw (parse_uint-format_uint v h, trim_suffix-append name b':') (refl, refl)
