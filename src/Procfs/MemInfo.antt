-- ===== src/Procfs/MemInfo.antt =====
-- procfs/meminfo.go: /proc/meminfo, read line by line into a map and from there into a struct.
pub mod Table
pub mod Safety
mod Examples
use acadock_monitoring.Prelude.Word
use acadock_monitoring.Prelude.Word.{Word}
use acadock_monitoring.Prelude.Dict
use acadock_monitoring.Prelude.{
  ℕ, Bool, true, false, List, [], ◌∷◌, ◌++◌, Option, none, some, Bytes, bytes_eq, codes,
  if◌then◌else◌, Error, eof, foreign, wrapped, wrapped_nil, Outcome, ok, err, panic, wrap, ◌>>=◌,
  StringMap,
}
use acadock_monitoring.Text.Decimal.{parse_uint}
use acadock_monitoring.Text.Fields.{fields, trim_suffix}
use acadock_monitoring.Text.Lines.{File, complete_lines, read_error}

pub record MemInfo : Type 0 where
  pub mem_total : Word
  pub mem_free : Word
  pub buffers : Word
  pub cached : Word
  pub swap_cached : Word
  pub active : Word
  pub inactive : Word
  pub active_anon : Word
  pub inactive_anon : Word
  pub active_file : Word
  pub inactive_file : Word
  pub unevictable : Word
  pub m_locked : Word
  pub swap_total : Word
  pub swap_free : Word
  pub dirty : Word
  pub writeback : Word
  pub anon_pages : Word
  pub mapped : Word
  pub slab : Word
  pub s_reclaimable : Word
  pub s_unreclaim : Word
  pub purge_tables : Word
  pub nfs_unstable : Word
  pub bounce : Word
  pub writeback_tmp : Word
  pub commit_limit : Word
  pub committed_as : Word
  pub vmalloc_total : Word
  pub vmalloc_used : Word
  pub vmalloc_chunk : Word
  pub direct_map_4k : Word
  pub direct_map_2m : Word
  pub direct_map_1g : Word

unfoldable pub free_buffers : MemInfo → Word
free_buffers m = Word.add (Word.add m.mem_free m.buffers) m.cached

pub mem_used : MemInfo → Word
mem_used m = Word.sub m.mem_total m.mem_free

unfoldable pub swap_used : MemInfo → Word
swap_used m = Word.sub m.swap_total m.swap_free

-- `FillStruct`, which looks up each field by its tag.
unfoldable pub fill_struct : StringMap Word → MemInfo
fill_struct values = record {
  mem_total = Dict.get_or 0 (codes "MemTotal") values;
  mem_free = Dict.get_or 0 (codes "MemFree") values;
  buffers = Dict.get_or 0 (codes "Buffers") values;
  cached = Dict.get_or 0 (codes "Cached") values;
  swap_cached = Dict.get_or 0 (codes "SwapCached") values;
  active = Dict.get_or 0 (codes "Active") values;
  inactive = Dict.get_or 0 (codes "Inactive") values;
  active_anon = Dict.get_or 0 (codes "Active(anon)") values;
  inactive_anon = Dict.get_or 0 (codes "Inactive(anon)") values;
  active_file = Dict.get_or 0 (codes "Active(file)") values;
  inactive_file = Dict.get_or 0 (codes "Inactive(file)") values;
  unevictable = Dict.get_or 0 (codes "Unevictable") values;
  m_locked = Dict.get_or 0 (codes "Mlocked") values;
  swap_total = Dict.get_or 0 (codes "SwapTotal") values;
  swap_free = Dict.get_or 0 (codes "SwapFree") values;
  dirty = Dict.get_or 0 (codes "Dirty") values;
  writeback = Dict.get_or 0 (codes "Writeback") values;
  anon_pages = Dict.get_or 0 (codes "AnonPages") values;
  mapped = Dict.get_or 0 (codes "Mapped") values;
  slab = Dict.get_or 0 (codes "Slab") values;
  s_reclaimable = Dict.get_or 0 (codes "SReclaimable") values;
  s_unreclaim = Dict.get_or 0 (codes "SUnreclaim") values;
  purge_tables = Dict.get_or 0 (codes "PurgeTables") values;
  nfs_unstable = Dict.get_or 0 (codes "NFS_Unstable") values;
  bounce = Dict.get_or 0 (codes "Bounce") values;
  writeback_tmp = Dict.get_or 0 (codes "WritebackTmp") values;
  commit_limit = Dict.get_or 0 (codes "CommitLimit") values;
  committed_as = Dict.get_or 0 (codes "Committed_AS") values;
  vmalloc_total = Dict.get_or 0 (codes "VmallocTotal") values;
  vmalloc_used = Dict.get_or 0 (codes "VmallocUsed") values;
  vmalloc_chunk = Dict.get_or 0 (codes "VmallocChunk") values;
  direct_map_4k = Dict.get_or 0 (codes "DirectMap4k") values;
  direct_map_2m = Dict.get_or 0 (codes "DirectMap2M") values;
  direct_map_1g = Dict.get_or 0 (codes "DirectMap1G") values;
}

-- The unit, where there are three fields. The error that is wrapped is nil there.
with_unit : Bytes → Bytes → Word → List Bytes → Outcome (Bytes × Word)
with_unit line name value (unit ∷ []) =
    if bytes_eq unit (codes "kB")
    then ok (name, Word.mul value 1024)
    else err (wrapped_nil (codes "invalid unit for line " ++ line))
with_unit line name value _ = ok (name, value)

with_value : Bytes → Bytes → Bytes → Option ℕ → List Bytes → Outcome (Bytes × Word)
unfolding with_unit
with_value line name digits none rest =
    err (wrapped (codes "invalid value for " ++ name ++ codes ": " ++ digits) (foreign 1))
with_value line name digits (some value) rest = with_unit line name value rest

-- What the loop makes of the fields of a line.
unfoldable pub of_fields : Bytes → List Bytes → Outcome (Bytes × Word)
unfolding with_value
of_fields line (header ∷ digits ∷ rest) =
    with_value line (trim_suffix header b':') digits (parse_uint digits) rest
of_fields line _ = err (wrapped_nil (codes "invalid meminfo line: " ++ line))

unfoldable pub parse_line : Bytes → Outcome (Bytes × Word)
unfolding of_fields
parse_line line = of_fields line (fields line)

unfoldable pub at_end : Error → StringMap Word → Outcome MemInfo
unfolding fill_struct
at_end eof results = ok (fill_struct results)
at_end last results = err (wrapped (codes "read a line from meminfo") last)

unfoldable pub read_lines : Error → List Bytes → StringMap Word → Outcome MemInfo
read_lines last [] results = at_end last results
read_lines last (line ∷ lines) results = do
  pair ← parse_line line
  read_lines last lines (Dict.insert pair.0 pair.1 results)

-- `MemInfoReader.Read`, with what `Open` returns.
unfoldable pub read : (Bytes → Outcome File) → Outcome MemInfo
unfolding read_lines
read open_file = do
  file ← wrap (codes "open meminfo file") (open_file (codes "/proc/meminfo"))
  read_lines (read_error file.fault) (complete_lines file.content) []
