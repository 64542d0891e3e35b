-- ===== src/Procfs.antt =====
-- procfs/: the readers of the files under /proc. `Sysconf` and the files themselves are parameters.
pub mod CpuStat
pub mod MemInfo
pub mod LoadAvg
pub mod MountInfo
pub mod Readers
use acadock_monitoring.Prelude.{Bytes, codes, Outcome, wrap}
use acadock_monitoring.Text.Lines.{File}

-- `FileSystem.Open`, of procfs/utils.go, with what `os.Open` returns: the `Open` that the readers have.
unfoldable pub open_file : (Bytes → Outcome File) → Bytes → Outcome File
open_file os_open filename = wrap (codes "open file") (os_open filename)
