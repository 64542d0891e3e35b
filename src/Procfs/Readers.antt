-- ===== src/Procfs/Readers.antt =====
-- procfs/: the readers as the service keeps them, over the interfaces of procfs/utils.go. What
-- `os.Open` and `sysconf.Sysconf` return is a parameter.
use acadock_monitoring.Prelude.Word.{Word}
use acadock_monitoring.Prelude.{Bytes, Option, Outcome}
use acadock_monitoring.Text.Lines.{File}
use acadock_monitoring.Procfs.CpuStat as CpuStat
use acadock_monitoring.Procfs.CpuStat.{CpuStats}
use acadock_monitoring.Procfs.MemInfo as MemInfo
use acadock_monitoring.Procfs.LoadAvg.{read_running}
use acadock_monitoring.Procfs.{open_file}

-- What the readers use of the operating system.
pub record Os : Type 0 where
  pub os_open : Bytes → Outcome File
  pub clk_tck : Outcome Word

-- The interface `Sysconf`.
pub record Sysconf : Type 0 where
  pub clock_tick : Outcome Word

pub new_sysconf : Os → Sysconf
new_sysconf os = record { clock_tick = os.clk_tck }

-- The interface `FS`.
pub record Fs : Type 0 where
  pub open_file : Bytes → Outcome File

unfoldable pub new_file_system : Os → Fs
new_file_system os = record { open_file = open_file os.os_open }

pub record CpuStatReader : Type 0 where
  pub fs : Fs
  pub sysconf : Sysconf

pub new_cpu_stat_reader : Os → CpuStatReader
new_cpu_stat_reader os = record { fs = new_file_system os; sysconf = new_sysconf os }

pub record MemInfoReader : Type 0 where
  pub fs : Fs

unfoldable pub new_mem_info_reader : Os → MemInfoReader
unfolding new_file_system
new_mem_info_reader os = record { fs = new_file_system os }

pub record LoadAvgReader : Type 0 where
  pub fs : Fs

pub new_load_avg_reader : Os → LoadAvgReader
new_load_avg_reader os = record { fs = new_file_system os }

pub record LoadAvgMetricsWrapper : Type 0 where
  pub r : LoadAvgReader

pub filter_wrap : LoadAvgReader → LoadAvgMetricsWrapper
filter_wrap r = record { r = r }

-- `Read` of each of them.
unfoldable pub read_cpu_stats : CpuStatReader → Outcome CpuStats
read_cpu_stats r = CpuStat.read r.sysconf.clock_tick r.fs.open_file

unfoldable pub read_mem_info : MemInfoReader → Outcome MemInfo.MemInfo
read_mem_info r = MemInfo.read r.fs.open_file

unfoldable pub read_metric :
    {F : Type 0} → (Bytes → Option F) → (Word → F) → LoadAvgMetricsWrapper → Outcome F
read_metric convert of_uint w = read_running convert of_uint w.r.fs.open_file
