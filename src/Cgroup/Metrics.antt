-- ===== src/Cgroup/Metrics.antt =====
-- The statistics of containerd's cgroups library, for the two versions of control groups, and the
-- `Stats` of cgroup/stats.go that the program makes of them.
use acadock_monitoring.Prelude.Word.{Word}
use acadock_monitoring.Prelude.{Bytes, List, Option}

-- Version 1: messages whose parts may be missing.
pub record CpuUsage : Type 0 where
  pub total : Word

pub record CpuStat : Type 0 where
  pub usage : Option CpuUsage

pub record MemoryEntry : Type 0 where
  pub usage : Word
  pub max : Word
  pub limit : Word

pub record MemoryStat : Type 0 where
  pub usage : Option MemoryEntry
  pub swap : Option MemoryEntry

pub record BlkIoEntry : Type 0 where
  pub op : Bytes
  pub device : Bytes
  pub major : Word
  pub minor : Word
  pub value : Word

pub record BlkIoStat : Type 0 where
  pub io_service_bytes_recursive : List BlkIoEntry
  pub io_serviced_recursive : List BlkIoEntry

pub record MetricsV1 : Type 0 where
  pub cpu : Option CpuStat
  pub memory : Option MemoryStat
  pub blkio : Option BlkIoStat

-- Version 2.
pub record CpuStatV2 : Type 0 where
  pub usage_usec : Word

pub record MemoryStatV2 : Type 0 where
  pub usage : Word
  pub usage_limit : Word
  pub swap_usage : Word
  pub swap_limit : Word

pub record IoEntry : Type 0 where
  pub major : Word
  pub minor : Word
  pub rbytes : Word
  pub wbytes : Word
  pub rios : Word
  pub wios : Word

pub record IoStat : Type 0 where
  pub usage : List IoEntry

pub record MetricsV2 : Type 0 where
  pub cpu : Option CpuStatV2
  pub memory : Option MemoryStatV2
  pub io : Option IoStat

-- What the program reports.
pub record IoDeviceUsage : Type 0 where
  pub device_path : Bytes
  pub mountpoint : Bytes
  pub major : Word
  pub minor : Word
  pub read_bytes : Word
  pub write_bytes : Word
  pub read_ios : Word
  pub write_ios : Word

pub record IoUsage : Type 0 where
  pub devices : List IoDeviceUsage

pub record Stats : Type 0 where
  pub cpu_usage : Word
  pub memory_usage : Word
  pub memory_max_usage : Word
  pub memory_limit : Word
  pub swap_usage : Word
  pub swap_max_usage : Word
  pub swap_limit : Word
  pub io_usage : IoUsage

-- The interface `procfs.MountInfos`.
pub record MountInfos : Type 0 where
  pub mountpoint : Word → Word → Bytes
  pub device_path : Word → Word → Bytes
