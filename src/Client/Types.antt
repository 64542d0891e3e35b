-- ===== src/Client/Types.antt =====
-- client/client.go: the values that the service reports. A `float64` is of a type `F`.
use acadock_monitoring.Prelude.Word.{Word}
use acadock_monitoring.Prelude.{Bytes, List, Option, StringMap}

pub record MemoryUsage : Type 0 where
  pub memory_usage : Word
  pub swap_usage : Word
  pub memory_limit : Word
  pub swap_limit : Word
  pub max_memory_usage : Word
  pub max_swap_usage : Word

pub record CpuUsage : Type 0 where
  pub usage_in_percents : Word

pub record HostCpuUsage (F : Type 0) : Type 0 where
  pub usage : F
  pub amount : Word
  pub queue_length_exponentially_smoothed : F

pub record HostMemoryUsage : Type 0 where
  pub free : Word
  pub total : Word
  pub swap : Word
  pub memory_usage : Word
  pub memory_committed : Word
  pub max_memory_usage : Word
  pub swap_usage : Word
  pub swap_committed : Word
  pub max_swap_usage : Word

pub record HostUsage (F : Type 0) : Type 0 where
  pub cpu : HostCpuUsage F
  pub memory : HostMemoryUsage

-- `netstat.NetworkStat`, of a library: the counters of one direction.
pub record NetworkInfo : Type 0 where
  pub bytes : Word
  pub packets : Word
  pub drop : Word
  pub errs : Word
  pub fifo : Word
  pub frame : Word
  pub compressed : Word
  pub multicast : Word

pub record NetworkStat : Type 0 where
  pub interface : Bytes
  pub received : NetworkInfo
  pub transmit : NetworkInfo

pub record NetUsage : Type 0 where
  pub network_stat : NetworkStat
  pub rx_bps : Word
  pub tx_bps : Word

pub record IoDeviceUsage : Type 0 where
  pub device : Bytes
  pub device_path : Bytes
  pub mountpoint : Bytes
  pub major : Word
  pub minor : Word
  pub read_bytes : Word
  pub write_bytes : Word
  pub read_ios : Word
  pub write_ios : Word

pub record IoUsage : Type 0 where
  pub devices : List IoDeviceUsage

pub record Usage : Type 0 where
  pub memory : Option MemoryUsage
  pub cpu : Option CpuUsage
  pub io : Option IoUsage
  pub net : Option NetUsage
  pub labels : StringMap Bytes

abbrev pub ContainersUsage : Type 0
ContainersUsage = StringMap Usage
