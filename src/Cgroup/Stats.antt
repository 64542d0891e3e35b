-- ===== src/Cgroup/Stats.antt =====
-- cgroup/stats.go: the statistics of a container, from either version of control groups.
pub mod Errors
pub mod Safety
pub mod Values
mod Examples
use acadock_monitoring.Prelude.Word
use acadock_monitoring.Prelude.Word.{Word}
use acadock_monitoring.Prelude.{
  ℕ, ◌*◌, Bool, true, false, List, [], ◌∷◌, map, Option, none, some, Bytes, codes, ltb,
  if◌then◌else◌, Error, stats_reader, Outcome, ok, err, panic, wrap, ◌>>=◌,
}
use acadock_monitoring.Cgroup.Metrics.{
  CpuUsage, CpuStat, MemoryEntry, MemoryStat, BlkIoStat, MetricsV1, CpuStatV2, MemoryStatV2,
  IoEntry, IoStat, MetricsV2, IoDeviceUsage, IoUsage, Stats, MountInfos,
}
use acadock_monitoring.Cgroup.BlkIo.{cgroup_v1_io_usage}
use acadock_monitoring.Cgroup.Manager.{CgroupLibrary, Settings, Manager, new_manager, handle}

-- The getters of the messages of version 1 are defined on nil, and give nil or 0 there.
abbrev usage_of_cpu : Option CpuStat → Option CpuUsage
usage_of_cpu none = none
usage_of_cpu (some c) = c.usage

abbrev total_of : Option CpuUsage → Word
total_of none = 0
total_of (some u) = u.total

abbrev usage_of_memory : Option MemoryStat → Option MemoryEntry
usage_of_memory none = none
usage_of_memory (some m) = m.usage

abbrev swap_of_memory : Option MemoryStat → Option MemoryEntry
swap_of_memory none = none
swap_of_memory (some m) = m.swap

abbrev zero_entry : MemoryEntry
zero_entry = record { usage = 0; max = 0; limit = 0 }

abbrev entry_of : Option MemoryEntry → MemoryEntry
entry_of none = zero_entry
entry_of (some e) = e

unfoldable pub cgroup_v1_swap_metric : Word → Word → Word
cgroup_v1_swap_metric memory_and_swap memory =
    if ltb memory_and_swap memory then 0 else Word.sub memory_and_swap memory

stats_of_v1 : MetricsV1 → IoUsage → Stats
stats_of_v1 stats io =
    let cpu_usage = usage_of_cpu stats.cpu in
    let memory_usage = entry_of (usage_of_memory stats.memory) in
    let memory_swap = entry_of (swap_of_memory stats.memory) in
    record {
      cpu_usage = Word.mul (total_of cpu_usage) 1;
      memory_usage = memory_usage.usage;
      memory_max_usage = memory_usage.max;
      memory_limit = memory_usage.limit;
      swap_usage = cgroup_v1_swap_metric memory_swap.usage memory_usage.usage;
      swap_max_usage = cgroup_v1_swap_metric memory_swap.max memory_usage.max;
      swap_limit = cgroup_v1_swap_metric memory_swap.limit memory_usage.limit;
      io_usage = io;
    }

unfoldable pub cgroup_v1_stats : MetricsV1 → MountInfos → Outcome Stats
unfolding stats_of_v1
cgroup_v1_stats stats infos = do
  io ← cgroup_v1_io_usage infos stats.blkio
  ok (stats_of_v1 stats io)

device_v2 : MountInfos → IoEntry → IoDeviceUsage
device_v2 infos entry = record {
  device_path = infos.device_path entry.major entry.minor;
  mountpoint = infos.mountpoint entry.major entry.minor;
  major = entry.major;
  minor = entry.minor;
  read_bytes = entry.rbytes;
  write_bytes = entry.wbytes;
  read_ios = entry.rios;
  write_ios = entry.wios;
}

append_devices : MountInfos → List IoEntry → List IoDeviceUsage
unfolding device_v2
append_devices infos [] = []
append_devices infos (entry ∷ entries) = device_v2 infos entry ∷ append_devices infos entries

unfoldable pub cgroup_v2_io_usage : Option IoStat → MountInfos → IoUsage
unfolding append_devices
cgroup_v2_io_usage none infos = record { devices = [] }
cgroup_v2_io_usage (some stat) infos = record { devices = append_devices infos stat.usage }

-- Reading a field of a nil pointer panics.
abbrev handle_stat : {H : Type 0} → Option H → (H → Outcome Stats) → Outcome Stats
handle_stat none f = panic
handle_stat (some h) f = f h

unfoldable pub cgroup_v2_stats : MetricsV2 → MountInfos → Outcome Stats
cgroup_v2_stats stats infos = handle_stat stats.cpu (λ cpu. handle_stat stats.memory (λ memory.
    ok (record {
      cpu_usage = Word.mul cpu.usage_usec 1000;
      memory_usage = memory.usage;
      memory_max_usage = 0;
      memory_limit = memory.usage_limit;
      swap_usage = memory.swap_usage;
      swap_max_usage = 0;
      swap_limit = memory.swap_limit;
      io_usage = cgroup_v2_io_usage stats.io infos;
    })))

-- `NewStatsReaderError(errors.Wrap(ctx, err, text))`, around an error.
abbrev pub as_stats_reader {ℓ} : {A : Type ℓ} → Bytes → Outcome A → Outcome A
as_stats_reader text m = elim (wrap text m) [
  | ok a ↦ ok a
  | err e ↦ err (stats_reader e)
  | panic ↦ panic
]

module _ {V1 V2 : Type 0} (lib : CgroupLibrary V1 V2) (infos : MountInfos) where
  pub get_cgroup_v2_stats : Manager V1 V2 → Outcome Stats
  unfolding cgroup_v2_stats
  get_cgroup_v2_stats m = do
    stats ← wrap (codes "get cgroup v2 stats") (handle m.cgroup_v2_manager lib.stat_v2)
    cgroup_v2_stats stats infos

  pub get_cgroup_v1_stats : Manager V1 V2 → Outcome Stats
  unfolding cgroup_v1_stats
  get_cgroup_v1_stats m = do
    stats ← wrap (codes "get cgroup v1 stats") (handle m.cgroup_v1_manager lib.stat_v1)
    cgroup_v1_stats stats infos

  unfoldable pub get_stats : Settings → Bytes → Outcome Stats
  unfolding get_cgroup_v1_stats get_cgroup_v2_stats
  get_stats settings container_id = do
    manager ←
        as_stats_reader (codes "create cgroup manager") (new_manager lib settings container_id)
    as_stats_reader (codes "get cgroup stats")
        (if manager.v2 then get_cgroup_v2_stats manager else get_cgroup_v1_stats manager)

-- The interface `StatsReader`.
pub record StatsReader : Type 0 where
  pub get_stats : Bytes → Outcome Stats

-- `NewStatsReader`, with the library and the settings that `GetStats` reads.
unfoldable pub new_stats_reader :
    {V1 V2 : Type 0} → CgroupLibrary V1 V2 → Settings → MountInfos → StatsReader
new_stats_reader lib settings infos = record { get_stats = get_stats lib infos settings }
