-- ===== src/Cpu.antt =====
-- cpu/cpu.go: the CPU monitor. Its fields behind the mutex are a record; each critical section is a
-- function on it, so an interleaving of the goroutines is a sequence of such calls.
pub mod Usage
pub mod Host
pub mod Acts
pub mod History
pub mod Workers
mod Examples
use acadock_monitoring.Prelude.Word
use acadock_monitoring.Prelude.Word.{Word}
use acadock_monitoring.Prelude.Dict
use acadock_monitoring.Prelude.{
  ℕ, Bool, true, false, ◌&&◌, ◌||◌, List, [], ◌∷◌, Option, none, some, Bytes, codes, if◌then◌else◌,
  Error, eof, foreign, message, wrapped, wrapped_nil, stats_reader, Outcome, ok, err, panic, wrap,
  StringMap,
}
use acadock_monitoring.Float.{Float64}
use acadock_monitoring.Procfs.CpuStat.{SingleCpuStat, CpuStats}
use acadock_monitoring.Procfs.CpuStat
use acadock_monitoring.Cgroup.Metrics.{Stats}
use acadock_monitoring.Client.Types.{CpuUsage, HostCpuUsage}

pub record CpuUsageMonitor : Type 0 where
  pub num_cpu : Word
  pub current_host_usage : Option SingleCpuStat
  pub previous_host_usage : Option SingleCpuStat
  pub current_system_usage : StringMap Word
  pub previous_system_usage : StringMap Word
  pub current_container_stats : StringMap Stats
  pub previous_container_stats : StringMap Stats

abbrev pub zero_stats : Stats
zero_stats = record {
  cpu_usage = 0;
  memory_usage = 0;
  memory_max_usage = 0;
  memory_limit = 0;
  swap_usage = 0;
  swap_max_usage = 0;
  swap_limit = 0;
  io_usage = record { devices = [] };
}

pub new_cpu_usage_monitor : Word → CpuUsageMonitor
new_cpu_usage_monitor num_cpu = record {
  num_cpu = num_cpu;
  current_host_usage = none;
  previous_host_usage = none;
  current_system_usage = [];
  previous_system_usage = [];
  current_container_stats = [];
  previous_container_stats = [];
}

-- The first argument is what `cpuStatReader.Read` returns.
unfoldable pub update_host_cpu_usage :
    Outcome CpuStats → CpuUsageMonitor → CpuUsageMonitor × Outcome (Unit {0})
update_host_cpu_usage (ok current) m = (
  record m {
    previous_host_usage = m.current_host_usage;
    current_host_usage = some (CpuStat.all current);
  },
  ok tt,
)
update_host_cpu_usage (err e) m = (m, err (wrapped (codes "get host CPU stats") e))
update_host_cpu_usage panic m = (m, panic)

-- The critical section of `updateContainerCPUUsage`.
unfoldable pub store_sample : Stats → CpuStats → Bytes → CpuUsageMonitor → CpuUsageMonitor
store_sample stats system id m = record m {
  previous_container_stats =
      Dict.insert id (Dict.get_or zero_stats id m.current_container_stats)
        m.previous_container_stats;
  current_container_stats = Dict.insert id stats m.current_container_stats;
  previous_system_usage =
      Dict.insert id (Dict.get_or 0 id m.current_system_usage) m.previous_system_usage;
  current_system_usage = Dict.insert id (CpuStat.sum (CpuStat.all system)) m.current_system_usage;
}

-- The first two arguments are what `GetStats` and `Read` return.
unfoldable pub update_container_cpu_usage :
    Outcome Stats
    → Outcome CpuStats
    → Bytes
    → CpuUsageMonitor
    → CpuUsageMonitor × Outcome (Unit {0})
update_container_cpu_usage (err e) system id m = (m, err (wrapped (codes "get cgroup stats") e))
update_container_cpu_usage panic system id m = (m, panic)
update_container_cpu_usage (ok stats) (err e) id m =
    (m, err (wrapped (codes "read container CPU usage") e))
update_container_cpu_usage (ok stats) panic id m = (m, panic)
update_container_cpu_usage (ok stats) (ok system) id m = (store_sample stats system id m, ok tt)

unfoldable pub clean_monitoring_data : Bytes → CpuUsageMonitor → CpuUsageMonitor
clean_monitoring_data id m = record m {
  current_container_stats = Dict.delete id m.current_container_stats;
  previous_container_stats = Dict.delete id m.previous_container_stats;
}

-- `errors.As(err, &cgroupStatsErr)`: is there a `StatsReaderError` in the chain?
unfoldable pub is_stats_reader_error : Error → Bool
is_stats_reader_error (stats_reader e) = true
is_stats_reader_error (wrapped text e) = is_stats_reader_error e
is_stats_reader_error _ = false

-- Does the goroutine of a container go on after a tick?
pub data Tick : Type 0 where
  goes_on stops crashes : Tick

after_update : Bytes → CpuUsageMonitor × Outcome (Unit {0}) → CpuUsageMonitor × Tick
after_update id (m, ok _) = (m, goes_on)
after_update id (m, panic) = (m, crashes)
after_update id (m, err e) =
    if is_stats_reader_error e then (clean_monitoring_data id m, stops) else (m, goes_on)

-- A tick of `monitorContainerCPU`.
unfoldable pub monitor_tick :
    Outcome Stats → Outcome CpuStats → Bytes → CpuUsageMonitor → CpuUsageMonitor × Tick
unfolding after_update
monitor_tick stats system id m = after_update id (update_container_cpu_usage stats system id m)

module _ (fl : Float64) where
  open fl use {F, of_int64, of_uint64, sub, mul, div, lt, to_int64}

  abbrev pub no_host_usage : HostCpuUsage F
  no_host_usage = record {
    usage = of_int64 0;
    amount = 0;
    queue_length_exponentially_smoothed = of_int64 0;
  }

  -- `GetHostUsage` on two samples.
  pub host_usage_between : Word → SingleCpuStat → SingleCpuStat → HostCpuUsage F
  host_usage_between num_cpu previous current =
      let delta_sum = of_int64 (Word.sub (CpuStat.sum current) (CpuStat.sum previous)) in
      let delta_idled = of_int64 (Word.sub current.idle previous.idle) in
      if lt delta_idled (of_int64 0) || lt delta_sum (of_int64 0) then no_host_usage else record {
        usage = div (sub delta_sum delta_idled) delta_sum;
        amount = num_cpu;
        queue_length_exponentially_smoothed = of_int64 0;
      }

  pub host_usage_of : Word → Option SingleCpuStat → Option SingleCpuStat → HostCpuUsage F
  host_usage_of num_cpu none current = no_host_usage
  host_usage_of num_cpu (some previous) none = no_host_usage
  host_usage_of num_cpu (some previous) (some current) = host_usage_between num_cpu previous current

  unfoldable pub get_host_usage : CpuUsageMonitor → HostCpuUsage F
  unfolding host_usage_between host_usage_of
  get_host_usage m = host_usage_of m.num_cpu m.previous_host_usage m.current_host_usage

  -- The percentage for two differences of CPU time.
  pub percents : Word → Word → Word → Word
  percents num_cpu cpu system =
      let delta_cpu_usage = of_int64 cpu in
      let delta_system_cpu_usage = of_int64 system in
      if lt (of_int64 0) delta_cpu_usage && lt (of_int64 0) delta_system_cpu_usage
      then to_int64
          (mul (mul (div delta_cpu_usage delta_system_cpu_usage) (of_int64 100)) (of_int64 num_cpu))
      else 0

  -- What is made of the values that the maps hold for the container: nothing without a previous
  -- sample.
  pub usage_of : Word → Option Stats → Stats → Stats → Word → Word → CpuUsage
  usage_of num_cpu none current previous system system' = record { usage_in_percents = 0 }
  usage_of num_cpu (some _) current previous system system' = record {
    usage_in_percents =
        percents num_cpu (Word.sub current.cpu_usage previous.cpu_usage) (Word.sub system system');
  }

  unfoldable pub get_container_usage : Bytes → CpuUsageMonitor → CpuUsage
  unfolding percents usage_of
  get_container_usage id m =
      usage_of m.num_cpu (Dict.lookup id m.previous_container_stats)
        (Dict.get_or zero_stats id m.current_container_stats)
        (Dict.get_or zero_stats id m.previous_container_stats)
        (Dict.get_or 0 id m.current_system_usage) (Dict.get_or 0 id m.previous_system_usage)
