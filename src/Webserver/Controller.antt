-- ===== src/Webserver/Controller.antt =====
-- webserver/controller.go: what the handlers share, and the handlers as its methods. A field that is
-- a pointer to a monitor is the state of the monitor when the handler reads it.
use acadock_monitoring.Prelude.{Bytes, List, Outcome}
use acadock_monitoring.Float.{Float64}
use acadock_monitoring.Client.Types.{
  MemoryUsage, CpuUsage, NetUsage, IoUsage, Usage, ContainersUsage, HostUsage,
}
use acadock_monitoring.Docker.Containers.{ContainerSummary}
use acadock_monitoring.Procfs.Readers.{MemInfoReader, read_mem_info}
use acadock_monitoring.Filters.{ExponentialSmoothing, read}
use acadock_monitoring.Cpu.{CpuUsageMonitor, get_container_usage, get_host_usage}
use acadock_monitoring.Net as Net
use acadock_monitoring.Net.{NetMonitor}
use acadock_monitoring.Resources as Resources
use acadock_monitoring.Resources.{UsageGetter, ResourceUsage}
use acadock_monitoring.Webserver.Host.{host_resources}
use acadock_monitoring.Webserver.Containers.{
  Reply, container_usage, containers_usage, container_mem_usage, container_io_usage,
  container_cpu_usage, container_net_usage,
}

pub record Controller (F : Type 0) : Type 0 where
  pub resources : UsageGetter
  pub cpu : CpuUsageMonitor
  pub net : NetMonitor
  pub queue : ExponentialSmoothing F
  pub procfs_memory : MemInfoReader

unfoldable pub new_controller :
    {F : Type 0}
    → UsageGetter
    → CpuUsageMonitor
    → NetMonitor
    → ExponentialSmoothing F
    → MemInfoReader
    → Controller F
new_controller resources cpu net queue procfs_memory = record {
  resources = resources;
  cpu = cpu;
  net = net;
  queue = queue;
  procfs_memory = procfs_memory;
}

module _ (fl : Float64) (seconds : fl.F) (c : Controller fl.F) where
  abbrev pub get_cpu : Bytes → CpuUsage
  get_cpu id = get_container_usage fl id c.cpu

  abbrev pub get_net : Bytes → NetUsage
  get_net id = Net.get_usage fl seconds id c.net

  abbrev pub get_resources : Bytes → Outcome ResourceUsage
  get_resources = Resources.get_usage c.resources.cgroup_stats_reader.get_stats

  abbrev pub get_memory : Bytes → Outcome MemoryUsage
  get_memory = Resources.get_memory_usage c.resources.cgroup_stats_reader.get_stats

  unfoldable pub container_usage_handler : Bytes → Outcome Usage
  container_usage_handler = container_usage get_cpu get_resources get_net

  unfoldable pub container_mem_usage_handler : Bytes → Outcome MemoryUsage
  container_mem_usage_handler = container_mem_usage get_memory

  unfoldable pub container_io_usage_handler : Bytes → Outcome IoUsage
  container_io_usage_handler =
      container_io_usage (Resources.get_io_usage c.resources.cgroup_stats_reader.get_stats)

  unfoldable pub container_cpu_usage_handler : Bytes → Outcome CpuUsage
  container_cpu_usage_handler = container_cpu_usage get_cpu

  unfoldable pub container_net_usage_handler : Bytes → Outcome NetUsage
  container_net_usage_handler = container_net_usage get_net

  -- The first argument of these two is what `ListContainers` returns.
  unfoldable pub containers_usage_handler :
      Outcome (List ContainerSummary) → Outcome (Reply ContainersUsage)
  containers_usage_handler = containers_usage get_cpu get_resources get_net

  unfoldable pub host_resources_handler :
      Outcome (List ContainerSummary) → Bytes → Outcome (HostUsage fl.F)
  host_resources_handler listed label_filter =
      host_resources fl (get_host_usage fl c.cpu) (read fl c.queue) (read_mem_info c.procfs_memory)
        listed get_memory label_filter
