-- ===== src/Webserver/Containers.antt =====
-- webserver/containers.go: the usage of one container, and of all. The getters for the CPU and the
-- network of one container always return a nil error.
pub mod Entries
use acadock_monitoring.Prelude.Dict
use acadock_monitoring.Prelude.{
  ℕ, Bool, true, false, List, [], ◌∷◌, Option, some, none, Bytes, bytes_eq, codes, if◌then◌else◌,
  Error, Outcome, ok, err, panic, wrap, ◌>>=◌, StringMap,
}
use acadock_monitoring.Client.Types.{
  MemoryUsage, CpuUsage, IoUsage, NetUsage, Usage, ContainersUsage,
}
use acadock_monitoring.Docker.Containers.{ContainerSummary}
use acadock_monitoring.Resources.{ResourceUsage}

-- What is encoded with the status 200, or with the status 500.
pub data Reply (A : Type 0) : Type 0 where
  success : A → Reply A
  failed : Error → Reply A

module _ (get_cpu : Bytes → CpuUsage) (get_resources : Bytes → Outcome ResourceUsage)
    (get_net : Bytes → NetUsage) where
  -- `client.Usage` of a container, with the labels that a list gives.
  pub usage_with : Bytes → StringMap Bytes → ResourceUsage → Usage
  usage_with id labels resources = record {
    memory = some resources.memory;
    cpu = some (get_cpu id);
    io = some resources.io;
    net = some (get_net id);
    labels = labels;
  }

  -- `ContainerUsageHandler`
  unfoldable pub container_usage : Bytes → Outcome Usage
  unfolding usage_with
  container_usage id = do
    resources ← wrap (codes "get container resources usage") (get_resources id)
    ok (usage_with id [] resources)

  pub add_entry :
      ContainerSummary → Outcome ResourceUsage → ContainersUsage → Outcome ContainersUsage
  unfolding usage_with
  add_entry c (ok resources) usage =
      ok (Dict.insert c.id (usage_with c.id c.labels resources) usage)
  add_entry c (err e) usage = ok usage
  add_entry c panic usage = panic

  -- The loop over the containers.
  unfoldable pub add_entries : List ContainerSummary → ContainersUsage → Outcome ContainersUsage
  add_entries [] usage = ok usage
  add_entries (c ∷ cs) usage = do more ← add_entry c (get_resources c.id) usage; add_entries cs more

  -- `ContainersUsageHandler`, with what `ListContainers` returns.
  unfoldable pub containers_usage :
      Outcome (List ContainerSummary) → Outcome (Reply ContainersUsage)
  unfolding add_entry
  containers_usage (ok containers) = do usage ← add_entries containers []; ok (success usage)
  containers_usage (err e) = ok (failed e)
  containers_usage panic = panic

-- `ContainerMemUsageHandler`
unfoldable pub container_mem_usage : (Bytes → Outcome MemoryUsage) → Bytes → Outcome MemoryUsage
container_mem_usage get_memory_usage id =
    wrap (codes "get container memory usage") (get_memory_usage id)

-- `ContainerIOUsageHandler`
unfoldable pub container_io_usage : (Bytes → Outcome IoUsage) → Bytes → Outcome IoUsage
container_io_usage get_io_usage id = wrap (codes "get container io usage") (get_io_usage id)

-- `ContainerCPUUsageHandler`
unfoldable pub container_cpu_usage : (Bytes → CpuUsage) → Bytes → Outcome CpuUsage
container_cpu_usage get_container_usage id =
    wrap (codes "get container cpu usage") (ok (get_container_usage id))

-- `ContainerNetUsageHandler`
unfoldable pub container_net_usage : (Bytes → NetUsage) → Bytes → Outcome NetUsage
container_net_usage get_usage id = wrap (codes "get container network usage") (ok (get_usage id))
