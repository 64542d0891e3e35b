-- ===== src/Resources.antt =====
-- resources/resources.go: the memory and IO usage of a container, from its statistics. The reader
-- of the statistics is a parameter, as it is an interface in the code.
mod Examples
use acadock_monitoring.Prelude.{
  List, [], ◌∷◌, ◌++◌, map, ap, Bytes, codes, Error, wrapped, Outcome, ok, err, panic, wrap, ◌>>=◌,
  ◌≡◌, ◌≢◌, refl, ◌∙◌, sym, append-nil, append_assoc,
}
use acadock_monitoring.Cgroup.Metrics as Metrics
use acadock_monitoring.Cgroup.Metrics.{Stats}
use acadock_monitoring.Cgroup.Stats.{StatsReader}
use acadock_monitoring.Client.Types.{MemoryUsage, IoUsage, IoDeviceUsage}

pub record ResourceUsage : Type 0 where
  pub memory : MemoryUsage
  pub io : IoUsage

pub record UsageGetter : Type 0 where
  pub cgroup_stats_reader : StatsReader

unfoldable pub new_usage_getter : StatsReader → UsageGetter
new_usage_getter reader = record { cgroup_stats_reader = reader }

abbrev pub resource_usage : MemoryUsage → IoUsage → ResourceUsage
resource_usage memory io = record { memory = memory; io = io }

unfoldable pub memory_usage_from_stats : Stats → MemoryUsage
memory_usage_from_stats stats = record {
  memory_usage = stats.memory_usage;
  memory_limit = stats.memory_limit;
  max_memory_usage = stats.memory_max_usage;
  swap_usage = stats.swap_usage;
  swap_limit = stats.swap_limit;
  max_swap_usage = stats.swap_max_usage;
}

pub device_usage : Metrics.IoDeviceUsage → IoDeviceUsage
device_usage device = record {
  device = [];
  device_path = device.device_path;
  mountpoint = device.mountpoint;
  major = device.major;
  minor = device.minor;
  read_bytes = device.read_bytes;
  write_bytes = device.write_bytes;
  read_ios = device.read_ios;
  write_ios = device.write_ios;
}

-- The loop, which appends to the devices so far.
append_usages : List IoDeviceUsage → List Metrics.IoDeviceUsage → List IoDeviceUsage
append_usages devices [] = devices
append_usages devices (d ∷ ds) = append_usages (devices ++ device_usage d ∷ []) ds

unfoldable pub io_usage_from_stats : Stats → IoUsage
unfolding append_usages device_usage
io_usage_from_stats stats = record { devices = append_usages [] stats.io_usage.devices }

module _ (get_stats : Bytes → Outcome Stats) where
  unfoldable pub get_memory_usage : Bytes → Outcome MemoryUsage
  get_memory_usage id = do
    stats ← wrap (codes "get cgroup stats") (get_stats id)
    ok (memory_usage_from_stats stats)

  unfoldable pub get_usage : Bytes → Outcome ResourceUsage
  get_usage id = do
    stats ← wrap (codes "get cgroup stats") (get_stats id)
    ok (resource_usage (memory_usage_from_stats stats) (io_usage_from_stats stats))

  unfoldable pub get_io_usage : Bytes → Outcome IoUsage
  get_io_usage id = do
    stats ← wrap (codes "get cgroup stats") (get_stats id)
    ok (io_usage_from_stats stats)

  -- `GetUsage` returns what `GetMemoryUsage` and `GetIOUsage` return, with the same error or panic.
  pub get_usage-parts :
      (id : Bytes)
      → get_usage id
        ≡ (do memory ← get_memory_usage id; io ← get_io_usage id; ok (resource_usage memory io))
  unfolding get_usage get_memory_usage get_io_usage
  get_usage-parts id = go (get_stats id)
    where
      go :
          (o : Outcome Stats)
          → (wrap (codes "get cgroup stats") o >>= (λ stats.
              ok (resource_usage (memory_usage_from_stats stats) (io_usage_from_stats stats))))
            ≡ ((wrap (codes "get cgroup stats") o >>= (λ stats. ok (memory_usage_from_stats stats)))
                >>= (λ memory.
                    (wrap (codes "get cgroup stats") o
                      >>= (λ stats. ok (io_usage_from_stats stats)))
                    >>= (λ io. ok (resource_usage memory io))))
      go (ok stats) = refl
      go (err e) = refl
      go panic = refl

append_usages-map :
    (devices : List IoDeviceUsage) (ds : List Metrics.IoDeviceUsage)
    → append_usages devices ds ≡ devices ++ map device_usage ds
unfolding append_usages
append_usages-map devices [] = sym (append-nil devices)
append_usages-map devices (d ∷ ds) =
    append_usages-map (devices ++ device_usage d ∷ []) ds
    ∙ append_assoc devices (device_usage d ∷ []) (map device_usage ds)

-- Every device of the statistics is reported, in its place and with its values.
pub io_usage_from_stats-map :
    (stats : Stats) → (io_usage_from_stats stats).devices ≡ map device_usage stats.io_usage.devices
unfolding io_usage_from_stats
io_usage_from_stats-map stats = append_usages-map [] stats.io_usage.devices
