-- ===== src/Resources/Examples.antt =====
-- Runs of the getters of a container's resources.
use acadock_monitoring.Prelude.{[], ◌∷◌, codes, ok, ◌≡◌, refl}
use acadock_monitoring.Cgroup.Metrics as Metrics
use acadock_monitoring.Cgroup.Metrics.{Stats}
use acadock_monitoring.Resources.{memory_usage_from_stats, get_memory_usage}

abbrev disk : Metrics.IoDeviceUsage
disk = record {
  device_path = codes "/dev/sda";
  mountpoint = codes "/";
  major = 8;
  minor = 0;
  read_bytes = 1;
  write_bytes = 2;
  read_ios = 3;
  write_ios = 4;
}

abbrev stats : Stats
stats = record {
  cpu_usage = 5;
  memory_usage = 6;
  memory_max_usage = 7;
  memory_limit = 8;
  swap_usage = 9;
  swap_max_usage = 10;
  swap_limit = 11;
  io_usage = record { devices = disk ∷ record disk { minor = 1 } ∷ [] };
}

memory :
    get_memory_usage (λ _. ok stats) (codes "a")
    ≡ ok (record {
      memory_usage = 6;
      swap_usage = 9;
      memory_limit = 8;
      swap_limit = 11;
      max_memory_usage = 7;
      max_swap_usage = 10;
    })
unfolding get_memory_usage memory_usage_from_stats
memory = refl
