-- ===== src/Cgroup/Stats/Examples.antt =====
-- Runs of `GetStats`, with a library that knows one container.
use acadock_monitoring.Prelude.{
  ℕ, ◌-◌, false, [], some, none, codes, bytes_eq, if◌then◌else◌, Error, foreign, wrapped,
  stats_reader, Outcome, ok, err, panic, ◌≡◌, ◌≢◌, refl, arith,
}
use acadock_monitoring.Text.{text}
use acadock_monitoring.Cgroup.Metrics.{MemoryEntry, MetricsV1, MetricsV2, Stats, MountInfos}
use acadock_monitoring.Cgroup.Manager.{
  Location, slice, static_path, CgroupLibrary, Settings, Manager, new_manager,
}
use acadock_monitoring.Cgroup.Stats.{get_stats, cgroup_v1_stats}
use acadock_monitoring.Cgroup.Stats.Errors.{get_stats-err}
use acadock_monitoring.Cgroup.Stats.Safety.{IsWellBehaved}
use acadock_monitoring.Cgroup.Stats.Values.{cgroup_v1_stats-swap}

abbrev memory : MemoryEntry → MemoryEntry → MetricsV1
memory usage swap = record {
  cpu = none;
  memory = some (record { usage = some usage; swap = some swap });
  blkio = none;
}

abbrev metrics : MetricsV1
metrics =
    memory (record { usage = 10; max = 20; limit = 30 })
      (record { usage = 15; max = 27; limit = 41 })

abbrev metrics_v2 : MetricsV2
metrics_v2 = record {
  cpu = some (record { usage_usec = 7 });
  memory = some (record { usage = 1; usage_limit = 2; swap_usage = 3; swap_limit = 4 });
  io = none;
}

abbrev load : Location → Outcome ℕ
load (slice parent name) = err (foreign 2)
load (static_path path) = if bytes_eq path (codes "docker/a") then ok 1 else err (foreign 2)

abbrev library : CgroupLibrary ℕ ℕ
library = record {
  load_v1 = load;
  load_v2_systemd = λ _ _. ok 2;
  stat_v1 = λ _. ok metrics;
  stat_v2 = λ _. ok metrics_v2;
  tasks_v1 = λ _ _ _. ok [];
  procs_v2 = λ _ _. ok [];
}

abbrev infos : MountInfos
infos = record { mountpoint = λ _ _. []; device_path = λ _ _. [] }

abbrev docker_v1 : Settings
docker_v1 = record { is_using_cgroup_v2 = false; cgroup_source = codes "docker" }

load-ne-panic : (l : Location) → load l ≢ panic
load-ne-panic (slice parent name) = λ e. cc
load-ne-panic (static_path path) = ground arith

library-IsWellBehaved : IsWellBehaved library
library-IsWellBehaved = record {
  load_v1_returns = load-ne-panic;
  load_v2_returns = λ _ _ e. cc;
  stat_v1_returns = λ _ e. cc;
  stat_v2_returns = λ _ e. cc;
  stat_v2_fills = λ h m e. (
    (record { usage_usec = 7 }, ground arith),
    (record { usage = 1; usage_limit = 2; swap_usage = 3; swap_limit = 4 }, ground arith),
  );
}

-- The test cases of `TestCgroupV1StatsMapsStats`: 15 - 10, 27 - 20 and 41 - 30.
cgroup_v1_stats-swap_example :
    (r : Stats) × (cgroup_v1_stats metrics infos ≡ ok r)
    × (r.swap_usage ≡ 15 - r.memory_usage)
    × (r.swap_max_usage ≡ 27 - r.memory_max_usage)
    × (r.swap_limit ≡ 41 - r.memory_limit)
cgroup_v1_stats-swap_example = cgroup_v1_stats-swap metrics infos (omega arith)

unknown_container :
    get_stats library infos docker_v1 (codes "b")
    ≡ err (
        stats_reader
          (wrapped (codes "create cgroup manager") (wrapped (codes "load cgroup") (foreign 2))))
unfolding get_stats new_manager text
unknown_container = refl

get_stats-err_example :
    (cause : Error) × (stats_reader
        (wrapped (codes "create cgroup manager") (wrapped (codes "load cgroup") (foreign 2)))
      ≡ stats_reader cause)
get_stats-err_example = get_stats-err library infos docker_v1 (codes "b") _ unknown_container

abbrev manager_a : Manager ℕ ℕ
manager_a = record {
  cgroup_v1_manager = some 1;
  cgroup_v2_manager = none;
  v2 = false;
  systemd = false;
}

made_a : new_manager library docker_v1 (codes "a") ≡ ok manager_a
unfolding new_manager text
made_a = refl
