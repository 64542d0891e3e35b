-- ===== src/Main/Running/Examples.antt =====
-- A service that came up, some steps of its goroutines, and a request.
use acadock_monitoring.Prelude.Dict
use acadock_monitoring.Prelude.{
  ℕ, false, [], codes, bytes_eq, foreign, eof, ok, err, panic, ◌≡◌, ◌≢◌, refl, arith,
}
use acadock_monitoring.Float.{whole}
use acadock_monitoring.Config.{Config, defaults}
use acadock_monitoring.Text.Decimal.Integer.{atoi}
use acadock_monitoring.Docker.Events.{action_start}
use acadock_monitoring.Procfs.MountInfo.{open_mount_info_reader}
use acadock_monitoring.Filters.{
  new_exponential_smoothing, with_queue_length, with_average_config, round,
}
use acadock_monitoring.Cgroup.Manager.{CgroupLibrary}
use acadock_monitoring.Cgroup.Stats.Safety.{IsWellBehaved}
use acadock_monitoring.Cpu.Workers.{event, handle_event}
use acadock_monitoring.Main.{Handler, start, mount_info_pid}
use acadock_monitoring.Main.Examples.{os, proc, service}
use acadock_monitoring.Main.Serving.{respond}
use acadock_monitoring.Main.Running.{
  Running, first_running, filter_round, cpu_step, Reach, here, next, controller,
}
use acadock_monitoring.Main.Running.Safety.{running-respond-ne-panic}

-- A library without containers.
abbrev library : CgroupLibrary ℕ ℕ
library = record {
  load_v1 = λ _. err (foreign 2);
  load_v2_systemd = λ _ _. err (foreign 2);
  stat_v1 = λ _. err eof;
  stat_v2 = λ _. err eof;
  tasks_v1 = λ _ _ _. ok [];
  procs_v2 = λ _ _. ok [];
}

library-IsWellBehaved : IsWellBehaved library
library-IsWellBehaved = record {
  load_v1_returns = λ _ e. cc;
  load_v2_returns = λ _ _ e. cc;
  stat_v1_returns = λ _ e. cc;
  stat_v2_returns = λ _ e. cc;
  stat_v2_fills = λ h m e. absurd (ground arith);
}

-- The defaults.
abbrev config : Config
config = record {
  variables = record { env = defaults; os_env = [] };
  refresh_time = 20000000000;
  debug = false;
  queue_length_sampling_interval = 5000000000;
  queue_length_points_per_sample = 5;
  queue_length_elements_needed = 6;
  is_using_cgroup_v2 = false;
}

service-starts : start (λ _. []) 0 os proc 1 4 config ≡ ok service
unfolding start atoi Dict.lookup Dict.get_or bytes_eq new_exponential_smoothing with_queue_length
    with_average_config mount_info_pid open_mount_info_reader
service-starts = refl

-- A value for the filter, and a container that starts.
abbrev warmed : Running whole
warmed = record (first_running whole service) {
  loop = round whole 1 1 1 (ok 3) (first_running whole service).loop;
}

abbrev busy : Running whole
busy = record warmed {
  cpu = handle_event (record { container_id = codes "a"; action = action_start }) warmed.cpu;
}

busy-Reach : Reach whole (first_running whole service) busy
busy-Reach = next (next here (filter_round 1 1 1 (ok 3))) (cpu_step (event _))

running-respond-ne-panic_example :
    respond whole 1 (ok []) (controller whole library service busy) Handler.host_resources [] []
    ≢ panic
running-respond-ne-panic_example =
    running-respond-ne-panic whole library library-IsWellBehaved os (λ e. cc) (λ _. []) 0 proc 1 4
      config (omega arith) (omega arith) (omega arith) service-starts busy-Reach 1
      Handler.host_resources [] [] (λ e. cc)
