-- ===== src/Main/Running.antt =====
-- cmd/acadock-monitoring/main.go: the goroutines that `main` starts, side by side, and the controller
-- that answers while they run.
pub mod Safety
mod Examples
use acadock_monitoring.Prelude.Word.{Word}
use acadock_monitoring.Prelude.{ℕ, true, List, [], Bytes, Outcome, ok, err, panic}
use acadock_monitoring.Float.{Float64}
use acadock_monitoring.Filters.{Loop, round}
use acadock_monitoring.Client.Types.{NetworkStat}
use acadock_monitoring.Docker.Events.{ContainerEvent}
use acadock_monitoring.Procfs.MountInfo as MountInfo
use acadock_monitoring.Procfs.MountInfo.{MountInfoReader}
use acadock_monitoring.Cgroup.Metrics.{MountInfos}
use acadock_monitoring.Cgroup.Manager.{CgroupLibrary}
use acadock_monitoring.Cgroup.Stats.{new_stats_reader}
use acadock_monitoring.Cpu.Workers as Workers
use acadock_monitoring.Net as Net
use acadock_monitoring.Net.{NetMonitor}
use acadock_monitoring.Resources.{new_usage_getter}
use acadock_monitoring.Webserver.Controller.{Controller, new_controller}
use acadock_monitoring.Main.{Started}

-- The reader of the mounts as the interface that the reader of statistics has.
abbrev pub as_mount_infos : MountInfoReader → MountInfos
as_mount_infos r = record {
  mountpoint = MountInfo.mountpoint r;
  device_path = MountInfo.device_path r;
}

module _ (fl : Float64) where
  -- The state of the goroutines: the filter's loop, the CPU monitor with its goroutines, the network
  -- monitor, and the reader of the mounts.
  pub record Running : Type 0 where
    pub loop : Loop fl
    pub cpu : Workers.Service
    pub net : NetMonitor
    pub mount_infos : MountInfoReader

  -- As `main` starts them.
  unfoldable pub first_running : {P : Type 0} → Started fl.F P → Running
  first_running s = record {
    loop = record { filter = s.queue_length; values = []; running = true };
    cpu = Workers.new_service s.cpu_monitor;
    net = s.net_monitor;
    mount_infos = s.mount_infos;
  }

  -- One of the goroutines goes on, with what it reads.
  pub data Step (r : Running) : Running → Type 0 where
    filter_round :
        (slept tested set : ℕ) (reading : Outcome fl.F)
        → Step r (record r { loop = round fl slept tested set reading r.loop })
    cpu_step : {cpu : Workers.Service} → Workers.Step r.cpu cpu → Step r (record r { cpu = cpu })
    net_tick :
        (stats : Outcome (List NetworkStat)) → Step r (record r { net = Net.tick stats r.net })
    net_event :
        (iface : Outcome Bytes) (order : List Bytes) (e : ContainerEvent)
        → Step r (record r { net = Net.handle_event iface order e r.net })
    mounts_refresh :
        (env : MountInfo.Environment)
        → Step r (record r { mount_infos = (MountInfo.refresh env r.mount_infos).0 })

  pub data Reach (r : Running) : Running → Type 0 where
    here : Reach r r
    next : {s t : Running} → Reach r s → Step s t → Reach r t

  -- The controller, with what its pointers lead to.
  unfoldable pub controller :
      {P V1 V2 : Type 0} → CgroupLibrary V1 V2 → Started fl.F P → Running → Controller fl.F
  controller lib s r =
      new_controller
        (new_usage_getter (new_stats_reader lib s.cgroup_settings (as_mount_infos r.mount_infos)))
        r.cpu.monitor r.net r.loop.filter s.host_memory
