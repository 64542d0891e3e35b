-- ===== src/Main/Running/Safety.antt =====
-- No request makes the service panic, whatever its goroutines did before.
use acadock_monitoring.Prelude.Word.{Word, half}
use acadock_monitoring.Prelude.{
  ℕ, ◌+◌, ◌<◌, List, Bytes, codes, Outcome, ok, panic, wrap-ne-panic, ◌≡◌, ◌≢◌, sym, subst,
}
use acadock_monitoring.Float.{Float64}
use acadock_monitoring.Config.{Config}
use acadock_monitoring.Docker.Containers.{ContainerSummary}
use acadock_monitoring.Procfs.{open_file}
use acadock_monitoring.Procfs.MemInfo.Safety.{read-ne-panic}
use acadock_monitoring.Procfs.Readers.{Os, new_file_system, new_mem_info_reader, read_mem_info}
use acadock_monitoring.Filters.Queue.{IsReady}
use acadock_monitoring.Filters.Rounds.{round-IsReady}
use acadock_monitoring.Cgroup.Manager.{CgroupLibrary}
use acadock_monitoring.Cgroup.Stats.{new_stats_reader}
use acadock_monitoring.Cgroup.Stats.Safety.{IsWellBehaved, get_stats-ne-panic}
use acadock_monitoring.Resources.{new_usage_getter}
use acadock_monitoring.Webserver.Controller.{new_controller}
use acadock_monitoring.Main.{Handler, Started, start}
use acadock_monitoring.Main.Startup.{start-IsSetUp, start-host_memory}
use acadock_monitoring.Main.Serving.{respond}
use acadock_monitoring.Main.Serving.Safety.{respond-ne-panic}
use acadock_monitoring.Main.Running.{
  Running, first_running, as_mount_infos, Step, filter_round, cpu_step, net_tick, net_event,
  mounts_refresh, Reach, here, next, controller,
}

memory_returns :
    (os : Os)
    → os.os_open (codes "/proc/meminfo") ≢ panic
    → read_mem_info (new_mem_info_reader os) ≢ panic
unfolding read_mem_info new_mem_info_reader new_file_system open_file
memory_returns os opens = read-ne-panic (open_file os.os_open) (wrap-ne-panic _ opens)

module _ (fl : Float64) where
  Step-IsReady : {r t : Running fl} → Step fl r t → IsReady r.loop.filter → IsReady t.loop.filter
  Step-IsReady {r} (filter_round slept tested set reading) h =
      round-IsReady fl slept tested set reading r.loop h
  Step-IsReady (cpu_step st) h = h
  Step-IsReady (net_tick stats) h = h
  Step-IsReady (net_event iface order e) h = h
  Step-IsReady (mounts_refresh env) h = h

  Reach-IsReady : {r t : Running fl} → Reach fl r t → IsReady r.loop.filter → IsReady t.loop.filter
  Reach-IsReady here h = h
  Reach-IsReady (next q st) h = Step-IsReady st (Reach-IsReady q h)

  module _ {P V1 V2 : Type 0} (lib : CgroupLibrary V1 V2) (behaves : IsWellBehaved lib) (os : Os)
      (opens : os.os_open (codes "/proc/meminfo") ≢ panic) where
    -- Take a service that came up, with settings whose numbers are not negative, and a library of
    -- control groups that returns and fills in its sections. However its goroutines went on since, and
    -- whatever they read: no handler panics, for any container, any label and any list of containers.
    pub running-respond-ne-panic :
        (duration_string : Word → Bytes) (now : ℕ) (new_fs : Bytes → Outcome P)
        (getpid num_cpu : Word) (c : Config) {s : Started fl.F P}
        → c.queue_length_elements_needed + 1 < half
        → c.queue_length_points_per_sample < half
        → c.queue_length_sampling_interval < half
        → start duration_string now os new_fs getpid num_cpu c ≡ ok s
        → {r : Running fl} → Reach fl (first_running fl s) r
        → (seconds : fl.F) (h : Handler) (id label : Bytes)
          {listed : Outcome (List ContainerSummary)}
        → listed ≢ panic
        → respond fl seconds listed (controller fl lib s r) h id label ≢ panic
    unfolding controller new_controller new_usage_getter new_stats_reader first_running
    running-respond-ne-panic duration_string now new_fs getpid num_cpu c {s} a b d up {r} run
          seconds h id label listed_returns =
        respond-ne-panic fl seconds (controller fl lib s r)
          (get_stats-ne-panic lib behaves (as_mount_infos r.mount_infos) s.cgroup_settings)
          (Reach-IsReady run
            (start-IsSetUp duration_string now os new_fs getpid num_cpu c a b d up).0)
          (subst (λ m. read_mem_info m ≢ panic)
            (sym (start-host_memory duration_string now os new_fs getpid num_cpu c up))
            (memory_returns os opens))
          listed_returns h id label
