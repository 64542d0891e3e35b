-- ===== src/Cpu/Examples.antt =====
-- Runs of the CPU monitor, with a library that knows one container.
use acadock_monitoring.Prelude.Word.{Word}
use acadock_monitoring.Prelude.Dict
use acadock_monitoring.Prelude.{
  ℕ, true, false, List, [], ◌∷◌, none, some, Bytes, bytes_eq, codes, eof, foreign, wrapped,
  stats_reader, Outcome, ok, err, get_elem?, map, ◌≡◌, ◌≢◌, refl,
}
use acadock_monitoring.Text.{text}
use acadock_monitoring.Float.{whole}
use acadock_monitoring.Procfs.CpuStat.{SingleCpuStat, CpuStats, of_buffer, all, sum}
use acadock_monitoring.Cgroup.Metrics.{Stats, MountInfos}
use acadock_monitoring.Cgroup.Manager.{Location, CgroupLibrary, Settings}
use acadock_monitoring.Cgroup.Manager
use acadock_monitoring.Cgroup.Stats.{get_stats}
use acadock_monitoring.Docker.Events.{action_start, action_stop}
use acadock_monitoring.Cpu.{
  CpuUsageMonitor, new_cpu_usage_monitor, zero_stats, update_container_cpu_usage,
  clean_monitoring_data, is_stats_reader_error, monitor_tick, goes_on, stops, crashes,
  get_container_usage, get_host_usage,
}
use acadock_monitoring.Cpu.Usage.{
  get_container_usage-clean, monitor_tick-get_stats_err, monitor_tick-read_err,
}
use acadock_monitoring.Cpu.Host.{
  after_reads, successes, usage_of_last_two, get_host_usage-after_reads,
}
use acadock_monitoring.Cpu.Workers.{
  Worker, Service, handle_event, worker_tick, event, tick, Reach, here, next, new_service,
}
use acadock_monitoring.Cpu.Workers.Owned.{HasData}
use acadock_monitoring.Cpu.Workers.Settle.{settled, new_service-settles}
use acadock_monitoring.Cpu.Workers.Registry.{runs}
use acadock_monitoring.Cpu.Workers.Lifecycle.{IsFreshRun, events_of, new_service-forgets}
use acadock_monitoring.Cpu.Acts.{Act, ticked, after_acts, samples_of, clock_of}
use acadock_monitoring.Cpu.History.{usage_of_samples, get_container_usage-after_acts}
use acadock_monitoring.Cpu.Workers.Cancel.{Holds, new_service-IsTracked, handle_event-stop}
use acadock_monitoring.Cpu.Workers.Orphans.{second_start-ne-cancelled}

abbrev fresh : CpuUsageMonitor
fresh = new_cpu_usage_monitor 4

abbrev a : Bytes
a = codes "a"

abbrev b : Bytes
b = codes "b"

abbrev stats : Word → Stats
stats cpu = record zero_stats { cpu_usage = cpu }

abbrev line : Word → SingleCpuStat
line v = of_buffer (codes "cpu") (v ∷ 0 ∷ 0 ∷ v ∷ 0 ∷ 0 ∷ 0 ∷ 0 ∷ 0 ∷ 0 ∷ [])

abbrev table : Word → CpuStats
table v = record { cpus = (codes "cpu", line v) ∷ [] }

get_container_usage-clean_example :
    get_container_usage whole a (clean_monitoring_data a fresh) ≡ record { usage_in_percents = 0 }
get_container_usage-clean_example = get_container_usage-clean whole a fresh

-- A library without containers.
abbrev library : CgroupLibrary ℕ ℕ
library = record {
  load_v1 = λ _. err (foreign 2);
  load_v2_systemd = λ _ _. err (foreign 2);
  stat_v1 = λ _. err eof;
  stat_v2 = λ _. err eof;
  tasks_v1 = λ _ _ _. ok [];
  procs_v2 = λ _ _. ok [];
}

abbrev infos : MountInfos
infos = record { mountpoint = λ _ _. []; device_path = λ _ _. [] }

abbrev docker_v1 : Settings
docker_v1 = record { is_using_cgroup_v2 = false; cgroup_source = codes "docker" }

gone :
    get_stats library infos docker_v1 a
    ≡ err (
        stats_reader
          (wrapped (codes "create cgroup manager") (wrapped (codes "load cgroup") (foreign 2))))
unfolding get_stats Manager.new_manager text
gone = refl

monitor_tick-get_stats_err_example :
    monitor_tick (get_stats library infos docker_v1 a) (ok (table 1)) a fresh
    ≡ (clean_monitoring_data a fresh, stops)
monitor_tick-get_stats_err_example =
    monitor_tick-get_stats_err library infos docker_v1 a fresh (ok (table 1)) gone

monitor_tick-read_err_example : monitor_tick (ok (stats 3)) (err eof) a fresh ≡ (fresh, goes_on)
unfolding is_stats_reader_error
monitor_tick-read_err_example = monitor_tick-read_err a fresh (stats 3) eof refl

abbrev reads : List (Outcome CpuStats)
reads = ok (table 9) ∷ err eof ∷ ok (table 4) ∷ []

get_host_usage-after_reads_example :
    get_host_usage whole (after_reads 4 reads) ≡ usage_of_last_two whole 4 (successes reads)
get_host_usage-after_reads_example = get_host_usage-after_reads whole 4 reads

abbrev started : Service
started = handle_event (record { container_id = a; action = action_start }) (new_service fresh)

started-Reach : Reach (new_service fresh) started
started-Reach = next here (event _)

started-lookup : Dict.lookup a started.cancels ≡ some 0
unfolding handle_event new_service Dict.lookup Dict.insert bytes_eq
started-lookup = refl

new_service-IsTracked_example : Holds started.workers a 0
new_service-IsTracked_example = new_service-IsTracked fresh started-Reach a 0 started-lookup

second_start-ne-cancelled_example :
    (w : Worker) × (get_elem?
        (handle_event
          (record { container_id = a; action = action_stop })
          (handle_event (record { container_id = a; action = action_start }) started)).workers
        0
      ≡ some w)
    × (w.container ≡ a)
    × (w.cancelled ≡ false)
second_start-ne-cancelled_example =
    second_start-ne-cancelled fresh started-Reach a 0 started-lookup
      (next here (event (record { container_id = a; action = action_stop })))

handle_event-stop_example :
    (w : Worker) × (get_elem?
        (handle_event (record { container_id = a; action = action_stop }) started).workers
        0
      ≡ some w)
    × (w.container ≡ a)
    × (w.cancelled ≡ true)
    × ((i : ℕ)
        → ◌≢◌ {A = ℕ} 0 i
        → get_elem?
            (handle_event (record { container_id = a; action = action_stop }) started).workers
            i
          ≡ get_elem? started.workers i)
    × (Dict.lookup a
          (handle_event (record { container_id = a; action = action_stop }) started).cancels
        ≡ none)
handle_event-stop_example = handle_event-stop fresh started-Reach a 0 started-lookup

-- Two samples, an error of the reader of statistics that ends the goroutine, and a third sample, with
-- a tick of another container in between: the third is compared with no CPU time, and the time of the
-- machine with that at the second.
abbrev acts : List Act
acts =
    ticked a (ok (stats 9)) (ok (table 20))
    ∷ ticked b (ok (stats 3)) (ok (table 15))
    ∷ ticked a (err (stats_reader eof)) (ok (table 12))
    ∷ ticked a (ok (stats 7)) (ok (table 10))
    ∷ ticked a (ok (stats 5)) (ok (table 8))
    ∷ []

one_sample_left : samples_of a acts ≡ stats 9 ∷ []
unfolding samples_of is_stats_reader_error bytes_eq
one_sample_left = refl

three_times : clock_of a acts ≡ 40 ∷ 20 ∷ 16 ∷ []
unfolding clock_of sum all bytes_eq Dict.get_or
three_times = refl

get_container_usage-after_acts_example :
    get_container_usage whole a (after_acts 4 acts)
    ≡ usage_of_samples whole 4 (samples_of a acts) (clock_of a acts)
get_container_usage-after_acts_example = get_container_usage-after_acts whole 4 acts a

abbrev first : Worker
first = record { container = a; cancelled = false; alive = true }

sampled_once : Service
sampled_once = worker_tick 0 first (ok (stats 5)) (ok (table 8)) started

first_worker : get_elem? started.workers 0 ≡ some first
unfolding handle_event new_service
first_worker = refl

goes-on : (monitor_tick (ok (stats 5)) (ok (table 8)) a started.monitor).1 ≢ crashes
unfolding monitor_tick update_container_cpu_usage
goes-on = λ e. cc

sampled_once-Reach : Reach (new_service fresh) sampled_once
unfolding sampled_once
sampled_once-Reach =
    next started-Reach (tick 0 first (ok (stats 5)) (ok (table 8)) first_worker refl goes-on)

new_service-settles_example :
    (t : Service) × Reach
      (handle_event (record { container_id = a; action = action_stop }) sampled_once)
      t
    × (t.cancels
        ≡ (handle_event (record { container_id = a; action = action_stop }) sampled_once).cancels)
    × (t.workers
        ≡ map settled
            (handle_event (record { container_id = a; action = action_stop }) sampled_once).workers)
    × ((id : Bytes)
        → HasData t.monitor id
        → (i : ℕ) × (w : Worker) × (get_elem? t.workers i ≡ some w)
          × (w.container ≡ id)
          × (w.alive ≡ true)
          × (w.cancelled ≡ false))
new_service-settles_example =
    new_service-settles 4
      (next sampled_once-Reach (event (record { container_id = a; action = action_stop })))

-- The container is started, sampled and stopped.
abbrev one_life : Reach (new_service fresh) (
    handle_event
      (record { container_id = a; action = action_stop })
      (worker_tick 0 first (ok (stats 5)) (ok (table 8)) started))
one_life =
    next
      (next (next here (event (record { container_id = a; action = action_start })))
        (tick 0 first (ok (stats 5)) (ok (table 8)) first_worker refl goes-on))
      (event (record { container_id = a; action = action_stop }))

one_life-IsFreshRun : IsFreshRun one_life
unfolding new_service Dict.lookup
one_life-IsFreshRun = (((tt, refl), tt), tt)

new_service-forgets_example :
    (t : Service) × Reach
      (handle_event
        (record { container_id = a; action = action_stop })
        (worker_tick 0 first (ok (stats 5)) (ok (table 8)) started))
      t
    × ((id : Bytes) → HasData t.monitor id → runs id (events_of one_life) false ≡ true)
new_service-forgets_example = new_service-forgets 4 one_life one_life-IsFreshRun
