-- ===== src/Cpu/Workers.antt =====
-- cpu/cpu.go: `Start`, which starts and cancels a goroutine for each container. A goroutine is a
-- worker, known by its position; the cancel function of a worker is that position.
pub mod Cancel
pub mod Orphans
pub mod Owned
pub mod Settle
pub mod Lifecycle
pub mod Registry
use acadock_monitoring.Prelude.Word.{Word}
use acadock_monitoring.Prelude.Dict
use acadock_monitoring.Prelude.{
  ℕ, Bool, true, false, List, [], ◌∷◌, ◌++◌, Option, none, some, Bytes, Outcome, StringMap, length,
  get_elem?, update_at, ◌≡◌, ◌≢◌,
}
use acadock_monitoring.Procfs.CpuStat.{CpuStats}
use acadock_monitoring.Cgroup.Metrics.{Stats}
use acadock_monitoring.Docker.Events.{
  ContainerEvent, ContainerAction, action_start, action_stop, other_action,
}
use acadock_monitoring.Cpu.{
  CpuUsageMonitor, update_host_cpu_usage, monitor_tick, clean_monitoring_data, Tick, goes_on, stops,
  crashes,
}

pub record Worker : Type 0 where
  pub container : Bytes
  pub cancelled : Bool
  pub alive : Bool

pub record Service : Type 0 where
  pub monitor : CpuUsageMonitor
  pub cancels : StringMap ℕ
  pub workers : List Worker

abbrev pub cancel : Worker → Worker
cancel w = record w { cancelled = true }

abbrev pub exit : Worker → Worker
exit w = record w { alive = false }

-- What a stop does with the cancel function that the map has, if any.
on_found : Option ℕ → Bytes → Service → Service
on_found none id s = s
on_found (some n) id s = record s {
  cancels = Dict.delete id s.cancels;
  workers = update_at n cancel s.workers;
}

-- What the loop of `Start` does with an event.
pub on_action : ContainerAction → Bytes → Service → Service
on_action action_start id s = record s {
  cancels = Dict.insert id (length s.workers) s.cancels;
  workers = s.workers ++ record { container = id; cancelled = false; alive = true } ∷ [];
}
on_action action_stop id s = on_found (Dict.lookup id s.cancels) id s
on_action (other_action name) id s = s

unfoldable pub handle_event : ContainerEvent → Service → Service
unfolding on_action on_found
handle_event event s = on_action event.action event.container_id s

-- The worker goes on or leaves its loop.
after_tick : ℕ → CpuUsageMonitor × Tick → Service → Service
after_tick n (m, goes_on) s = record s { monitor = m }
after_tick n (m, stops) s = record s { monitor = m; workers = update_at n exit s.workers }
after_tick n (m, crashes) s = record s { monitor = m; workers = update_at n exit s.workers }

-- A tick of the worker at a position, with what it reads.
unfoldable pub worker_tick : ℕ → Worker → Outcome Stats → Outcome CpuStats → Service → Service
unfolding after_tick
worker_tick n w stats system s = after_tick n (monitor_tick stats system w.container s.monitor) s

-- A cancelled worker finds its context done.
unfoldable pub worker_done : ℕ → Worker → Service → Service
worker_done n w s = record s {
  monitor = clean_monitoring_data w.container s.monitor;
  workers = update_at n exit s.workers;
}

unfoldable pub host_tick : Outcome CpuStats → Service → Service
host_tick system s = record s { monitor = (update_host_cpu_usage system s.monitor).0 }

-- The goroutines in any order. A tick that panics is no step: Go ends the whole service with it.
pub data Step (s : Service) : Service → Type 0 where
  event : (e : ContainerEvent) → Step s (handle_event e s)
  tick :
      (n : ℕ) (w : Worker) (stats : Outcome Stats) (system : Outcome CpuStats)
      → get_elem? s.workers n ≡ some w
      → w.alive ≡ true
      → (monitor_tick stats system w.container s.monitor).1 ≢ crashes
      → Step s (worker_tick n w stats system s)
  context_done :
      (n : ℕ) (w : Worker)
      → get_elem? s.workers n ≡ some w
      → w.alive ≡ true
      → w.cancelled ≡ true
      → Step s (worker_done n w s)
  host : (system : Outcome CpuStats) → Step s (host_tick system s)

pub data Reach (s : Service) : Service → Type 0 where
  here : Reach s s
  next : {t u : Service} → Reach s t → Step t u → Reach s u

unfoldable pub new_service : CpuUsageMonitor → Service
new_service monitor = record { monitor = monitor; cancels = []; workers = [] }
