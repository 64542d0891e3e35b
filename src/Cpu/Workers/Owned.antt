-- ===== src/Cpu/Workers/Owned.antt =====
-- Which data the CPU monitor holds: those of containers with a running goroutine.
use acadock_monitoring.Prelude.Word.{Word}
use acadock_monitoring.Prelude.Dict
use acadock_monitoring.Prelude.Dict.{lookup-insert, lookup-delete}
use acadock_monitoring.Prelude.{
  ℕ, true, false, List, ◌++◌, Option, none, some, some-injective, Bytes, bytes_eq, bytes_eq→eq,
  bytes_eq_refl, Error, Outcome, ok, err, panic, get_elem?, update_at, update_at-preserves,
  get_elem?-update_at_ne, get_elem?-append_left, ◌≡◌, ◌≢◌, ◌⊎◌, refl, ap, ◌∙◌, sym, arith, inl, inr,
  Bool-cases,
}
use acadock_monitoring.Procfs.CpuStat.{CpuStats}
use acadock_monitoring.Cgroup.Metrics.{Stats}
use acadock_monitoring.Docker.Events.{ContainerAction, action_start, action_stop, other_action}
use acadock_monitoring.Cpu.{
  CpuUsageMonitor, new_cpu_usage_monitor, store_sample, update_host_cpu_usage,
  update_container_cpu_usage, clean_monitoring_data, is_stats_reader_error, after_update,
  monitor_tick, Tick, goes_on, stops, crashes,
}
use acadock_monitoring.Cpu.Workers.{
  Worker, Service, cancel, exit, on_action, on_found, handle_event, after_tick, worker_tick,
  worker_done, host_tick, Step, event, tick, context_done, host, Reach, here, next, new_service,
}

-- A running goroutine of a container.
abbrev pub Runs : List Worker → Bytes → Type 0
Runs ws id =
    (i : ℕ) × (w : Worker) × (get_elem? ws i ≡ some w) × (w.container ≡ id) × (w.alive ≡ true)

-- The monitor has data of a container.
abbrev pub HasData : CpuUsageMonitor → Bytes → Type 0
HasData m id =
    (Dict.lookup id m.current_container_stats ≢ none)
    ⊎ (Dict.lookup id m.previous_container_stats ≢ none)

abbrev pub IsOwned : Service → Type 0
IsOwned s = (id : Bytes) → HasData s.monitor id → Runs s.workers id

-- Data that are there after a sample are the container's, or were there before.
store-HasData :
    (s : Stats) (y : CpuStats) (id j : Bytes) (m : CpuUsageMonitor)
    → HasData (store_sample s y id m) j
    → (id ≡ j) ⊎ HasData m j
unfolding store_sample
store-HasData s y id j m h = elim (Bool-cases (bytes_eq id j)) [
  | inl same ↦ inl (bytes_eq→eq id j same)
  | inr other ↦ inr (simp (lookup-insert, other) at h)
]

no_data : {x y : Option Stats} → x ≡ none → y ≡ none → ¬ ((x ≢ none) ⊎ (y ≢ none))
no_data p q (inl h) = h p
no_data p q (inr h) = h q

clean-HasData :
    (id j : Bytes) (m : CpuUsageMonitor)
    → HasData (clean_monitoring_data id m) j
    → (bytes_eq id j ≡ false) × HasData m j
unfolding clean_monitoring_data
clean-HasData id j m h = elim (Bool-cases (bytes_eq id j)) [
  | inl same ↦ absurd (no_data (simp (lookup-delete, same)) (simp (lookup-delete, same)) h)
  | inr other ↦ (other, simp (lookup-delete, other) at h)
]

-- What a tick of a container's goroutine leaves.
abbrev Keeps : Bytes → CpuUsageMonitor → CpuUsageMonitor × Tick → Type 0
Keeps id m (m', goes_on) = (j : Bytes) → HasData m' j → (id ≡ j) ⊎ HasData m j
Keeps id m (m', stops) = (j : Bytes) → HasData m' j → (bytes_eq id j ≡ false) × HasData m j
Keeps id m (m', crashes) = Unit

failed-Keeps :
    (id : Bytes) (m : CpuUsageMonitor) (e : Error) → Keeps id m (after_update id (m, err e))
unfolding after_update
failed-Keeps id m e = elim (Bool-cases (is_stats_reader_error e)) [
  | inl fatal ↦ rw fatal (λ j h. clean-HasData id j m h)
  | inr mild ↦ rw mild (λ j h. inr h)
]

monitor_tick-Keeps :
    (s : Outcome Stats) (y : Outcome CpuStats) (id : Bytes) (m : CpuUsageMonitor)
    → Keeps id m (monitor_tick s y id m)
unfolding monitor_tick update_container_cpu_usage
monitor_tick-Keeps (ok s) (ok y) id m = unfold after_update in λ j h. store-HasData s y id j m h
monitor_tick-Keeps (ok s) (err e) id m = failed-Keeps id m _
monitor_tick-Keeps (ok s) panic id m = unfold after_update in tt
monitor_tick-Keeps (err e) y id m = failed-Keeps id m _
monitor_tick-Keeps panic y id m = unfold after_update in tt

-- Ending a goroutine, or cancelling one, leaves those of other positions running.
exit-Runs :
    (n : ℕ) (v : Worker) (ws : List Worker) {j : Bytes}
    → get_elem? ws n ≡ some v
    → bytes_eq v.container j ≡ false
    → Runs ws j
    → Runs (update_at n exit ws) j
exit-Runs n v ws {j} k other (i, w, h, c, a) = (
  i,
  w,
  get_elem?-update_at_ne n i exit ws (λ e. apart (sym k ∙ ap (get_elem? ws) e ∙ h)) ∙ h,
  c,
  a,
)
  where
    apart : some v ≡ some w → ⊥
    apart e = ground (arith, some-injective v w e, bytes_eq_refl j)

cancel-Runs : (n : ℕ) (ws : List Worker) {j : Bytes} → Runs ws j → Runs (update_at n cancel ws) j
cancel-Runs n ws {j} (i, w, h, c, a) =
    let (v, k, p) =
      update_at-preserves (λ (w : Worker). (w.container ≡ j) × (w.alive ≡ true)) n i cancel
        (λ _ q. q) ws h (c, a) in
    (i, v, k, p.0, p.1)

append-Runs : (ws vs : List Worker) {j : Bytes} → Runs ws j → Runs (ws ++ vs) j
append-Runs ws vs (i, w, h, c, a) = (i, w, get_elem?-append_left ws vs i h, c, a)

found-IsOwned :
    (found : Option ℕ) (id : Bytes) (s : Service) → IsOwned s → IsOwned (on_found found id s)
unfolding on_found
found-IsOwned none id s o = o
found-IsOwned (some n) id s o = λ j h. cancel-Runs n s.workers (o j h)

action-IsOwned :
    (a : ContainerAction) (id : Bytes) (s : Service) → IsOwned s → IsOwned (on_action a id s)
unfolding on_action
action-IsOwned action_start id s o = λ j h. append-Runs s.workers _ (o j h)
action-IsOwned action_stop id s o = found-IsOwned _ id s o
action-IsOwned (other_action name) id s o = o

after_tick-IsOwned :
    (n : ℕ) (w : Worker) (r : CpuUsageMonitor × Tick) (s : Service)
    → get_elem? s.workers n ≡ some w
    → w.alive ≡ true
    → r.1 ≢ crashes
    → Keeps w.container s.monitor r
    → IsOwned s
    → IsOwned (after_tick n r s)
unfolding after_tick
after_tick-IsOwned n w (m, goes_on) s k a c keeps o =
    λ j h. elim (keeps j h) [ inl own ↦ (n, w, k, own, a) | inr old ↦ o j old ]
after_tick-IsOwned n w (m, stops) s k a c keeps o =
    λ j h. let (other, old) = keeps j h in exit-Runs n w s.workers k other (o j old)
after_tick-IsOwned n w (m, crashes) s k a c keeps o = absurd (c refl)

host-IsOwned : (y : Outcome CpuStats) (s : Service) → IsOwned s → IsOwned (host_tick y s)
unfolding host_tick update_host_cpu_usage
host-IsOwned (ok y) s o = o
host-IsOwned (err e) s o = o
host-IsOwned panic s o = o

Step-IsOwned : {s t : Service} → Step s t → IsOwned s → IsOwned t
unfolding handle_event worker_tick worker_done
Step-IsOwned {s} (event e) o = action-IsOwned e.action e.container_id s o
Step-IsOwned {s} (tick n w stats system k a c) o =
    after_tick-IsOwned n w _ s k a c (monitor_tick-Keeps stats system w.container s.monitor) o
Step-IsOwned {s} (context_done n w k a c) o = λ j h.
    let (other, old) = clean-HasData w.container j s.monitor h in
    exit-Runs n w s.workers k other (o j old)
Step-IsOwned {s} (host system) o = host-IsOwned system s o

Reach-IsOwned : {s t : Service} → Reach s t → IsOwned s → IsOwned t
Reach-IsOwned here o = o
Reach-IsOwned (next r st) o = Step-IsOwned st (Reach-IsOwned r o)

-- However the goroutines interleave, the monitor has samples only of containers of which a goroutine
-- is running.
pub new_service-IsOwned :
    (num_cpu : Word) {s : Service}
    → Reach (new_service (new_cpu_usage_monitor num_cpu)) s
    → IsOwned s
unfolding new_service new_cpu_usage_monitor Dict.lookup
new_service-IsOwned num_cpu r = Reach-IsOwned r (λ id h. absurd (no_data refl refl h))
