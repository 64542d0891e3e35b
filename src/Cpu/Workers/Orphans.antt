-- ===== src/Cpu/Workers/Orphans.antt =====
-- What happens to a goroutine whose container is started a second time.
use acadock_monitoring.Prelude.Dict
use acadock_monitoring.Prelude.Dict.{lookup-insert, lookup-delete}
use acadock_monitoring.Prelude.{
  ℕ, false, Option, none, some, Bytes, bytes_eq, length, get_elem?, get_elem?-lt,
  get_elem?-update_at_ne, get_elem?-append_left, ◌≡◌, ◌≢◌, refl, ap, ◌∙◌, arith, inl, inr,
  Bool-cases,
}
use acadock_monitoring.Docker.Events.{ContainerAction, action_start, action_stop, other_action}
use acadock_monitoring.Cpu.{CpuUsageMonitor, Tick, goes_on, stops, crashes}
use acadock_monitoring.Cpu.Workers.{
  Worker, Service, cancel, on_action, on_found, handle_event, after_tick, worker_tick, worker_done,
  host_tick, Step, event, tick, context_done, host, Reach, here, next, new_service,
}
use acadock_monitoring.Cpu.Workers.Cancel.{Holds, new_service-IsTracked, exit-Holds, Holds-ne}

-- No cancel function is that of the worker at a position, which is a worker of the container and
-- not cancelled.
abbrev IsOrphan : Bytes → ℕ → Service → Type 0
IsOrphan id n s = Holds s.workers id n × ((j : Bytes) → Dict.lookup j s.cancels ≢ some n)

start-IsOrphan :
    (id : Bytes) (n : ℕ) (j : Bytes) (s : Service)
    → IsOrphan id n s
    → IsOrphan id n (on_action action_start j s)
unfolding on_action
start-IsOrphan id n j s ((w, h, p), free) = (
  (w, get_elem?-append_left s.workers _ n h, p),
  λ k e.
      let old = free k in
      ground (arith, lookup-insert j k (length s.workers) s.cancels, get_elem?-lt s.workers n h),
)

found-IsOrphan :
    (id : Bytes) (n : ℕ) (j : Bytes) (s : Service) (found : Option ℕ)
    → Dict.lookup j s.cancels ≡ found
    → IsOrphan id n s
    → IsOrphan id n (on_found found j s)
unfolding on_found
found-IsOrphan id n j s none e o = o
found-IsOrphan id n j s (some i) e ((w, h, p), free) = (
  (w, get_elem?-update_at_ne i n cancel s.workers (λ q. free j (e ∙ ap some q)) ∙ h, p),
  λ k e'. let old = free k in ground (arith, lookup-delete j k s.cancels),
)

action-IsOrphan :
    (id : Bytes) (n : ℕ) (a : ContainerAction) (j : Bytes) (s : Service)
    → IsOrphan id n s
    → IsOrphan id n (on_action a j s)
unfolding on_action
action-IsOrphan id n action_start j s o = start-IsOrphan id n j s o
action-IsOrphan id n action_stop j s o = found-IsOrphan id n j s _ refl o
action-IsOrphan id n (other_action name) j s o = o

after_tick-IsOrphan :
    (id : Bytes) (n i : ℕ) (r : CpuUsageMonitor × Tick) (s : Service)
    → IsOrphan id n s
    → IsOrphan id n (after_tick i r s)
unfolding after_tick
after_tick-IsOrphan id n i (m, goes_on) s o = o
after_tick-IsOrphan id n i (m, stops) s (h, free) = (exit-Holds i s.workers n h, free)
after_tick-IsOrphan id n i (m, crashes) s (h, free) = (exit-Holds i s.workers n h, free)

Step-IsOrphan : (id : Bytes) (n : ℕ) {s t : Service} → Step s t → IsOrphan id n s → IsOrphan id n t
unfolding handle_event worker_tick worker_done host_tick
Step-IsOrphan id n {s} (event e) o = action-IsOrphan id n e.action e.container_id s o
Step-IsOrphan id n {s} (tick i w stats system k a c) o = after_tick-IsOrphan id n i _ s o
Step-IsOrphan id n {s} (context_done i w k a c) (h, free) = (exit-Holds i s.workers n h, free)
Step-IsOrphan id n {s} (host system) o = o

Reach-IsOrphan :
    (id : Bytes) (n : ℕ) {s t : Service} → Reach s t → IsOrphan id n s → IsOrphan id n t
Reach-IsOrphan id n here o = o
Reach-IsOrphan id n (next r st) o = Step-IsOrphan id n st (Reach-IsOrphan id n r o)

twice-IsOrphan :
    (m : CpuUsageMonitor) {s : Service}
    → Reach (new_service m) s
    → (id : Bytes) (n : ℕ) → Dict.lookup id s.cancels ≡ some n
    → IsOrphan id n (on_action action_start id s)
unfolding on_action
twice-IsOrphan m {s} r id n h =
    let (w, k, p) = new_service-IsTracked m r id n h in
    (
      (w, get_elem?-append_left s.workers _ n k, p),
      λ j e. elim (Bool-cases (bytes_eq id j)) [
        | inl same ↦
            ground
              (arith, lookup-insert id j (length s.workers) s.cancels, get_elem?-lt s.workers n k)
        | inr other ↦
            Holds-ne s.workers other (w, k, p)
              (new_service-IsTracked m r j n
                (ground (arith, lookup-insert id j (length s.workers) s.cancels)))
              refl
      ],
    )

-- If a Start event comes for a container that has a cancel function, the goroutine that was
-- started first is never cancelled: no event and no interleaving after it can do so.
pub second_start-ne-cancelled :
    (m : CpuUsageMonitor) {s t : Service}
    → Reach (new_service m) s
    → (id : Bytes) (n : ℕ) → Dict.lookup id s.cancels ≡ some n
    → Reach (handle_event (record { container_id = id; action = action_start }) s) t
    → (w : Worker) × (get_elem? t.workers n ≡ some w) × (w.container ≡ id) × (w.cancelled ≡ false)
unfolding handle_event
second_start-ne-cancelled m r id n h later =
    let ((w, k, (c, u)), _) = Reach-IsOrphan id n later (twice-IsOrphan m r id n h) in (w, k, c, u)
