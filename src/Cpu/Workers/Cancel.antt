-- ===== src/Cpu/Workers/Cancel.antt =====
-- The cancel functions that `Start` keeps: each belongs to the running goroutine of its container.
use acadock_monitoring.Prelude.Dict
use acadock_monitoring.Prelude.Dict.{lookup-insert, lookup-delete, lookup-delete_self}
use acadock_monitoring.Prelude.{
  ℕ, true, false, List, [], ◌∷◌, ◌++◌, Option, none, some, Bytes, bytes_eq, bytes_eq_iff, length,
  get_elem?, update_at, update_at-preserves, get_elem?-update_at_self, get_elem?-update_at_ne,
  get_elem?-append_left, get_elem?-append_length, ◌≡◌, ◌≢◌, refl, ap, ◌∙◌, sym, subst, arith, inl,
  inr, Bool-cases,
}
use acadock_monitoring.Docker.Events.{
  ContainerEvent, ContainerAction, action_start, action_stop, other_action,
}
use acadock_monitoring.Cpu.{CpuUsageMonitor, Tick, goes_on, stops, crashes}
use acadock_monitoring.Cpu.Workers.{
  Worker, Service, cancel, exit, on_action, on_found, handle_event, after_tick, worker_tick,
  worker_done, host_tick, Step, event, tick, context_done, host, Reach, here, next, new_service,
}

-- The worker of a container, not cancelled.
abbrev pub IsOpen : Bytes → Worker → Type 0
IsOpen id w = (w.container ≡ id) × (w.cancelled ≡ false)

-- A position holds such a worker.
abbrev pub Holds : List Worker → Bytes → ℕ → Type 0
Holds ws id n = (w : Worker) × (get_elem? ws n ≡ some w) × IsOpen id w

-- Each cancel function is that of an open worker of its container.
abbrev pub IsTracked : Service → Type 0
IsTracked s = (id : Bytes) (n : ℕ) → Dict.lookup id s.cancels ≡ some n → Holds s.workers id n

pub exit-Holds :
    (n : ℕ) (ws : List Worker) {id : Bytes} (i : ℕ)
    → Holds ws id i
    → Holds (update_at n exit ws) id i
exit-Holds n ws {id} i (w, h, p) = update_at-preserves (IsOpen id) n i exit (λ _ q. q) ws h p

append-Holds :
    (ws : List Worker) (id : Bytes) (n : ℕ)
    → length ws ≡ n
    → Holds (ws ++ record { container = id; cancelled = false; alive = true } ∷ []) id n
append-Holds ws id n e = (
  record { container = id; cancelled = false; alive = true },
  ap (get_elem? _) (sym e) ∙ get_elem?-append_length ws _ [],
  (refl, refl),
)

-- Two containers do not share a position.
pub Holds-ne :
    (ws : List Worker) {id j : Bytes} {n i : ℕ}
    → bytes_eq id j ≡ false
    → Holds ws id n
    → Holds ws j i
    → n ≢ i
Holds-ne ws {id} {j} different (w, h, (c, _)) (v, k, (d, _)) e = ground (arith, bytes_eq_iff id j)

start-IsTracked : (id : Bytes) (s : Service) → IsTracked s → IsTracked (on_action action_start id s)
unfolding on_action
start-IsTracked id s t j n h = elim (Bool-cases (bytes_eq id j)) [
  | inl same ↦
      let found : length s.workers ≡ n =
        ground (arith, lookup-insert id j (length s.workers) s.cancels) in
      let e : id ≡ j = ground (arith, bytes_eq_iff id j) in
      subst (λ (k : Bytes). Holds (on_action action_start id s).workers k n) e
        (append-Holds s.workers id n found)
  | inr other ↦
      let (w, k, p) = t j n (ground (arith, lookup-insert id j (length s.workers) s.cancels)) in
      (w, get_elem?-append_left s.workers _ n k, p)
]

cancel-Holds :
    (ws : List Worker) {id j : Bytes} (n i : ℕ)
    → bytes_eq id j ≡ false
    → Holds ws id n
    → Holds ws j i
    → Holds (update_at n cancel ws) j i
cancel-Holds ws n i different h (w, k, p) =
    (w, get_elem?-update_at_ne n i cancel ws (Holds-ne ws different h (w, k, p)) ∙ k, p)

found-IsTracked :
    (id : Bytes) (s : Service) (found : Option ℕ)
    → Dict.lookup id s.cancels ≡ found
    → IsTracked s
    → IsTracked (on_found found id s)
unfolding on_found
found-IsTracked id s none e t = t
found-IsTracked id s (some n) e t = λ j i h. elim (Bool-cases (bytes_eq id j)) [
  | inl same ↦ absurd (ground (arith, lookup-delete id j s.cancels))
  | inr other ↦
      cancel-Holds s.workers n i other (t id n e)
        (t j i (ground (arith, lookup-delete id j s.cancels)))
]

action-IsTracked :
    (a : ContainerAction) (id : Bytes) (s : Service) → IsTracked s → IsTracked (on_action a id s)
unfolding on_action
action-IsTracked action_start id s t = start-IsTracked id s t
action-IsTracked action_stop id s t = found-IsTracked id s _ refl t
action-IsTracked (other_action name) id s t = t

handle_event-IsTracked :
    (e : ContainerEvent) (s : Service) → IsTracked s → IsTracked (handle_event e s)
unfolding handle_event
handle_event-IsTracked e s t = action-IsTracked e.action e.container_id s t

after_tick-IsTracked :
    (n : ℕ) (r : CpuUsageMonitor × Tick) (s : Service) → IsTracked s → IsTracked (after_tick n r s)
unfolding after_tick
after_tick-IsTracked n (m, goes_on) s t = t
after_tick-IsTracked n (m, stops) s t = λ id i h. exit-Holds n s.workers i (t id i h)
after_tick-IsTracked n (m, crashes) s t = λ id i h. exit-Holds n s.workers i (t id i h)

Step-IsTracked : {s t : Service} → Step s t → IsTracked s → IsTracked t
unfolding worker_tick worker_done host_tick
Step-IsTracked {s} (event e) h = handle_event-IsTracked e s h
Step-IsTracked {s} (tick n w stats system k a c) h = after_tick-IsTracked n _ s h
Step-IsTracked {s} (context_done n w k a c) h = λ id i e. exit-Holds n s.workers i (h id i e)
Step-IsTracked {s} (host system) h = h

Reach-IsTracked : {s t : Service} → Reach s t → IsTracked s → IsTracked t
Reach-IsTracked here h = h
Reach-IsTracked (next r st) h = Step-IsTracked st (Reach-IsTracked r h)

-- However the goroutines interleave, each cancel function that `Start` keeps under a container is
-- that of a goroutine of this container which was not cancelled.
pub new_service-IsTracked :
    (m : CpuUsageMonitor) {s : Service} → Reach (new_service m) s → IsTracked s
unfolding new_service Dict.lookup
new_service-IsTracked m r = Reach-IsTracked r (λ id n h. absurd (ground arith))

-- A Stop event for a container with a cancel function cancels that function's goroutine and no
-- other, and the container has no cancel function from then on.
pub handle_event-stop :
    (m : CpuUsageMonitor) {s : Service}
    → Reach (new_service m) s
    → (id : Bytes) (n : ℕ) → Dict.lookup id s.cancels ≡ some n
    → (w : Worker) × (get_elem?
          (handle_event (record { container_id = id; action = action_stop }) s).workers
          n
        ≡ some w)
      × (w.container ≡ id)
      × (w.cancelled ≡ true)
      × ((i : ℕ)
          → n ≢ i
          → get_elem?
              (handle_event (record { container_id = id; action = action_stop }) s).workers
              i
            ≡ get_elem? s.workers i)
      × (Dict.lookup id
            (handle_event (record { container_id = id; action = action_stop }) s).cancels
          ≡ none)
unfolding handle_event on_action on_found
handle_event-stop m {s} r id n h =
    let (w, k, (c, _)) = new_service-IsTracked m r id n h in
    rw h (
      cancel w,
      get_elem?-update_at_self n cancel s.workers k,
      c,
      refl,
      (λ i d. get_elem?-update_at_ne n i cancel s.workers d),
      lookup-delete_self id s.cancels,
    )
