-- ===== src/Cpu/Workers/Lifecycle.antt =====
-- A container that stopped leaves nothing behind, if no container is started twice in a row.
use acadock_monitoring.Prelude.Word.{Word}
use acadock_monitoring.Prelude.Dict
use acadock_monitoring.Prelude.Dict.{lookup-insert, lookup-delete}
use acadock_monitoring.Prelude.{
  ℕ, Bool, true, false, List, [], ◌∷◌, ◌++◌, Option, none, some, some-injective, none-ne-some,
  Bytes, bytes_eq, bytes_eq_iff, bytes_eq→eq, if◌then◌else◌, length, get_elem?, update_at,
  update_at-cases, append-cases, ◌≡◌, refl, sym, ap, subst, ◌∙◌, arith, inl, inr, Bool-cases,
}
use acadock_monitoring.Docker.Events.{
  ContainerEvent, ContainerAction, action_start, action_stop, other_action,
}
use acadock_monitoring.Cpu.{CpuUsageMonitor, new_cpu_usage_monitor, Tick, goes_on, stops, crashes}
use acadock_monitoring.Cpu.Workers.{
  Worker, Service, cancel, exit, on_action, on_found, handle_event, after_tick, worker_tick,
  worker_done, host_tick, Step, event, tick, context_done, host, Reach, here, next, new_service,
}
use acadock_monitoring.Cpu.Workers.Registry.{is_some, after_action, runs, action-is_some}
use acadock_monitoring.Cpu.Workers.Owned.{HasData}
use acadock_monitoring.Cpu.Workers.Settle.{map-settled-alive, new_service-settles}

-- The events that `Start` handled in a run, the first one first.
unfoldable pub events_of : {s t : Service} → Reach s t → List ContainerEvent
events_of here = []
events_of (next r (event e)) = events_of r ++ e ∷ []
events_of (next r (tick n w stats system k a c)) = events_of r
events_of (next r (context_done n w k a c)) = events_of r
events_of (next r (host system)) = events_of r

-- No event starts a container that has a cancel function.
abbrev IsFresh : ContainerAction → Bytes → Service → Type 0
IsFresh action_start id s = Dict.lookup id s.cancels ≡ none
IsFresh action_stop id s = Unit
IsFresh (other_action name) id s = Unit

abbrev pub IsFreshStep : {s t : Service} → Step s t → Type 0
IsFreshStep {s} (event e) = IsFresh e.action e.container_id s
IsFreshStep (tick n w stats system k a c) = Unit
IsFreshStep (context_done n w k a c) = Unit
IsFreshStep (host system) = Unit

abbrev pub IsFreshRun : {s t : Service} → Reach s t → Type 0
IsFreshRun here = Unit
IsFreshRun (next r st) = IsFreshRun r × IsFreshStep st

-- Each goroutine that was not cancelled has its cancel function under its container.
abbrev IsExclusive : Service → Type 0
IsExclusive s =
    (i : ℕ) (w : Worker)
    → get_elem? s.workers i ≡ some w
    → w.cancelled ≡ false
    → Dict.lookup w.container s.cancels ≡ some i

start-IsExclusive :
    (id : Bytes) (s : Service)
    → Dict.lookup id s.cancels ≡ none
    → IsExclusive s
    → IsExclusive (on_action action_start id s)
unfolding on_action
start-IsExclusive id s free x i w h live = elim (append-cases s.workers _ i h) [
  | inl old ↦
      let e = x i w old live in
      ground (
        arith,
        lookup-insert id w.container (length s.workers) s.cancels,
        bytes_eq_iff id w.container,
      )
  | inr (at, new) ↦
      let own : id ≡ w.container = ap (λ (v : Worker). v.container) new in
      ground (
        arith,
        lookup-insert id w.container (length s.workers) s.cancels,
        bytes_eq_iff id w.container,
      )
]

found-IsExclusive :
    (id : Bytes) (s : Service) (found : Option ℕ)
    → Dict.lookup id s.cancels ≡ found
    → IsExclusive s
    → IsExclusive (on_found found id s)
unfolding on_found
found-IsExclusive id s none e x = x
found-IsExclusive id s (some n) e x = λ i w h live. elim (update_at-cases n i cancel s.workers h) [
  | inl (ne, old) ↦
      let e' = x i w old live in
      elim (Bool-cases (bytes_eq id w.container)) [
        | inl same ↦ absurd (
            ne (
              some-injective n i
                (sym e ∙ ap (λ (j : Bytes). Dict.lookup j s.cancels) (bytes_eq→eq _ _ same) ∙ e')))
        | inr other ↦ lookup-delete id w.container s.cancels ∙ rw other e'
      ]
  | inr (at, (v, old, cut)) ↦
      let gone : true ≡ w.cancelled = ap (λ (u : Worker). u.cancelled) cut in cc
]

action-IsExclusive :
    (a : ContainerAction) (id : Bytes) (s : Service)
    → IsFresh a id s
    → IsExclusive s
    → IsExclusive (on_action a id s)
unfolding on_action
action-IsExclusive action_start id s f x = start-IsExclusive id s f x
action-IsExclusive action_stop id s f x = found-IsExclusive id s _ refl x
action-IsExclusive (other_action name) id s f x = x

exit-IsExclusive :
    (n : ℕ) (s : Service) (m : CpuUsageMonitor)
    → IsExclusive s
    → IsExclusive (record s { monitor = m; workers = update_at n exit s.workers })
exit-IsExclusive n s m x i w h live = elim (update_at-cases n i exit s.workers h) [
  | inl (ne, old) ↦ x i w old live
  | inr (at, (v, old, out)) ↦
      subst (λ (u : Worker). u.cancelled ≡ false → Dict.lookup u.container s.cancels ≡ some i) out
        (x i v old) live
]

after_tick-IsExclusive :
    (n : ℕ) (r : CpuUsageMonitor × Tick) (s : Service)
    → IsExclusive s
    → IsExclusive (after_tick n r s)
unfolding after_tick
after_tick-IsExclusive n (m, goes_on) s x = x
after_tick-IsExclusive n (m, stops) s x = exit-IsExclusive n s m x
after_tick-IsExclusive n (m, crashes) s x = exit-IsExclusive n s m x

Step-IsExclusive : {s t : Service} (st : Step s t) → IsFreshStep st → IsExclusive s → IsExclusive t
unfolding handle_event worker_tick worker_done host_tick
Step-IsExclusive {s} (event e) f x = action-IsExclusive e.action e.container_id s f x
Step-IsExclusive {s} (tick n w stats system k a c) f x = after_tick-IsExclusive n _ s x
Step-IsExclusive {s} (context_done n w k a c) f x =
    exit-IsExclusive n s (worker_done n w s).monitor x
Step-IsExclusive {s} (host system) f x = x

Reach-IsExclusive : {s t : Service} (r : Reach s t) → IsFreshRun r → IsExclusive s → IsExclusive t
Reach-IsExclusive here f x = x
Reach-IsExclusive (next r st) (f, g) x = Step-IsExclusive st g (Reach-IsExclusive r f x)

-- The last Start or Stop event about a container tells whether it has a cancel function.
runs-append :
    (id : Bytes) (es : List ContainerEvent) (e : ContainerEvent) (b : Bool)
    → runs id (es ++ e ∷ []) b
      ≡ (if bytes_eq e.container_id id then after_action e.action (runs id es b) else runs id es b)
unfolding runs
runs-append id [] e b = refl
runs-append id (d ∷ es) e b =
    runs-append id es e (if bytes_eq d.container_id id then after_action d.action b else b)

cancels-after_tick :
    (n : ℕ) (r : CpuUsageMonitor × Tick) (s : Service) → (after_tick n r s).cancels ≡ s.cancels
unfolding after_tick
cancels-after_tick n (m, goes_on) s = refl
cancels-after_tick n (m, stops) s = refl
cancels-after_tick n (m, crashes) s = refl

Reach-runs :
    {s t : Service} (id : Bytes) (r : Reach s t)
    → is_some (Dict.lookup id t.cancels)
      ≡ runs id (events_of r) (is_some (Dict.lookup id s.cancels))
unfolding events_of runs handle_event worker_tick worker_done host_tick
Reach-runs id here = refl
Reach-runs {s} id (next {t} r (event e)) =
    action-is_some e.action e.container_id id t
    ∙ ap (λ b. if bytes_eq e.container_id id then after_action e.action b else b) (Reach-runs id r)
    ∙ sym (runs-append id (events_of r) e (is_some (Dict.lookup id s.cancels)))
Reach-runs id (next {t} r (tick n w stats system k a c)) =
    ap (λ (cs : Dict.StringMap ℕ). is_some (Dict.lookup id cs)) (cancels-after_tick n _ t)
    ∙ Reach-runs id r
Reach-runs id (next r (context_done n w k a c)) = Reach-runs id r
Reach-runs id (next r (host system)) = Reach-runs id r

-- Take a run from the start in which no container is started while it has a cancel function. From where
-- it ends, the goroutines can go on, with no other event, until the monitor has samples only of
-- containers whose last Start or Stop event was a Start.
pub new_service-forgets :
    (num_cpu : Word) {s : Service} (r : Reach (new_service (new_cpu_usage_monitor num_cpu)) s)
    → IsFreshRun r
    → (t : Service) × Reach s t
      × ((id : Bytes) → HasData t.monitor id → runs id (events_of r) false ≡ true)
unfolding new_service Dict.lookup
new_service-forgets num_cpu {s} r fresh =
    let (t, q, _, k, only) = new_service-settles num_cpu r in
    (
      t,
      q,
      λ id h.
          let (i, w, e, own, a, _) = only id h in
          let (old, live) =
            map-settled-alive s.workers i (ap (λ (us : List Worker). get_elem? us i) (sym k) ∙ e)
              a in
          let kept =
            Reach-IsExclusive r fresh (λ j v at _. absurd (none-ne-some v at)) i w old live in
          sym (Reach-runs id r)
          ∙ ap (λ (j : Bytes). is_some (Dict.lookup j s.cancels)) (sym own)
          ∙ ap is_some kept,
    )
