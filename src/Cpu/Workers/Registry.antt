-- ===== src/Cpu/Workers/Registry.antt =====
-- Which containers have a cancel function, after a stream of events.
use acadock_monitoring.Prelude.Dict
use acadock_monitoring.Prelude.Dict.{lookup-insert, lookup-delete}
use acadock_monitoring.Prelude.{
  ℕ, Bool, true, false, List, [], ◌∷◌, ◌++◌, Option, none, some, Bytes, bytes_eq, bytes_eq→eq, map,
  get_elem?, if◌then◌else◌, length, ◌≡◌, refl, sym, append-nil, ap, subst, ◌∙◌, arith, inl, inr,
  Bool-cases,
}
use acadock_monitoring.Docker.Events.{
  ContainerEvent, ContainerAction, action_start, action_stop, other_action,
}
use acadock_monitoring.Docker.Repository.{Channel, Repository, new_container_repository, Reach}
use acadock_monitoring.Docker.Repository.Channels.{event_of}
use acadock_monitoring.Docker.Repository.Flow.{new_container_repository-flow}
use acadock_monitoring.Cpu.{CpuUsageMonitor}
use acadock_monitoring.Cpu.Workers.{Service, on_action, on_found, handle_event, new_service}

-- `for` over the channel of the events.
unfoldable pub handle_all : List ContainerEvent → Service → Service
handle_all [] s = s
handle_all (e ∷ es) s = handle_all es (handle_event e s)

abbrev pub is_some {ℓ} : {A : Type ℓ} → Option A → Bool
is_some none = false
is_some (some a) = true

abbrev pub after_action : ContainerAction → Bool → Bool
after_action action_start running = true
after_action action_stop running = false
after_action (other_action name) running = running

-- Whether a container runs, by the events about it: the last Start or Stop counts.
unfoldable pub runs : Bytes → List ContainerEvent → Bool → Bool
runs id [] running = running
runs id (e ∷ es) running =
    runs id es (if bytes_eq e.container_id id then after_action e.action running else running)

found-is_some :
    (found : Option ℕ) (id j : Bytes) (s : Service)
    → Dict.lookup id s.cancels ≡ found
    → is_some (Dict.lookup j (on_found found id s).cancels)
      ≡ (if bytes_eq id j then false else is_some (Dict.lookup j s.cancels))
unfolding on_found
found-is_some none id j s h = elim (Bool-cases (bytes_eq id j)) [
  | inl same ↦
      let none_there : Dict.lookup j s.cancels ≡ none =
        subst (λ (k : Bytes). Dict.lookup k s.cancels ≡ none) (bytes_eq→eq id j same) h in
      rw same (ap is_some none_there)
  | inr other ↦ rw other refl
]
found-is_some (some n) id j s h = ap is_some (lookup-delete id j s.cancels) ∙ ground arith

pub action-is_some :
    (a : ContainerAction) (id j : Bytes) (s : Service)
    → is_some (Dict.lookup j (on_action a id s).cancels) ≡ (
        if bytes_eq id j
        then after_action a (is_some (Dict.lookup j s.cancels))
        else is_some (Dict.lookup j s.cancels))
unfolding on_action
action-is_some action_start id j s =
    ap is_some (lookup-insert id j (length s.workers) s.cancels) ∙ ground arith
action-is_some action_stop id j s = found-is_some (Dict.lookup id s.cancels) id j s refl
action-is_some (other_action name) id j s = ground arith

handle_all-is_some :
    (es : List ContainerEvent) (id : Bytes) (s : Service)
    → is_some (Dict.lookup id (handle_all es s).cancels)
      ≡ runs id es (is_some (Dict.lookup id s.cancels))
unfolding handle_all runs handle_event
handle_all-is_some [] id s = refl
handle_all-is_some (e ∷ es) id s =
    handle_all-is_some es id (handle_event e s)
    ∙ ap (runs id es) (action-is_some e.action e.container_id id s)

handle_all-runs :
    (monitor : CpuUsageMonitor) (es : List ContainerEvent) (id : Bytes)
    → is_some (Dict.lookup id (handle_all es (new_service monitor)).cancels) ≡ runs id es false
unfolding new_service Dict.lookup
handle_all-runs monitor es id = handle_all-is_some es id (new_service monitor)

-- A new CPU monitor that has handled what it received of its channel, with nothing left in the
-- channel: a container has a cancel function exactly if the last Start or Stop event about it that
-- was sent to the channel, by the broadcast or by the replay, is a Start.
pub handle_all-received :
    (monitor : CpuUsageMonitor) {r : Repository}
    → Reach new_container_repository r
    → (i : ℕ) (c : Channel) → get_elem? r.registered_chans i ≡ some c
    → c.buffer ≡ []
    → (id : Bytes)
    → is_some (Dict.lookup id (handle_all c.received (new_service monitor)).cancels)
      ≡ runs id (map event_of c.sent) false
handle_all-received monitor reach i c at drained id =
    let (_, order, _, _) = new_container_repository-flow reach i c at in
    let all_sent =
      sym (append-nil c.received)
      ∙ ap (λ (b : List ContainerEvent). c.received ++ b) (sym drained)
      ∙ order in
    handle_all-runs monitor c.received id
    ∙ ap (λ (es : List ContainerEvent). runs id es false) all_sent
