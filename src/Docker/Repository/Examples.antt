-- ===== src/Docker/Repository/Examples.antt =====
-- Runs of the repository of container events.
use acadock_monitoring.Prelude.{
  ℕ, true, bytes_eq, List, [], ◌∷◌, ◌++◌, map, none, some, ok, codes, length, get_elem?,
  get_elem?-update_at_self, get_elem?-update_at_ne, ◌∙◌, ap, arith, drop, ◌≤◌, ◌≡◌, refl,
}
use acadock_monitoring.Docker.Events.{ContainerEvent, action_start, action_stop}
use acadock_monitoring.Docker.Containers.{ContainerSummary}
use acadock_monitoring.Docker.Repository.{
  Channel, Repository, new_container_repository, new_channel, begin_replay, send_replay, starts_of,
  register, on_channel, receive, take_first, registers, announces, lists, replays, receives, Reach,
  here, next,
}
use acadock_monitoring.Docker.Repository.Channels.{
  started, delivered, replayed, event_of, remaining, expected,
}
use acadock_monitoring.Docker.Repository.Listing.{listed_in}
use acadock_monitoring.Docker.Repository.Flow.{new_container_repository-flow}
use acadock_monitoring.Docker.Repository.Progress.{new_container_repository-progress, pending}
use acadock_monitoring.Docker.Repository.Blocked.{ReachWithout-stuck}
use acadock_monitoring.Docker.Repository.Blocked
use acadock_monitoring.Prelude.Dict
use acadock_monitoring.Cpu.{new_cpu_usage_monitor}
use acadock_monitoring.Cpu.Workers.{new_service}
use acadock_monitoring.Cpu.Workers.Registry.{is_some, handle_all, runs, handle_all-received}

abbrev web : ContainerSummary
web = record { id = codes "web"; labels = [] }

abbrev web_starts : ContainerEvent
web_starts = record { container_id = codes "web"; action = action_start }

abbrev web_stops : ContainerEvent
web_stops = record { container_id = codes "web"; action = action_stop }

-- Two channels are registered while a container runs, and an event is announced before the replay to the first ends.
abbrev registered : Repository
registered = register (register new_container_repository)

abbrev announced : Repository
announced = record registered { current = some (record { event = web_stops; position = 0 }) }

abbrev listed : Repository
listed = on_channel 0 (begin_replay (ok (web ∷ []))) announced

abbrev replayed_one : Repository
replayed_one = on_channel 0 (send_replay web_starts []) listed

abbrev reached : Reach new_container_repository replayed_one
unfolding new_container_repository new_channel starts_of
reached =
    next
      (next (next (next (next here (registers refl)) (registers refl)) (announces web_stops refl))
        (lists 0 (new_channel 0) (ok (web ∷ [])) refl refl))
      (replays 0 (begin_replay (ok (web ∷ [])) (new_channel 0)) web_starts []
        (get_elem?-update_at_self 0 (begin_replay (ok (web ∷ [])))
          (new_channel 0 ∷ new_channel 0 ∷ []) refl)
        refl refl)

abbrev web_channel : Channel
web_channel = send_replay web_starts [] (begin_replay (ok (web ∷ [])) (new_channel 0))

web_channel-at : get_elem? replayed_one.registered_chans 0 ≡ some web_channel
unfolding new_container_repository new_channel starts_of
web_channel-at = get_elem?-update_at_self 0 (send_replay web_starts []) listed.registered_chans (
    get_elem?-update_at_self 0 (begin_replay (ok (web ∷ []))) (new_channel 0 ∷ new_channel 0 ∷ [])
      refl)

new_container_repository-flow_example :
    (length web_channel.buffer ≤ 1)
    × (web_channel.received ++ web_channel.buffer ≡ map event_of web_channel.sent)
    × (replayed web_channel.sent ++ remaining web_channel.replay_state
        ≡ map started (listed_in reached 0))
    × (delivered web_channel.sent
        ≡ expected replayed_one.current replayed_one.finished 0 web_channel.since)
new_container_repository-flow_example =
    new_container_repository-flow reached 0 web_channel web_channel-at

web_was_listed : listed_in reached 0 ≡ web ∷ []
unfolding listed_in reached
web_was_listed = refl

new_container_repository-progress_example :
    (t : Repository) × Reach replayed_one t
    × (t.current ≡ none)
    × (t.finished ≡ replayed_one.finished ++ pending replayed_one.current)
    × (length t.registered_chans ≡ length replayed_one.registered_chans)
    × ((i : ℕ) (c : Channel)
        → get_elem? t.registered_chans i ≡ some c
        → delivered c.sent ≡ drop c.since t.finished)
new_container_repository-progress_example = new_container_repository-progress reached

abbrev second_listed : Repository
second_listed = on_channel 1 (begin_replay (ok (web ∷ []))) replayed_one

-- The event of the broadcast waits for the first channel, and the second replay begins.
first_waits : Blocked.ReachWithout 0 replayed_one second_listed
unfolding new_container_repository new_channel starts_of
first_waits =
    Blocked.next Blocked.here
      (lists 1 (new_channel 0) (ok (web ∷ []))
        (get_elem?-update_at_ne 0 1 (send_replay web_starts []) listed.registered_chans
            (λ h. omega (arith, h))
          ∙ get_elem?-update_at_ne 0 1 (begin_replay (ok (web ∷ []))) announced.registered_chans
              (λ h. omega (arith, h)))
        refl)
      (λ h. h)

ReachWithout-stuck_example :
    (second_listed.current ≡ replayed_one.current)
    × (second_listed.finished ≡ replayed_one.finished)
    × (length second_listed.registered_chans ≡ length replayed_one.registered_chans)
unfolding new_channel
ReachWithout-stuck_example =
    ReachWithout-stuck web_stops 0 web_channel refl web_channel-at
      (λ h.
        omega (arith, ap (λ (b : List ContainerEvent). length b) {x = web_starts ∷ []} {y = []} h))
      first_waits

abbrev drained : Repository
drained = on_channel 0 receive replayed_one

abbrev emptied : Channel
emptied = record web_channel { buffer = []; received = web_starts ∷ [] }

emptied-at : get_elem? drained.registered_chans 0 ≡ some emptied
unfolding receive take_first new_channel
emptied-at = get_elem?-update_at_self 0 receive replayed_one.registered_chans web_channel-at

-- The CPU monitor has handled the Start event of the replay, with the broadcast still to come.
handle_all-received_example :
    is_some (
      Dict.lookup
        (codes "web")
        (handle_all (web_starts ∷ []) (new_service (new_cpu_usage_monitor 4))).cancels)
    ≡ true
unfolding runs bytes_eq new_channel
handle_all-received_example =
    handle_all-received (new_cpu_usage_monitor 4)
      (next reached (receives 0 web_channel web_channel-at)) 0 emptied emptied-at refl (codes "web")
