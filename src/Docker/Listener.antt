-- ===== src/Docker/Listener.antt =====
-- docker/container_repository.go: what becomes of Docker's events, and the pauses between two
-- connections. The stream of events and the clock are a library's.
use acadock_monitoring.Prelude.{
  ℕ, ◌+◌, List, [], ◌∷◌, map, Bytes, codes, Error, eof, Outcome, ok, wrap, ◌>>=◌, ◌≡◌, refl,
}
use acadock_monitoring.Docker.Events.{ContainerEvent, ContainerAction, action_start, action_stop}
use acadock_monitoring.Docker.Containers.{new_docker_client}

-- What the program uses of Docker's `events.Message`.
pub record Message : Type 0 where
  pub actor_id : Bytes
  pub action : ContainerAction

abbrev pub event_of_message : Message → ContainerEvent
event_of_message m = record { container_id = m.actor_id; action = m.action }

-- The goroutine of a connection.
unfoldable pub forward : List Message → List ContainerEvent
forward messages = map event_of_message messages

-- The error that ends a connection; `io.ErrUnexpectedEOF` is one of its own.
pub data Ending : Type 0 where
  no_error unexpected_eof : Ending
  failed : Error → Ending

-- The milliseconds to wait before the next connection.
unfoldable pub pause_after : Ending → ℕ
pause_after no_error = 0
pause_after unexpected_eof = 250
pause_after (failed eof) = 250
pause_after (failed e) = 5000

-- The loop over the connections: the events that the goroutine of each sends, and the time that is
-- spent in pauses.
pub listen_all : List (List Message × Ending) → List (List ContainerEvent) × ℕ
unfolding forward pause_after
listen_all [] = ([], 0)
listen_all ((messages, ending) ∷ rounds) =
    let (events, time) = listen_all rounds in (forward messages ∷ events, pause_after ending + time)

-- `listenToDockerEvents`, with what `dockerclient.New` returns and the connections that follow.
unfoldable pub listen_to_docker_events :
    {C : Type 0}
    → Outcome C
    → List (List Message × Ending)
    → Outcome (List (List ContainerEvent) × ℕ)
unfolding listen_all new_docker_client
listen_to_docker_events new_client rounds = do
  _ ← wrap (codes "get docker client") (new_docker_client new_client)
  ok (listen_all rounds)

listen_test :
    (listen_to_docker_events (ok tt) (
      (record { actor_id = codes "a"; action = action_start } ∷ [], failed eof)
      ∷ (record { actor_id = codes "a"; action = action_stop } ∷ [], failed (Error.foreign 1))
      ∷ []))
    ≡ ok (
      (record { container_id = codes "a"; action = action_start } ∷ [])
          ∷ (record { container_id = codes "a"; action = action_stop } ∷ [])
          ∷ [],
      5250,
    )
unfolding listen_to_docker_events
listen_test = refl
