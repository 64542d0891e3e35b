-- ===== src/Docker/Repository.antt =====
-- docker/container_repository.go: the channels of events about containers. The goroutines are steps
-- in any order. The fields behind the first three of a channel, and `finished`, only record what
-- has happened.
pub mod Channels
pub mod Listing
pub mod Flow
pub mod Range
pub mod Progress
pub mod Blocked
mod Examples
use acadock_monitoring.Prelude.{
  ℕ, suc, List, [], ◌∷◌, ◌++◌, map, Option, none, some, Outcome, ok, err, panic, length, get_elem?,
  update_at, ◌≡◌,
}
use acadock_monitoring.Docker.Events.{ContainerEvent, action_start}
use acadock_monitoring.Docker.Containers.{ContainerSummary}

-- Which goroutine sent an event to a channel.
pub data Origin : Type 0 where
  replay broadcast : Origin

-- The goroutine that sends the running containers to a new channel: it asks Docker, and then has
-- events to send.
pub data Replay : Type 0 where
  listing : Replay
  sending : List ContainerEvent → Replay

pub record Channel : Type 0 where
  pub buffer : List ContainerEvent
  pub replay_state : Replay
  -- What the receiver has taken out.
  pub received : List ContainerEvent
  pub sent : List (Origin × ContainerEvent)
  pub since : ℕ
  -- The containers that the listing for it returned.
  pub listed : List ContainerSummary

-- The event that the broadcasting goroutine sends, and the position of the next channel.
pub record Sending : Type 0 where
  pub event : ContainerEvent
  pub position : ℕ

-- The mutex is held by the broadcasting goroutine while there is something to send.
pub record Repository : Type 0 where
  pub registered_chans : List Channel
  pub current : Option Sending
  pub finished : List ContainerEvent

unfoldable pub new_container_repository : Repository
new_container_repository = record { registered_chans = []; current = none; finished = [] }

unfoldable pub new_channel : ℕ → Channel
new_channel since = record {
  buffer = [];
  replay_state = listing;
  received = [];
  sent = [];
  since = since;
  listed = [];
}

-- `registration <- event`, for a channel with a free place.
abbrev pub send : Origin → ContainerEvent → Channel → Channel
send origin event c = record c {
  buffer = c.buffer ++ event ∷ [];
  sent = c.sent ++ (origin, event) ∷ [];
}

-- What the receiver takes is the first event of the buffer.
unfoldable pub take_first : List ContainerEvent → Channel → Channel
take_first [] c = c
take_first (event ∷ rest) c = record c { buffer = rest; received = c.received ++ event ∷ [] }

pub receive : Channel → Channel
unfolding take_first
receive c = take_first c.buffer c

-- The Start events of the containers that are running.
unfoldable pub starts : List ContainerSummary → List ContainerEvent
starts [] = []
starts (c ∷ cs) = record { container_id = c.id; action = action_start } ∷ starts cs

-- An error of `ListContainers` leaves nothing to send.
unfoldable pub starts_of : Outcome (List ContainerSummary) → List ContainerEvent
unfolding starts
starts_of (ok containers) = starts containers
starts_of (err e) = []
starts_of panic = []

abbrev pub listed_of : Outcome (List ContainerSummary) → List ContainerSummary
listed_of (ok containers) = containers
listed_of (err e) = []
listed_of panic = []

abbrev pub begin_replay : Outcome (List ContainerSummary) → Channel → Channel
begin_replay containers c = record c {
  replay_state = sending (starts_of containers);
  listed = listed_of containers;
}

abbrev pub send_replay : ContainerEvent → List ContainerEvent → Channel → Channel
send_replay event events c = record (send replay event c) { replay_state = sending events }

-- `RegisterToContainersStream`
abbrev pub register : Repository → Repository
register r = record r {
  registered_chans = r.registered_chans ++ new_channel (length r.finished) ∷ [];
}

abbrev pub on_channel : ℕ → (Channel → Channel) → Repository → Repository
on_channel n f r = record r { registered_chans = update_at n f r.registered_chans }

-- A channel has room for one event; a send waits for the room, and the mutex for its holder.
pub data Step (r : Repository) : Repository → Type 0 where
  registers : r.current ≡ none → Step r (register r)
  announces :
      (event : ContainerEvent)
      → r.current ≡ none
      → Step r (record r { current = some (record { event = event; position = 0 }) })
  delivers :
      (event : ContainerEvent) (n : ℕ) (c : Channel)
      → r.current ≡ some (record { event = event; position = n })
      → get_elem? r.registered_chans n ≡ some c
      → c.buffer ≡ []
      → Step r (record (on_channel n (send broadcast event) r) {
        current = some (record { event = event; position = suc n });
      })
  unlocks :
      (event : ContainerEvent)
      → r.current ≡ some (record { event = event; position = length r.registered_chans })
      → Step r (record r { current = none; finished = r.finished ++ event ∷ [] })
  lists :
      (n : ℕ) (c : Channel) (containers : Outcome (List ContainerSummary))
      → get_elem? r.registered_chans n ≡ some c
      → c.replay_state ≡ listing
      → Step r (on_channel n (begin_replay containers) r)
  replays :
      (n : ℕ) (c : Channel) (event : ContainerEvent) (events : List ContainerEvent)
      → get_elem? r.registered_chans n ≡ some c
      → c.replay_state ≡ sending (event ∷ events)
      → c.buffer ≡ []
      → Step r (on_channel n (send_replay event events) r)
  receives :
      (n : ℕ) (c : Channel)
      → get_elem? r.registered_chans n ≡ some c
      → Step r (on_channel n receive r)

pub data Reach (r : Repository) : Repository → Type 0 where
  here : Reach r r
  next : {s t : Repository} → Reach r s → Step s t → Reach r t
