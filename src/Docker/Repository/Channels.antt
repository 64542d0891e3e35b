-- ===== src/Docker/Repository/Channels.antt =====
-- What was sent to a channel: the events of its two senders, each in order.
use acadock_monitoring.Prelude.{
  ℕ, ◌≤◌, List, [], ◌∷◌, ◌++◌, map, map-append, append_assoc, append-nil, Option, none, some,
  length, drop, Outcome, ok, err, panic, ltb, if◌then◌else◌, ◌≡◌, refl, sym, ap, ◌∙◌, arith,
}
use acadock_monitoring.Docker.Events.{ContainerEvent, action_start}
use acadock_monitoring.Docker.Containers.{ContainerSummary}
use acadock_monitoring.Docker.Repository.{
  Origin, replay, broadcast, Replay, listing, sending, Channel, Sending, send, take_first,
  begin_replay, send_replay, starts, starts_of, listed_of,
}

-- What the broadcasting goroutine sent, and what the replaying one did.
unfoldable pub delivered : List (Origin × ContainerEvent) → List ContainerEvent
delivered [] = []
delivered ((broadcast, e) ∷ s) = e ∷ delivered s
delivered ((replay, e) ∷ s) = delivered s

unfoldable pub replayed : List (Origin × ContainerEvent) → List ContainerEvent
replayed [] = []
replayed ((broadcast, e) ∷ s) = replayed s
replayed ((replay, e) ∷ s) = e ∷ replayed s

abbrev pub event_of : Origin × ContainerEvent → ContainerEvent
event_of (o, e) = e

abbrev pub remaining : Replay → List ContainerEvent
remaining listing = []
remaining (sending events) = events

-- The Start event of a container.
abbrev pub started : ContainerSummary → ContainerEvent
started c = record { container_id = c.id; action = action_start }

abbrev pub IsUnlisted : Replay → List ContainerSummary → Type 0
IsUnlisted listing listed = listed ≡ []
IsUnlisted (sending events) listed = Unit

-- The events whose turn at the channel of a position has come.
abbrev pub expected : Option Sending → List ContainerEvent → ℕ → ℕ → List ContainerEvent
expected none finished i since = drop since finished
expected (some s) finished i since =
    if ltb i s.position then drop since finished ++ s.event ∷ [] else drop since finished

pub record IsOrdered (c : Channel) : Type 0 where
  pub room : length c.buffer ≤ 1
  pub order : c.received ++ c.buffer ≡ map event_of c.sent
  pub replaying : replayed c.sent ++ remaining c.replay_state ≡ map started c.listed
  pub unlisted : IsUnlisted c.replay_state c.listed

abbrev pub IsGiven : Option Sending → List ContainerEvent → ℕ → Channel → Type 0
IsGiven current finished i c =
    (delivered c.sent ≡ expected current finished i c.since) × (c.since ≤ length finished)

pub delivered-broadcast :
    (s : List (Origin × ContainerEvent)) (e : ContainerEvent)
    → delivered (s ++ (broadcast, e) ∷ []) ≡ delivered s ++ e ∷ []
unfolding delivered
delivered-broadcast [] e = refl
delivered-broadcast ((broadcast, x) ∷ s) e =
    ap (λ (es : List ContainerEvent). x ∷ es) (delivered-broadcast s e)
delivered-broadcast ((replay, x) ∷ s) e = delivered-broadcast s e

pub delivered-replay :
    (s : List (Origin × ContainerEvent)) (e : ContainerEvent)
    → delivered (s ++ (replay, e) ∷ []) ≡ delivered s
unfolding delivered
delivered-replay [] e = refl
delivered-replay ((broadcast, x) ∷ s) e =
    ap (λ (es : List ContainerEvent). x ∷ es) (delivered-replay s e)
delivered-replay ((replay, x) ∷ s) e = delivered-replay s e

replayed-broadcast :
    (s : List (Origin × ContainerEvent)) (e : ContainerEvent)
    → replayed (s ++ (broadcast, e) ∷ []) ≡ replayed s
unfolding replayed
replayed-broadcast [] e = refl
replayed-broadcast ((broadcast, x) ∷ s) e = replayed-broadcast s e
replayed-broadcast ((replay, x) ∷ s) e =
    ap (λ (es : List ContainerEvent). x ∷ es) (replayed-broadcast s e)

replayed-replay :
    (s : List (Origin × ContainerEvent)) (e : ContainerEvent)
    → replayed (s ++ (replay, e) ∷ []) ≡ replayed s ++ e ∷ []
unfolding replayed
replayed-replay [] e = refl
replayed-replay ((broadcast, x) ∷ s) e = replayed-replay s e
replayed-replay ((replay, x) ∷ s) e =
    ap (λ (es : List ContainerEvent). x ∷ es) (replayed-replay s e)

send-order :
    (o : Origin) (e : ContainerEvent) (c : Channel)
    → c.received ++ c.buffer ≡ map event_of c.sent
    → c.received ++ (c.buffer ++ e ∷ []) ≡ map event_of (c.sent ++ (o, e) ∷ [])
send-order o e c h =
    sym (append_assoc c.received c.buffer (e ∷ []))
    ∙ ap (λ (es : List ContainerEvent). es ++ e ∷ []) h
    ∙ sym (map-append event_of c.sent ((o, e) ∷ []))

pub broadcast-IsOrdered :
    (e : ContainerEvent) (c : Channel)
    → c.buffer ≡ []
    → IsOrdered c
    → IsOrdered (send broadcast e c)
broadcast-IsOrdered e c free v = record {
  room = omega (arith, ap (λ (b : List ContainerEvent). length (b ++ e ∷ [])) free);
  order = send-order broadcast e c v.order;
  replaying = rw (replayed-broadcast c.sent e) v.replaying;
  unlisted = v.unlisted;
}

pub send_replay-IsOrdered :
    (e : ContainerEvent) (es : List ContainerEvent) (c : Channel)
    → c.replay_state ≡ sending (e ∷ es)
    → c.buffer ≡ []
    → IsOrdered c
    → IsOrdered (send_replay e es c)
send_replay-IsOrdered e es c due free v = record {
  room = omega (arith, ap (λ (b : List ContainerEvent). length (b ++ e ∷ [])) free);
  order = send-order replay e c v.order;
  replaying = rw (replayed-replay c.sent e) (
      append_assoc (replayed c.sent) (e ∷ []) es
      ∙ ap (λ (s : Replay). replayed c.sent ++ remaining s) (sym due)
      ∙ v.replaying);
  unlisted = tt;
}

nothing_replayed :
    (state : Replay) (xs : List ContainerEvent) (listed : List ContainerSummary)
    → state ≡ listing
    → IsUnlisted state listed
    → xs ++ remaining state ≡ map started listed
    → xs ≡ []
nothing_replayed listing xs listed e u h = sym (append-nil xs) ∙ h ∙ ap (map started) u
nothing_replayed (sending events) xs listed e u h = cc

starts-started : (cs : List ContainerSummary) → starts cs ≡ map started cs
unfolding starts
starts-started [] = refl
starts-started (c ∷ cs) = ap (λ (es : List ContainerEvent). started c ∷ es) (starts-started cs)

starts_of-started : (o : Outcome (List ContainerSummary)) → starts_of o ≡ map started (listed_of o)
unfolding starts_of
starts_of-started (ok cs) = starts-started cs
starts_of-started (err e) = refl
starts_of-started panic = refl

pub begin_replay-IsOrdered :
    (o : Outcome (List ContainerSummary)) (c : Channel)
    → c.replay_state ≡ listing
    → IsOrdered c
    → IsOrdered (begin_replay o c)
begin_replay-IsOrdered o c due v = record {
  room = v.room;
  order = v.order;
  replaying =
      ap (λ (xs : List ContainerEvent). xs ++ starts_of o)
        (nothing_replayed c.replay_state (replayed c.sent) c.listed due v.unlisted v.replaying)
      ∙ starts_of-started o;
  unlisted = tt;
}

pub take_first-IsOrdered :
    (b : List ContainerEvent) (c : Channel)
    → c.buffer ≡ b
    → IsOrdered c
    → IsOrdered (take_first b c)
unfolding take_first
take_first-IsOrdered [] c e v = v
take_first-IsOrdered (x ∷ rest) c e v = record {
  room = omega (arith, v.room, ap (λ (b : List ContainerEvent). length b) e);
  order =
      append_assoc c.received (x ∷ []) rest
      ∙ ap (λ (b : List ContainerEvent). c.received ++ b) (sym e)
      ∙ v.order;
  replaying = v.replaying;
  unlisted = v.unlisted;
}

-- The parts of a channel that its receiver does not touch.
pub take_first-same :
    (b : List ContainerEvent) (c : Channel)
    → ((take_first b c).sent ≡ c.sent) × ((take_first b c).since ≡ c.since)
unfolding take_first
take_first-same [] c = (refl, refl)
take_first-same (x ∷ rest) c = (refl, refl)
