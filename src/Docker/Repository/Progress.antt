-- ===== src/Docker/Repository/Progress.antt =====
-- A broadcast can always be completed, if the receivers take their events.
use acadock_monitoring.Prelude.{
  ℕ, zero, suc, ◌+◌, List, [], ◌∷◌, ◌++◌, append-nil, Option, none, some, length, get_elem?,
  get_elem?-of_lt, ◌-◌, get_elem?-update_at_self, length-update_at, drop, ◌≡◌, refl, sym, ap, ◌∙◌,
  arith,
}
use acadock_monitoring.Docker.Events.{ContainerEvent}
use acadock_monitoring.Docker.Repository.{
  Channel, Sending, Repository, new_container_repository, send, broadcast, take_first, receive,
  on_channel, delivers, unlocks, receives, Reach, here, next,
}
use acadock_monitoring.Docker.Repository.Channels.{delivered, expected}
use acadock_monitoring.Docker.Repository.Flow.{new_container_repository-flow}
use acadock_monitoring.Docker.Repository.Range.{IsInRange, Reach-IsInRange}

Reach-trans : {r s t : Repository} → Reach r s → Reach s t → Reach r t
Reach-trans p here = p
Reach-trans p (next q st) = next (Reach-trans p q) st

-- A state from which the send to the channel of a position can go on.
record IsDrained (r : Repository) (n : ℕ) (t : Repository) : Type 0 where
  reach : Reach r t
  current : t.current ≡ r.current
  finished : t.finished ≡ r.finished
  channels : length t.registered_chans ≡ length r.registered_chans
  channel : Channel
  at : get_elem? t.registered_chans n ≡ some channel
  free : channel.buffer ≡ []

abbrev Drained : Repository → ℕ → Type 0
Drained r n = (t : Repository) × IsDrained r n t

drain :
    (b : List ContainerEvent) (n : ℕ) (r : Repository) (c : Channel)
    → get_elem? r.registered_chans n ≡ some c
    → c.buffer ≡ b
    → Drained r n
unfolding receive take_first
drain [] n r c at e = (
  r,
  record {
    reach = here;
    current = refl;
    finished = refl;
    channels = refl;
    channel = c;
    at = at;
    free = e;
  },
)
drain (x ∷ rest) n r c at e =
    let taken = get_elem?-update_at_self n receive r.registered_chans at in
    let (t, d) =
      drain rest n (on_channel n receive r) (receive c) taken
        (ap (λ (b : List ContainerEvent). (take_first b c).buffer) e) in
    (
      t,
      record {
        reach = Reach-trans (next here (receives n c at)) d.reach;
        current = d.current;
        finished = d.finished;
        channels = d.channels ∙ length-update_at n receive r.registered_chans;
        channel = d.channel;
        at = d.at;
        free = d.free;
      },
    )

record IsFinished (r : Repository) (e : ContainerEvent) (t : Repository) : Type 0 where
  reach : Reach r t
  idle : t.current ≡ none
  finished : t.finished ≡ r.finished ++ e ∷ []
  channels : length t.registered_chans ≡ length r.registered_chans

finish :
    (k n : ℕ) (e : ContainerEvent) (r : Repository)
    → r.current ≡ some (record { event = e; position = n })
    → n + k ≡ length r.registered_chans
    → (t : Repository) × IsFinished r e t
finish zero n e r now h = (
  record r { current = none; finished = r.finished ++ e ∷ [] },
  record {
    reach = next here (
        unlocks e
          (now ∙ ap (λ (k : ℕ). some (record { event = e; position = k })) {x = n} (omega arith)));
    idle = refl;
    finished = refl;
    channels = refl;
  },
)
finish (suc k) n e r now h =
    let (c, at) = get_elem?-of_lt r.registered_chans n (omega arith) in
    let (s, d) = drain c.buffer n r c at refl in
    let sent = length-update_at n (send broadcast e) s.registered_chans in
    let (t, f) =
      finish k (suc n) e
        (record (on_channel n (send broadcast e) s) {
          current = some (record { event = e; position = suc n });
        })
        refl (omega (arith, sent, d.channels)) in
    (
      t,
      record {
        reach =
            Reach-trans (next d.reach (delivers e n d.channel (d.current ∙ now) d.at d.free))
              f.reach;
        idle = f.idle;
        finished = f.finished ∙ ap (λ (es : List ContainerEvent). es ++ e ∷ []) d.finished;
        channels = f.channels ∙ sent ∙ d.channels;
      },
    )

-- The event that is being sent.
abbrev pub pending : Option Sending → List ContainerEvent
pending none = []
pending (some s) = s.event ∷ []

record IsIdle (r t : Repository) : Type 0 where
  reach : Reach r t
  idle : t.current ≡ none
  finished : t.finished ≡ r.finished ++ pending r.current
  channels : length t.registered_chans ≡ length r.registered_chans

complete :
    (r : Repository) (current : Option Sending)
    → r.current ≡ current
    → IsInRange current (length r.registered_chans)
    → (t : Repository) × IsIdle r t
complete r none e h = (
  r,
  record {
    reach = here;
    idle = e;
    finished =
        sym (append-nil r.finished) ∙ ap (λ (o : Option Sending). r.finished ++ pending o) (sym e);
    channels = refl;
  },
)
complete r (some s) e h =
    let (t, f) =
      finish (length r.registered_chans - s.position) s.position s.event r e (omega arith) in
    (
      t,
      record {
        reach = f.reach;
        idle = f.idle;
        finished = f.finished ∙ ap (λ (o : Option Sending). r.finished ++ pending o) (sym e);
        channels = f.channels;
      },
    )

-- From every reachable state there is a run after which the mutex is free, the event that was being
-- sent has been sent, no channel is lost, and each channel was sent all events announced since its
-- registration: there is no deadlock, if the receivers take their events.
pub new_container_repository-progress :
    {r : Repository}
    → Reach new_container_repository r
    → (t : Repository) × Reach r t
      × (t.current ≡ none)
      × (t.finished ≡ r.finished ++ pending r.current)
      × (length t.registered_chans ≡ length r.registered_chans)
      × ((i : ℕ) (c : Channel)
          → get_elem? t.registered_chans i ≡ some c
          → delivered c.sent ≡ drop c.since t.finished)
new_container_repository-progress {r} reach =
    let (t, v) = complete r r.current refl (Reach-IsInRange reach) in
    (
      t,
      v.reach,
      v.idle,
      v.finished,
      v.channels,
      λ i c at.
          let (_, _, _, given) = new_container_repository-flow (Reach-trans reach v.reach) i c at in
          given ∙ ap (λ (o : Option Sending). expected o t.finished i c.since) v.idle,
    )
