-- ===== src/Docker/Repository/Flow.antt =====
-- What a channel holds: the events of its two senders, each in order.
use acadock_monitoring.Prelude.{
  ℕ, suc, ◌≤◌, ◌<◌, List, [], ◌∷◌, ◌++◌, map, Option, none, some, none-ne-some, some-injective,
  length, get_elem?, get_elem?-lt, drop, drop-length, drop-append, length-append, append-cases,
  AllAt, AllAt-update_at, ◌≡◌, ◌≢◌, refl, sym, ap, subst, ◌∙◌, arith, inl, inr,
}
use acadock_monitoring.Docker.Events.{ContainerEvent}
use acadock_monitoring.Docker.Repository.{
  broadcast, Channel, Sending, Repository, new_container_repository, new_channel, send, receive,
  begin_replay, send_replay, register, on_channel, Step, registers, announces, delivers, unlocks,
  lists, replays, receives, Reach, here, next,
}
use acadock_monitoring.Docker.Repository.Channels.{
  started, delivered, replayed, event_of, remaining, expected, IsOrdered, IsGiven,
  broadcast-IsOrdered, send_replay-IsOrdered, begin_replay-IsOrdered, take_first-IsOrdered,
  take_first-same, delivered-broadcast, delivered-replay,
}
use acadock_monitoring.Docker.Repository.Listing.{
  listed_by, listed_in, new_container_repository-listed,
}

record IsFlowing (r : Repository) : Type 0 where
  ordered : AllAt (λ i c. IsOrdered c) r.registered_chans
  given : AllAt (IsGiven r.current r.finished) r.registered_chans

-- A step at one channel that leaves what it was sent by the broadcast.
on_channel-IsFlowing :
    (n : ℕ) (f : Channel → Channel) (r : Repository)
    → ((c : Channel)
        → get_elem? r.registered_chans n ≡ some c
        → IsOrdered c
        → IsOrdered (f c) × ((delivered (f c).sent ≡ delivered c.sent) × ((f c).since ≡ c.since)))
    → IsFlowing r
    → IsFlowing (on_channel n f r)
on_channel-IsFlowing n f r keep v = record {
  ordered =
      AllAt-update_at _ _ n f r.registered_chans (λ i c _ p. p) (λ c e p. (keep c e p).0) v.ordered;
  given =
      AllAt-update_at _ _ n f r.registered_chans (λ i c _ p. p)
        (λ c e (given, known).
          let (_, (same, start)) = keep c e (v.ordered n c e) in
          (same ∙ given ∙ ap (expected r.current r.finished n) (sym start), omega (arith, start)))
        v.given;
}

module _ (e : ContainerEvent) (finished : List ContainerEvent) (i since : ℕ) where
  expected_before :
      (n : ℕ)
      → n ≤ i
      → expected (some (record { event = e; position = n })) finished i since ≡ drop since finished
  expected_before n h = ground arith

  expected_after :
      (n : ℕ)
      → i < n
      → expected (some (record { event = e; position = n })) finished i since
        ≡ drop since finished ++ e ∷ []
  expected_after n h = ground arith

  expected_next :
      (n : ℕ)
      → n ≢ i
      → expected (some (record { event = e; position = n })) finished i since
        ≡ expected (some (record { event = e; position = suc n })) finished i since
  expected_next n h = ground arith

register-IsFlowing : (r : Repository) → r.current ≡ none → IsFlowing r → IsFlowing (register r)
unfolding new_channel replayed delivered
register-IsFlowing r free v = record {
  ordered = λ i c e. elim (append-cases r.registered_chans _ i e) [
    | inl old ↦ v.ordered i c old
    | inr (_, new) ↦
        subst IsOrdered new
          (record { room = omega arith; order = refl; replaying = refl; unlisted = refl })
  ];
  given = λ i c e. elim (append-cases r.registered_chans _ i e) [
    | inl old ↦ v.given i c old
    | inr (_, new) ↦ subst (IsGiven r.current r.finished i) new (
      sym (
          ap (λ (o : Option Sending). expected o r.finished i (length r.finished)) free
          ∙ drop-length r.finished),
      omega arith,
    )
  ];
}

announce-IsFlowing :
    (e : ContainerEvent) (r : Repository)
    → r.current ≡ none
    → IsFlowing r
    → IsFlowing (record r { current = some (record { event = e; position = 0 }) })
announce-IsFlowing e r free v = record {
  ordered = v.ordered;
  given = λ i c at.
      let (given, known) = v.given i c at in
      (
        given
            ∙ ap (λ (o : Option Sending). expected o r.finished i c.since) free
            ∙ sym (expected_before e r.finished i c.since 0 (omega arith)),
        known,
      );
}

deliver-IsFlowing :
    (e : ContainerEvent) (n : ℕ) (c : Channel) (r : Repository)
    → r.current ≡ some (record { event = e; position = n })
    → get_elem? r.registered_chans n ≡ some c
    → c.buffer ≡ []
    → IsFlowing r
    → IsFlowing (record (on_channel n (send broadcast e) r) {
      current = some (record { event = e; position = suc n });
    })
deliver-IsFlowing e n c r now at free v = record {
  ordered =
      AllAt-update_at _ _ n (send broadcast e) r.registered_chans (λ i d _ p. p)
        (λ d e' p.
          broadcast-IsOrdered e d
            (ap (λ (x : Channel). x.buffer) (some-injective _ _ (sym e' ∙ at)) ∙ free) p)
        v.ordered;
  given =
      AllAt-update_at _ _ n (send broadcast e) r.registered_chans
        (λ i d ne (given, known). (
          given
              ∙ ap (λ (o : Option Sending). expected o r.finished i d.since) now
              ∙ expected_next e r.finished i d.since n ne,
          known,
        ))
        (λ d e' (given, known). (
          delivered-broadcast d.sent e
              ∙ ap (λ (es : List ContainerEvent). es ++ e ∷ [])
                  (given
                    ∙ ap (λ (o : Option Sending). expected o r.finished n d.since) now
                    ∙ expected_before e r.finished n d.since n (omega arith))
              ∙ sym (expected_after e r.finished n d.since (suc n) (omega arith)),
          known,
        ))
        v.given;
}

unlock-IsFlowing :
    (e : ContainerEvent) (r : Repository)
    → r.current ≡ some (record { event = e; position = length r.registered_chans })
    → IsFlowing r
    → IsFlowing (record r { current = none; finished = r.finished ++ e ∷ [] })
unlock-IsFlowing e r now v = record {
  ordered = v.ordered;
  given = λ i c at.
      let (given, known) = v.given i c at in
      (
        given
            ∙ ap (λ (o : Option Sending). expected o r.finished i c.since) now
            ∙ expected_after e r.finished i c.since (length r.registered_chans)
                (get_elem?-lt r.registered_chans i at)
            ∙ sym (drop-append c.since r.finished (e ∷ []) known),
        omega (arith, known, length-append r.finished (e ∷ [])),
      );
}

Step-IsFlowing : {r t : Repository} → Step r t → IsFlowing r → IsFlowing t
unfolding receive
Step-IsFlowing {r} (registers free) v = register-IsFlowing r free v
Step-IsFlowing {r} (announces e free) v = announce-IsFlowing e r free v
Step-IsFlowing {r} (delivers e n c now at free) v = deliver-IsFlowing e n c r now at free v
Step-IsFlowing {r} (unlocks e now) v = unlock-IsFlowing e r now v
Step-IsFlowing {r} (lists n c containers at due) v =
    on_channel-IsFlowing n (begin_replay containers) r
      (λ d at' p. (
        begin_replay-IsOrdered containers d
            (ap (λ (x : Channel). x.replay_state) (some-injective _ _ (sym at' ∙ at)) ∙ due) p,
        (refl, refl),
      ))
      v
Step-IsFlowing {r} (replays n c e es at due free) v =
    on_channel-IsFlowing n (send_replay e es) r
      (λ d at' p. (
        send_replay-IsOrdered e es d
            (ap (λ (x : Channel). x.replay_state) (some-injective _ _ (sym at' ∙ at)) ∙ due)
            (ap (λ (x : Channel). x.buffer) (some-injective _ _ (sym at' ∙ at)) ∙ free) p,
        (delivered-replay d.sent e, refl),
      ))
      v
Step-IsFlowing {r} (receives n c at) v =
    on_channel-IsFlowing n receive r
      (λ d at' p.
        let (sent, since) = take_first-same d.buffer d in
        (take_first-IsOrdered d.buffer d refl p, (ap delivered sent, since)))
      v

Reach-IsFlowing : {r t : Repository} → Reach r t → IsFlowing r → IsFlowing t
Reach-IsFlowing here v = v
Reach-IsFlowing (next s st) v = Step-IsFlowing st (Reach-IsFlowing s v)

-- In every reachable state, a registered channel holds one event at most; what its receiver took
-- and what it holds are, in their order, the events that were sent to it; those of the replay are
-- the beginning of the Start events of the containers that the last listing of the run for this channel
-- returned, in order; and those of the broadcast
-- are all events announced since the channel was registered, in order, but for the one that is
-- being sent and has not come to this channel.
pub new_container_repository-flow :
    {r : Repository} (reach : Reach new_container_repository r) (i : ℕ) (c : Channel)
    → get_elem? r.registered_chans i ≡ some c
    → (length c.buffer ≤ 1)
      × (c.received ++ c.buffer ≡ map event_of c.sent)
      × (replayed c.sent ++ remaining c.replay_state ≡ map started (listed_in reach i))
      × (delivered c.sent ≡ expected r.current r.finished i c.since)
unfolding new_container_repository
new_container_repository-flow reach i c at =
    let v = Reach-IsFlowing reach (record {
      ordered = λ j d e. absurd (none-ne-some _ e);
      given = λ j d e. absurd (none-ne-some _ e);
    }) in
    (
      (v.ordered i c at).room,
      (v.ordered i c at).order,
      (v.ordered i c at).replaying
          ∙ ap (map started) (ap listed_by (sym at) ∙ new_container_repository-listed reach i),
      (v.given i c at).0,
    )
