-- ===== src/Docker/Repository/Blocked.antt =====
-- What a receiver that takes no more events stops.
use acadock_monitoring.Prelude.{
  ℕ, List, [], ◌∷◌, ◌++◌, some, none-ne-some, some-injective, length, get_elem?, get_elem?-lt,
  get_elem?-update_at_ne, update_at-preserves, length-update_at, ◌≡◌, ◌≢◌, refl, sym, ap, ◌∙◌,
  arith,
}
use acadock_monitoring.Docker.Events.{ContainerEvent}
use acadock_monitoring.Docker.Repository.{
  Channel, Sending, Repository, send_replay, begin_replay, receive, on_channel, Step, registers,
  announces, delivers, unlocks, lists, replays, receives,
}

-- The step takes an event out of the channel of a position.
abbrev pub Takes : ℕ → {r t : Repository} → Step r t → Type 0
Takes n (receives m c at) = m ≡ n
Takes n _ = ⊥

-- A run in which nothing is taken out of one channel.
pub data ReachWithout (n : ℕ) (r : Repository) : Repository → Type 0 where
  here : ReachWithout n r r
  next :
      {s t : Repository}
      → ReachWithout n r s
      → (st : Step s t) → (Takes n st → ⊥)
      → ReachWithout n r t

abbrev IsFull : Channel → Type 0
IsFull c = c.buffer ≢ []

module _ (e : ContainerEvent) (n k : ℕ) (finished : List ContainerEvent) where
  -- The event waits for the channel of the position, which has no room.
  record IsBlocked (r : Repository) : Type 0 where
    now : r.current ≡ some (record { event = e; position = n })
    count : length r.registered_chans ≡ k
    over : r.finished ≡ finished
    channel : Channel
    at : get_elem? r.registered_chans n ≡ some channel
    full : IsFull channel

  send-IsFull : (x : ContainerEvent) (b : List ContainerEvent) → b ++ x ∷ [] ≢ []
  send-IsFull x [] h = cc
  send-IsFull x (y ∷ b) h = cc

  on_channel-IsBlocked :
      (m : ℕ) (f : Channel → Channel) (r : Repository)
      → ((c : Channel) → IsFull c → IsFull (f c))
      → IsBlocked r
      → IsBlocked (on_channel m f r)
  on_channel-IsBlocked m f r keep v =
      let (c, at, full) = update_at-preserves IsFull m n f keep r.registered_chans v.at v.full in
      record {
        now = v.now;
        count = length-update_at m f r.registered_chans ∙ v.count;
        over = v.over;
        channel = c;
        at = at;
        full = full;
      }

  Step-IsBlocked : {r t : Repository} (st : Step r t) → (Takes n st → ⊥) → IsBlocked r → IsBlocked t
  Step-IsBlocked (registers free) h v = absurd (none-ne-some _ (sym free ∙ v.now))
  Step-IsBlocked (announces x free) h v = absurd (none-ne-some _ (sym free ∙ v.now))
  Step-IsBlocked {r} (delivers x m c now at free) h v =
      let same : m ≡ n = ap (λ (s : Sending). s.position) (some-injective _ _ (sym now ∙ v.now)) in
      absurd (
        v.full (
          ap (λ (d : Channel). d.buffer)
            (some-injective _ _ (sym v.at ∙ ap (get_elem? r.registered_chans) (sym same) ∙ at))
          ∙ free))
  Step-IsBlocked {r} (unlocks x now) h v =
      let same : length r.registered_chans ≡ n =
        ap (λ (s : Sending). s.position) (some-injective _ _ (sym now ∙ v.now)) in
      absurd (omega (arith, get_elem?-lt r.registered_chans n v.at))
  Step-IsBlocked {r} (lists m c containers at due) h v =
      on_channel-IsBlocked m (begin_replay containers) r (λ d full. full) v
  Step-IsBlocked {r} (replays m c x es at due free) h v =
      on_channel-IsBlocked m (send_replay x es) r (λ d full. send-IsFull x d.buffer) v
  Step-IsBlocked {r} (receives m c at) h v = record {
    now = v.now;
    count = length-update_at m receive r.registered_chans ∙ v.count;
    over = v.over;
    channel = v.channel;
    at = get_elem?-update_at_ne m n receive r.registered_chans h ∙ v.at;
    full = v.full;
  }

  ReachWithout-IsBlocked : {r t : Repository} → ReachWithout n r t → IsBlocked r → IsBlocked t
  ReachWithout-IsBlocked here v = v
  ReachWithout-IsBlocked (next s st h) v = Step-IsBlocked st h (ReachWithout-IsBlocked s v)

-- If the event that is being sent waits for a channel with no room, then as long as nothing is taken
-- out of this channel the event stays where it is, no other event is sent, and no channel is
-- registered.
pub ReachWithout-stuck :
    (e : ContainerEvent) (n : ℕ) (c : Channel) {r t : Repository}
    → r.current ≡ some (record { event = e; position = n })
    → get_elem? r.registered_chans n ≡ some c
    → c.buffer ≢ []
    → ReachWithout n r t
    → (t.current ≡ r.current)
      × (t.finished ≡ r.finished)
      × (length t.registered_chans ≡ length r.registered_chans)
ReachWithout-stuck e n c {r} now at full run =
    let v =
      ReachWithout-IsBlocked e n (length r.registered_chans) r.finished run
        (record { now = now; count = refl; over = refl; channel = c; at = at; full = full }) in
    (v.now ∙ sym now, v.over, v.count)
