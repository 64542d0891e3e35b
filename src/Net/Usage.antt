-- ===== src/Net/Usage.antt =====
-- The network usage of a container: what the ticks make of it.
use acadock_monitoring.Prelude.Word.{Word, modulus, sub-of_le}
use acadock_monitoring.Prelude.Dict
use acadock_monitoring.Prelude.Dict.{dict_laws}
use acadock_monitoring.Prelude.{
  zero, suc, ◌+◌, ◌%◌, ◌-◌, ◌≤◌, ◌<◌, true, false, List, [], ◌∷◌, ◌++◌, All, Bytes, bytes_eq, ltb,
  ok, StringMap, ◌≡◌, refl, sym, subst, ap, ◌∙◌, arith, inl, inr, Bool-cases,
}
use acadock_monitoring.Float.{Float64}
use acadock_monitoring.Client.Types.{NetworkStat}
use acadock_monitoring.Net.{
  NetMonitor, store_stat, store_stats, tick, bytes_per_second, get_usage, zero_stat,
}

module _ (fl : Float64) (seconds : fl.F) where
  -- Two samples of one interface of a container.
  pub get_usage-two_samples :
      (id : Bytes) (m : NetMonitor) (s t : NetworkStat)
      → bytes_eq id [] ≡ false
      → get_usage fl seconds id (store_stat t id (store_stat s id m)) ≡ record {
        network_stat = t;
        rx_bps = bytes_per_second fl seconds s.received.bytes t.received.bytes;
        tx_bps = bytes_per_second fl seconds s.transmit.bytes t.transmit.bytes;
      }
  unfolding get_usage store_stat
  get_usage-two_samples id m s t h = simp (dict_laws, h)

-- The interface of the sample belongs to another container, or to none.
abbrev pub IsOther : StringMap Bytes → Bytes → NetworkStat → Type 0
IsOther ifaces id stat = bytes_eq (Dict.get_or [] stat.interface ifaces) id ≡ false

-- What the monitor keeps of a container.
abbrev Keeps : Bytes → NetMonitor → StringMap Bytes → NetworkStat → NetworkStat → Type 0
Keeps id m ifaces current previous =
    (m.container_ifaces ≡ ifaces)
    × (Dict.get_or zero_stat id m.net_usages ≡ current)
    × (Dict.get_or zero_stat id m.previous_net_usages ≡ previous)

module _ (ifaces : StringMap Bytes) (id : Bytes) where
  store_stat-other :
      (stat : NetworkStat) (other : Bytes) (m : NetMonitor) (c p : NetworkStat)
      → bytes_eq other id ≡ false
      → Keeps id m ifaces c p
      → Keeps id (store_stat stat other m) ifaces c p
  unfolding store_stat
  store_stat-other stat other m c p h (i, j, k) = elim (Bool-cases (bytes_eq other [])) [
    | inl nobody ↦ rw nobody (i, j, k)
    | inr somebody ↦ rw somebody (i, simp (dict_laws, h, j), simp (dict_laws, h, k))
  ]

  store_stat-own :
      (stat : NetworkStat) (m : NetMonitor) (c p : NetworkStat)
      → bytes_eq id [] ≡ false
      → Keeps id m ifaces c p
      → Keeps id (store_stat stat id m) ifaces stat c
  unfolding store_stat
  store_stat-own stat m c p h (i, j, k) = rw h (i, simp dict_laws, simp (dict_laws, j))

  store_stats-others :
      (stats : List NetworkStat) (m : NetMonitor) (c p : NetworkStat)
      → All (IsOther ifaces id) stats
      → Keeps id m ifaces c p
      → Keeps id (store_stats stats m) ifaces c p
  unfolding store_stats
  store_stats-others [] m c p hs k = k
  store_stats-others (stat ∷ stats) m c p (h, hs) (i, j, k) = store_stats-others stats _ c p hs (
      store_stat-other stat _ m c p
        (ap (λ (f : StringMap Bytes). bytes_eq (Dict.get_or [] stat.interface f) id) i ∙ h)
        (i, j, k))

  -- One tick in which one interface is the container's.
  store_stats-own :
      (before : List NetworkStat) (stat : NetworkStat) (after : List NetworkStat) (m : NetMonitor)
      (c p : NetworkStat)
      → bytes_eq id [] ≡ false
      → Dict.get_or [] stat.interface ifaces ≡ id
      → All (IsOther ifaces id) before
      → All (IsOther ifaces id) after
      → Keeps id m ifaces c p
      → Keeps id (store_stats (before ++ stat ∷ after) m) ifaces stat c
  unfolding store_stats
  store_stats-own [] stat after m c p h own hs ks (i, j, k) =
      subst (λ (o : Bytes). Keeps id (store_stats after (store_stat stat o m)) ifaces stat c)
        (sym (ap (λ (f : StringMap Bytes). Dict.get_or [] stat.interface f) i ∙ own))
        (store_stats-others after (store_stat stat id m) stat c ks
          (store_stat-own stat m c p h (i, j, k)))
  store_stats-own (b ∷ before) stat after m c p h own (x, hs) ks (i, j, k) =
      store_stats-own before stat after _ c p h own hs ks (
        store_stat-other b _ m c p
          (ap (λ (f : StringMap Bytes). bytes_eq (Dict.get_or [] b.interface f) id) i ∙ x)
          (i, j, k))

-- What a counter of bytes grew by, modulo 2 ^ 64, in a second; 0 where it was 0 before.
abbrev pub rate : (fl : Float64) → fl.F → Word → Word → Word
rate fl seconds zero current = 0
rate fl seconds (suc p) current =
    fl.to_int64 (fl.div (fl.of_uint64 ((current + modulus - suc p) % modulus)) seconds)

bytes_per_second-rate :
    (fl : Float64) (seconds : fl.F) (previous current : Word)
    → bytes_per_second fl seconds previous current ≡ rate fl seconds previous current
unfolding bytes_per_second
bytes_per_second-rate fl seconds zero current = refl
bytes_per_second-rate fl seconds (suc p) current =
    let later : ltb 0 (suc p) ≡ true = ground arith in rw later refl

-- Two ticks, in each of which one interface is the container's, among others of other containers or
-- of none: the usage is the second sample of this interface, with the rates of its two
-- counters of bytes: the growth modulo 2 ^ 64 between the two ticks by the seconds of the interval, and 0
-- for a counter that was 0 at the first. Neither the other interfaces nor their order count, nor what was known before.
pub get_usage-two_ticks :
    (fl : Float64) (seconds : fl.F) (id : Bytes) (m : NetMonitor)
    (before after before' after' : List NetworkStat) (s t : NetworkStat)
    → bytes_eq id [] ≡ false
    → Dict.get_or [] s.interface m.container_ifaces ≡ id
    → Dict.get_or [] t.interface m.container_ifaces ≡ id
    → All (IsOther m.container_ifaces id) before
    → All (IsOther m.container_ifaces id) after
    → All (IsOther m.container_ifaces id) before'
    → All (IsOther m.container_ifaces id) after'
    → get_usage fl seconds id
        (tick (ok (before' ++ t ∷ after')) (tick (ok (before ++ s ∷ after)) m))
      ≡ record {
        network_stat = t;
        rx_bps = rate fl seconds s.received.bytes t.received.bytes;
        tx_bps = rate fl seconds s.transmit.bytes t.transmit.bytes;
      }
unfolding get_usage tick
get_usage-two_ticks fl seconds id m before after before' after' s t h a b ha hb hc hd =
    let one =
      store_stats-own m.container_ifaces id before s after m _ _ h a ha hb (refl, refl, refl) in
    let (_, current, previous) =
      store_stats-own m.container_ifaces id before' t after' _ s _ h b hc hd one in
    rw (current, previous)
      (simp (
        bytes_per_second-rate fl seconds s.received.bytes t.received.bytes,
        bytes_per_second-rate fl seconds s.transmit.bytes t.transmit.bytes,
      ))

-- A counter that grew between two ticks and was not 0 at the first gives the growth in a second,
-- with no wrap-around.
pub bytes_per_second-grown :
    (fl : Float64) (seconds : fl.F) (previous current : Word)
    → 0 < previous
    → previous ≤ current
    → current < modulus
    → bytes_per_second fl seconds previous current
      ≡ fl.to_int64 (fl.div (fl.of_uint64 (current - previous)) seconds)
unfolding bytes_per_second
bytes_per_second-grown fl seconds previous current h k l =
    let later : ltb 0 previous ≡ true = ground arith in
    rw later (
      ap (λ (w : Word). fl.to_int64 (fl.div (fl.of_uint64 w) seconds))
        (sub-of_le current previous k l))
