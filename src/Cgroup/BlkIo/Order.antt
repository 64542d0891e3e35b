-- ===== src/Cgroup/BlkIo/Order.antt =====
-- The result of `cgroupV1IOUsage`: each device once, in the order of the first entries, with its sums.
use acadock_monitoring.Prelude.Dict
use acadock_monitoring.Prelude.{
  Bool, true, false, not, ◌&&◌, ◌||◌, List, [], ◌∷◌, ◌++◌, map, append_assoc, append-nil, Option,
  none, some, Bytes, bytes_eq, bytes_eq_iff, bytes_eq_refl, if◌then◌else◌, ok, All, StringMap, ◌≡◌,
  refl, sym, ap, ◌∙◌, arith,
}
use acadock_monitoring.Cgroup.Metrics.{BlkIoStat, IoDeviceUsage, MountInfos}
use acadock_monitoring.Cgroup.BlkIo.{
  Gathered, service_bytes, serviced, is_relevant, entry_key, update_cgroup_v1_device, collect,
  cgroup_v1_io_usage,
}
use acadock_monitoring.Cgroup.BlkIo.Summary.{
  Tagged, tag, entries_of, belongs, is_in, keys, device_of,
}
use acadock_monitoring.Cgroup.BlkIo.Gather.{
  step, run, after, lookup-step, run-append, gather-run, lookup-run,
}

abbrev is_some {ℓ} : {A : Type ℓ} → Option A → Bool
is_some none = false
is_some (some a) = true

-- The map and the slice know the same keys.
abbrev Agrees : Gathered → Type 0
Agrees s = (key : Bytes) → is_some (Dict.lookup key s.devices) ≡ is_in key s.order

is_in-append :
    (key k : Bytes) (ks : List Bytes) → is_in key (ks ++ k ∷ []) ≡ (is_in key ks || bytes_eq k key)
is_in-append key k [] = ground arith
is_in-append key k (j ∷ ks) = ground (arith, is_in-append key k ks)

All-of_is_in :
    (P : Bytes → Type 0) (ks : List Bytes)
    → ((key : Bytes) → is_in key ks ≡ true → P key)
    → All P ks
All-of_is_in P [] h = tt
All-of_is_in P (k ∷ ks) h =
    (h k (rw (bytes_eq_refl k)), All-of_is_in P ks (λ key m. h key (ground arith)))

collect-map :
    (infos : MountInfos) (devices : StringMap IoDeviceUsage) (f : Bytes → IoDeviceUsage)
    (ks : List Bytes)
    → All (λ key. Dict.lookup key devices ≡ some (f key)) ks
    → collect infos devices ks ≡ ok (map f ks)
unfolding collect
collect-map infos devices f [] h = refl
collect-map infos devices f (k ∷ ks) (h, hs) = rw (collect, h, collect-map infos devices f ks hs)

module _ (infos : MountInfos) where
  order-step :
      (t : Tagged) (s : Gathered)
      → (step infos t s).order ≡ (
          if is_relevant t.1 && not (is_some (Dict.lookup (entry_key t.1) s.devices))
          then s.order ++ entry_key t.1 ∷ []
          else s.order)
  unfolding step update_cgroup_v1_device
  order-step (section, e) s = ground arith

  is_some-step :
      (t : Tagged) (s : Gathered) (key : Bytes)
      → is_some (Dict.lookup key (step infos t s).devices)
        ≡ (belongs key t || is_some (Dict.lookup key s.devices))
  is_some-step t s key = ap is_some (lookup-step infos t s key) ∙ ground arith

  step-Agrees : (t : Tagged) (s : Gathered) → Agrees s → Agrees (step infos t s)
  unfolding belongs
  step-Agrees t s h key =
      is_some-step t s key
      ∙ rw (order-step t s) (
          ground (
            arith,
            h key,
            h (entry_key t.1),
            is_in-append key (entry_key t.1) s.order,
            bytes_eq_iff (entry_key t.1) key,
          ))

  order-run :
      (ts : List Tagged) (s : Gathered)
      → Agrees s
      → (run infos ts s).order ≡ s.order ++ keys s.order ts
  unfolding run keys
  order-run [] s h = sym (append-nil s.order)
  order-run (t ∷ ts) s h =
      order-run ts (step infos t s) (step-Agrees t s h)
      ∙ rw (order-step t s) (
          ground (
            arith,
            h (entry_key t.1),
            append_assoc s.order (entry_key t.1 ∷ []) (keys (s.order ++ entry_key t.1 ∷ []) ts),
          ))

  run-Agrees : (ts : List Tagged) (s : Gathered) → Agrees s → Agrees (run infos ts s)
  unfolding run
  run-Agrees [] s h = h
  run-Agrees (t ∷ ts) s h = run-Agrees ts (step infos t s) (step-Agrees t s h)

  abbrev nothing : Gathered
  nothing = record { devices = []; order = [] }

  nothing-Agrees : Agrees nothing
  unfolding Dict.lookup
  nothing-Agrees key = refl

  after-device_of :
      (ts : List Tagged) (key : Bytes)
      → is_some (after infos key ts none) ≡ true
      → after infos key ts none ≡ some (device_of infos ts key)
  unfolding after device_of
  after-device_of ts key h = ground arith

  -- From the empty map, a device that is there is its summary.
  device_of-found :
      (ts : List Tagged) (key : Bytes)
      → is_some (Dict.lookup key (run infos ts nothing).devices) ≡ true
      → Dict.lookup key (run infos ts nothing).devices ≡ some (device_of infos ts key)
  unfolding Dict.lookup
  device_of-found ts key h =
      let e = lookup-run infos key ts nothing tt in e ∙ after-device_of ts key (rw e at h)

  collect-run :
      (ts : List Tagged)
      → collect infos (run infos ts nothing).devices (run infos ts nothing).order
        ≡ ok (map (device_of infos ts) (keys [] ts))
  collect-run ts =
      let known : (run infos ts nothing).order ≡ keys [] ts = order-run ts nothing nothing-Agrees in
      collect-map infos _ (device_of infos ts) _ (
        All-of_is_in _ _
          (λ key m. device_of-found ts key (run-Agrees ts nothing nothing-Agrees key ∙ m)))
      ∙ rw known

  -- The two loops report each block device once, in the order in which the entries name it first,
  -- with the numbers of its first entry and the sums, modulo 2 ^ 64, of its read and write values
  -- in the two sections; no key of the order misses its device.
  pub cgroup_v1_io_usage-summary :
      (stat : BlkIoStat)
      → cgroup_v1_io_usage infos (some stat)
        ≡ ok (record {
          devices = map (device_of infos (entries_of stat)) (keys [] (entries_of stat));
        })
  unfolding cgroup_v1_io_usage
  cgroup_v1_io_usage-summary stat =
      let ts = tag service_bytes stat.io_service_bytes_recursive in
      let us = tag serviced stat.io_serviced_recursive in
      rw (
        gather-run infos service_bytes stat.io_service_bytes_recursive nothing,
        gather-run infos serviced stat.io_serviced_recursive (run infos ts nothing),
        ← run-append infos ts us nothing,
        collect-run (ts ++ us),
      )
