-- ===== src/Cgroup/BlkIo/Gather.antt =====
-- The two loops of `cgroupV1IOUsage` compute the summary.
use mathlib.Core.Option
use acadock_monitoring.Prelude.Word.{modulus}
use acadock_monitoring.Prelude.Dict
use acadock_monitoring.Prelude.{
  ◌<◌, true, false, List, [], ◌∷◌, ◌++◌, Option, none, some, Bytes, bytes_eq, bytes_eq_iff,
  bytes_eq_refl, if◌then◌else◌, ◌≡◌, refl, sym, ap, fun_ext, ◌∙◌, arith, ◌⊎◌, inl, inr, Bool-cases,
}
use acadock_monitoring.Text.Fields.{to_lower}
use acadock_monitoring.Cgroup.Metrics.{BlkIoEntry, IoDeviceUsage, MountInfos}
use acadock_monitoring.Cgroup.BlkIo.{
  Gathered, Section, service_bytes, serviced, update, is_relevant, entry_key, new_device,
  update_cgroup_v1_device, gather, read_op, write_op,
}
use acadock_monitoring.Cgroup.BlkIo.Summary.{Tagged, tag, belongs, counted, total, first, grown}

abbrev pub IsBounded : IoDeviceUsage → Type 0
IsBounded d =
    (d.read_bytes < modulus)
    × (d.write_bytes < modulus)
    × (d.read_ios < modulus)
    × (d.write_ios < modulus)

op-cases :
    (op : Bytes)
    → ((bytes_eq op read_op ≡ true) × (bytes_eq op write_op ≡ false))
      ⊎ (((bytes_eq op read_op ≡ false) × (bytes_eq op write_op ≡ true))
          ⊎ ((bytes_eq op read_op ≡ false) × (bytes_eq op write_op ≡ false)))
op-cases op = elim (Bool-cases (bytes_eq op read_op)) [
  | inl r ↦ inl (r, rw ((bytes_eq_iff op read_op).0 r) (unfold bytes_eq in refl))
  | inr r ↦ elim (Bool-cases (bytes_eq op write_op)) [
    | inl w ↦ inr (inl (r, w))
    | inr w ↦ inr (inr (r, w))
  ]
]

-- What an entry does to its device.
pub touch : Tagged → IoDeviceUsage → IoDeviceUsage
unfolding update
touch (section, entry) device = update section device (to_lower entry.op) entry.value

touch-IsBounded : (t : Tagged) (d : IoDeviceUsage) → IsBounded d → IsBounded (touch t d)
unfolding touch
touch-IsBounded (service_bytes, e) d h = ground arith
touch-IsBounded (serviced, e) d h = ground arith

grown-touch :
    (key : Bytes) (t : Tagged) (ts : List Tagged) (d : IoDeviceUsage)
    → belongs key t ≡ true
    → grown key ts (touch t d) ≡ grown key (t ∷ ts) d
unfolding grown touch total counted
grown-touch key (service_bytes, e) ts d h = elim (op-cases (to_lower e.op)) [
  | inl (r, w) ↦ ground arith
  | inr (inl (r, w)) ↦ ground arith
  | inr (inr (r, w)) ↦ ground arith
]
grown-touch key (serviced, e) ts d h = elim (op-cases (to_lower e.op)) [
  | inl (r, w) ↦ ground arith
  | inr (inl (r, w)) ↦ ground arith
  | inr (inr (r, w)) ↦ ground arith
]

grown_skip :
    (key : Bytes) (t : Tagged) (ts : List Tagged) (d : IoDeviceUsage)
    → belongs key t ≡ false
    → grown key (t ∷ ts) d ≡ grown key ts d
unfolding grown total counted
grown_skip key t ts d h = ground arith

grown-nil : (key : Bytes) (d : IoDeviceUsage) → IsBounded d → grown key [] d ≡ d
unfolding grown total counted
grown-nil key d h = ground arith

module _ (infos : MountInfos) where
  unfoldable pub step : Tagged → Gathered → Gathered
  step (section, entry) s = update_cgroup_v1_device infos section entry s

  lookup_found :
      (t : Tagged) (s : Gathered) (key : Bytes) (found : Option IoDeviceUsage)
      → Dict.lookup (entry_key t.1) s.devices ≡ found
      → is_relevant t.1 ≡ true
      → Dict.lookup key (step t s).devices ≡ (
          if bytes_eq (entry_key t.1) key
          then some (touch t (Option.get_or found (new_device infos t.1)))
          else Dict.lookup key s.devices)
  unfolding step touch update_cgroup_v1_device
  lookup_found (section, e) s key none f r =
      rw (r, f) (Dict.lookup-insert (entry_key e) key _ s.devices)
  lookup_found (section, e) s key (some device) f r =
      rw (r, f) (Dict.lookup-insert (entry_key e) key _ s.devices)

  pub step_skip : (t : Tagged) (s : Gathered) → is_relevant t.1 ≡ false → step t s ≡ s
  unfolding step update_cgroup_v1_device
  step_skip (section, e) s r = rw r

  pub lookup-step :
      (t : Tagged) (s : Gathered) (key : Bytes)
      → Dict.lookup key (step t s).devices ≡ (
          if belongs key t
          then some (touch t (Option.get_or (Dict.lookup key s.devices) (new_device infos t.1)))
          else Dict.lookup key s.devices)
  unfolding belongs
  lookup-step t s key = elim (Bool-cases (is_relevant t.1)) [
    | inl r ↦ elim (Bool-cases (bytes_eq (entry_key t.1) key)) [
      | inl k ↦
          rw (r, k, ← (bytes_eq_iff (entry_key t.1) key).0 k)
            (lookup_found t s (entry_key t.1) _ refl r ∙ rw (bytes_eq_refl (entry_key t.1)))
      | inr k ↦ rw (r, k) (lookup_found t s key _ refl r ∙ rw k)
    ]
    | inr r ↦ rw r (ap (λ (g : Gathered). Dict.lookup key g.devices) (step_skip t s r))
  ]

  unfoldable pub run : List Tagged → Gathered → Gathered
  run [] s = s
  run (t ∷ ts) s = run ts (step t s)

  pub run-append : (ts us : List Tagged) (s : Gathered) → run (ts ++ us) s ≡ run us (run ts s)
  unfolding run
  run-append [] us s = refl
  run-append (t ∷ ts) us s = run-append ts us (step t s)

  pub gather-run :
      (section : Section) (entries : List BlkIoEntry) (s : Gathered)
      → gather infos section entries s ≡ run (tag section entries) s
  unfolding gather run step
  gather-run section [] s = refl
  gather-run section (e ∷ es) s = gather-run section es _

  -- A device after more entries, from what the map holds for it.
  unfoldable pub after : Bytes → List Tagged → Option IoDeviceUsage → Option IoDeviceUsage
  after key ts (some d) = some (grown key ts d)
  after key ts none = Option.map (λ e. grown key ts (new_device infos e)) (first key ts)

  abbrev pub Holds : Option IoDeviceUsage → Type 0
  Holds none = Unit
  Holds (some d) = IsBounded d

  pub new_device-IsBounded : (e : BlkIoEntry) → IsBounded (new_device infos e)
  unfolding new_device
  new_device-IsBounded e = omega arith

  after-nil : (key : Bytes) (o : Option IoDeviceUsage) → Holds o → after key [] o ≡ o
  unfolding after first
  after-nil key none h = refl
  after-nil key (some d) h = ap {B = Option IoDeviceUsage} some (grown-nil key d h)

  after-cons_in :
      (key : Bytes) (t : Tagged) (ts : List Tagged) (o : Option IoDeviceUsage)
      → belongs key t ≡ true
      → after key ts (some (touch t (Option.get_or o (new_device infos t.1))))
        ≡ after key (t ∷ ts) o
  unfolding after first
  after-cons_in key t ts none h =
      rw h (ap {B = Option IoDeviceUsage} some (grown-touch key t ts _ h))
  after-cons_in key t ts (some d) h = ap {B = Option IoDeviceUsage} some (grown-touch key t ts d h)

  after-cons_out :
      (key : Bytes) (t : Tagged) (ts : List Tagged) (o : Option IoDeviceUsage)
      → belongs key t ≡ false
      → after key ts o ≡ after key (t ∷ ts) o
  unfolding after first
  after-cons_out key t ts none h = rw (h, fun_ext (λ e. grown_skip key t ts (new_device infos e) h))
  after-cons_out key t ts (some d) h =
      ap {B = Option IoDeviceUsage} some (sym (grown_skip key t ts d h))

  touched-Holds :
      (t : Tagged) (o : Option IoDeviceUsage)
      → Holds o
      → IsBounded (touch t (Option.get_or o (new_device infos t.1)))
  touched-Holds t none h = touch-IsBounded t _ (new_device-IsBounded t.1)
  touched-Holds t (some d) h = touch-IsBounded t d h

  pub lookup-run :
      (key : Bytes) (ts : List Tagged) (s : Gathered)
      → Holds (Dict.lookup key s.devices)
      → Dict.lookup key (run ts s).devices ≡ after key ts (Dict.lookup key s.devices)
  unfolding run
  lookup-run key [] s h = sym (after-nil key _ h)
  lookup-run key (t ∷ ts) s h = elim (Bool-cases (belongs key t)) [
    | inl b ↦
        let here : Dict.lookup key (step t s).devices
            ≡ some (touch t (Option.get_or (Dict.lookup key s.devices) (new_device infos t.1))) =
          lookup-step t s key ∙ rw b in
        lookup-run key ts (step t s) (rw here (touched-Holds t _ h))
        ∙ rw here (after-cons_in key t ts _ b)
    | inr b ↦
        let here : Dict.lookup key (step t s).devices ≡ Dict.lookup key s.devices =
          lookup-step t s key ∙ rw b in
        lookup-run key ts (step t s) (rw here h) ∙ rw here (after-cons_out key t ts _ b)
  ]
