-- ===== src/Cgroup/Stats/Errors.antt =====
-- How `GetStats` fails: with a `StatsReaderError` only, and never with a nil pointer.
use acadock_monitoring.Prelude.{
  Bool, true, false, none, some, Bytes, codes, bytes_eq, ◌++◌, Error, wrapped, stats_reader,
  Outcome, ok, err, panic, wrap, ◌>>=◌, ◌≡◌, ◌⊎◌, inl, inr, refl, Bool-cases, arith,
}
use acadock_monitoring.Cgroup.Metrics.{MountInfos}
use acadock_monitoring.Cgroup.Manager.{
  CgroupLibrary, Settings, Manager, new_manager, IsReady, slice, static_path, scope_name,
}
use acadock_monitoring.Cgroup.Stats.{as_stats_reader, get_stats}

module _ {V1 V2 : Type 0} (lib : CgroupLibrary V1 V2) (settings : Settings) (id : Bytes) where
  of_v1 :
      (load : Outcome V1) (systemd : Bool) {m : Manager V1 V2}
      → wrap (codes "load cgroup") (
          load >>= λ h. ok (record {
            cgroup_v1_manager = some h;
            cgroup_v2_manager = none;
            v2 = false;
            systemd = systemd;
          }))
        ≡ ok m
      → IsReady m × (m.v2 ≡ false)
  of_v1 (ok v) systemd h = (inr (ground arith, (v, ground arith)), ground arith)
  of_v1 (err e) systemd h = cc
  of_v1 panic systemd h = cc

  of_v2 :
      (load : Outcome V2) (systemd : Bool) {m : Manager V1 V2}
      → wrap (codes "load cgroup") (
          load >>= λ h. ok (record {
            cgroup_v1_manager = none;
            cgroup_v2_manager = some h;
            v2 = true;
            systemd = systemd;
          }))
        ≡ ok m
      → IsReady m × (m.v2 ≡ true)
  of_v2 (ok v) systemd h = (inl (ground arith, (v, ground arith)), ground arith)
  of_v2 (err e) systemd h = cc
  of_v2 panic systemd h = cc

  -- A manager that was made holds the handle of the version that the settings name.
  pub new_manager-IsReady :
      {m : Manager V1 V2}
      → new_manager lib settings id ≡ ok m
      → IsReady m × (m.v2 ≡ settings.is_using_cgroup_v2)
  unfolding new_manager
  new_manager-IsReady {m} h = elim (Bool-cases settings.is_using_cgroup_v2) [
    | inl v2 ↦
        rw v2 (of_v2 (lib.load_v2_systemd (codes "/system.slice") (scope_name id)) _ (rw v2 at h))
    | inr v1 ↦ elim (Bool-cases (bytes_eq settings.cgroup_source (codes "systemd"))) [
      | inl sys ↦
          rw v1 (
            of_v1 (lib.load_v1 (slice (codes "system.slice") (scope_name id))) _
              (rw (v1, sys) at h))
      | inr sys ↦
          rw v1 (of_v1 (lib.load_v1 (static_path (codes "docker/" ++ id))) _ (rw (v1, sys) at h))
    ]
  ]

as_stats_reader-err {ℓ} :
    {A : Type ℓ} (text : Bytes) (m : Outcome A) {e : Error}
    → as_stats_reader text m ≡ err e
    → (cause : Error) × (e ≡ stats_reader cause)
as_stats_reader-err text (ok a) h = cc
as_stats_reader-err text (err x) {e} h = (wrapped text x, ground arith)
as_stats_reader-err text panic h = cc

pub bind-err {ℓ κ} :
    {A : Type ℓ} {B : Type κ} (m : Outcome A) (f : A → Outcome B) {e : Error}
    → (m >>= f) ≡ err e
    → (m ≡ err e) ⊎ ((a : A) × (m ≡ ok a) × (f a ≡ err e))
bind-err (ok a) f h = inr (a, refl, h)
bind-err (err x) f h = inl (ground arith)
bind-err panic f h = cc

pub bind-panic {ℓ κ} :
    {A : Type ℓ} {B : Type κ} (m : Outcome A) (f : A → Outcome B)
    → (m >>= f) ≡ panic
    → (m ≡ panic) ⊎ ((a : A) × (m ≡ ok a) × (f a ≡ panic))
bind-panic (ok a) f h = inr (a, refl, h)
bind-panic (err x) f h = cc
bind-panic panic f h = inl refl

pub as_stats_reader-ok {ℓ} :
    {A : Type ℓ} (text : Bytes) (m : Outcome A) {a : A} → as_stats_reader text m ≡ ok a → m ≡ ok a
as_stats_reader-ok text (ok a) h = h
as_stats_reader-ok text (err x) h = cc
as_stats_reader-ok text panic h = cc

pub as_stats_reader-panic {ℓ} :
    {A : Type ℓ} (text : Bytes) (m : Outcome A) → as_stats_reader text m ≡ panic → m ≡ panic
as_stats_reader-panic text (ok a) h = cc
as_stats_reader-panic text (err x) h = cc
as_stats_reader-panic text panic h = refl

module _ {V1 V2 : Type 0} (lib : CgroupLibrary V1 V2) (infos : MountInfos) where
  -- Each error of `GetStats` is a `StatsReaderError`: the monitor stops at any of them.
  pub get_stats-err :
      (settings : Settings) (id : Bytes) (e : Error)
      → get_stats lib infos settings id ≡ err e
      → (cause : Error) × (e ≡ stats_reader cause)
  unfolding get_stats
  get_stats-err settings id e h =
      elim (bind-err (as_stats_reader _ (new_manager lib settings id)) _ h) [
        | inl first ↦ as_stats_reader-err _ (new_manager lib settings id) first
        | inr (m, _, second) ↦ as_stats_reader-err _ _ second
      ]
