-- ===== src/Cgroup/Stats/Safety.antt =====
-- `GetStats` reads no nil pointer.
use acadock_monitoring.Prelude.{
  some, Bytes, codes, bytes_eq, ◌++◌, if◌then◌else◌, Outcome, ok, err, panic, wrap, wrap-eq-ok,
  ◌>>=◌, ◌≡◌, ◌≢◌, inl, inr, refl, Bool-cases,
}
use acadock_monitoring.Cgroup.Metrics.{CpuStatV2, MemoryStatV2, MetricsV2, MountInfos}
use acadock_monitoring.Cgroup.Manager.{
  Location, CgroupLibrary, Settings, Manager, new_manager, handle, IsReady, slice, static_path,
  scope_name,
}
use acadock_monitoring.Cgroup.Stats.{
  as_stats_reader, get_stats, get_cgroup_v1_stats, get_cgroup_v2_stats,
}
use acadock_monitoring.Cgroup.Stats.Errors.{
  bind-panic, as_stats_reader-ok, as_stats_reader-panic, new_manager-IsReady,
}
use acadock_monitoring.Cgroup.Stats.Values.{cgroup_v1_stats-ne-panic}

-- What the program relies on: the library's calls return, and version 2 fills in its CPU and
-- memory sections.
pub record IsWellBehaved {V1 V2 : Type 0} (lib : CgroupLibrary V1 V2) : Type 0 where
  pub load_v1_returns : (l : Location) → lib.load_v1 l ≢ panic
  pub load_v2_returns : (parent name : Bytes) → lib.load_v2_systemd parent name ≢ panic
  pub stat_v1_returns : (h : V1) → lib.stat_v1 h ≢ panic
  pub stat_v2_returns : (h : V2) → lib.stat_v2 h ≢ panic
  pub stat_v2_fills :
      (h : V2) (m : MetricsV2)
      → lib.stat_v2 h ≡ ok m
      → ((c : CpuStatV2) × (m.cpu ≡ some c)) × ((s : MemoryStatV2) × (m.memory ≡ some s))

wrap-panic {ℓ} : {A : Type ℓ} (text : Bytes) (m : Outcome A) → wrap text m ≡ panic → m ≡ panic
wrap-panic text (ok a) h = cc
wrap-panic text (err x) h = cc
wrap-panic text panic h = refl

made {ℓ κ} :
    {A : Type ℓ} {B : Type κ} (text : Bytes) (m : Outcome A) (f : A → B)
    → m ≢ panic
    → wrap text (m >>= λ a. ok (f a)) ≢ panic
made text (ok a) f h = λ e. cc
made text (err x) f h = λ e. cc
made text panic f h = λ e. h refl

module _ {V1 V2 : Type 0} (lib : CgroupLibrary V1 V2) (w : IsWellBehaved lib)
    (infos : MountInfos) where
  new_manager-ne-panic : (settings : Settings) (id : Bytes) → new_manager lib settings id ≢ panic
  unfolding new_manager
  new_manager-ne-panic settings id = elim (Bool-cases settings.is_using_cgroup_v2) [
    | inl v2 ↦ rw v2 (made _ _ _ (w.load_v2_returns (codes "/system.slice") (scope_name id)))
    | inr v1 ↦ elim (Bool-cases (bytes_eq settings.cgroup_source (codes "systemd"))) [
      | inl sys ↦
          rw (v1, sys)
            (made _ _ _ (w.load_v1_returns (slice (codes "system.slice") (scope_name id))))
      | inr sys ↦
          rw (v1, sys) (made _ _ _ (w.load_v1_returns (static_path (codes "docker/" ++ id))))
    ]
  ]

  v2-ne-panic :
      (m : Manager V1 V2) (h : V2)
      → m.cgroup_v2_manager ≡ some h
      → get_cgroup_v2_stats lib infos m ≢ panic
  unfolding get_cgroup_v2_stats
  v2-ne-panic m h e p = elim (bind-panic (wrap _ (handle m.cgroup_v2_manager lib.stat_v2)) _ p) [
    | inl failed ↦ w.stat_v2_returns h (wrap-panic _ _ (rw e at failed))
    | inr (s, got, q) ↦
        let ((c, hc), (k, hk)) = w.stat_v2_fills h s (wrap-eq-ok _ _ (rw e at got)) in
        let q' = rw (hc, hk) at q in cc
  ]

  v1-ne-panic :
      (m : Manager V1 V2) (h : V1)
      → m.cgroup_v1_manager ≡ some h
      → get_cgroup_v1_stats lib infos m ≢ panic
  unfolding get_cgroup_v1_stats
  v1-ne-panic m h e p = elim (bind-panic (wrap _ (handle m.cgroup_v1_manager lib.stat_v1)) _ p) [
    | inl failed ↦ w.stat_v1_returns h (wrap-panic _ _ (rw e at failed))
    | inr (s, got, q) ↦ cgroup_v1_stats-ne-panic s infos q
  ]

  -- With a library that behaves, `GetStats` returns statistics or an error: it never panics.
  pub get_stats-ne-panic :
      (settings : Settings) (id : Bytes) → get_stats lib infos settings id ≢ panic
  unfolding get_stats
  get_stats-ne-panic settings id e =
      elim (bind-panic (as_stats_reader _ (new_manager lib settings id)) _ e) [
        | inl first ↦ new_manager-ne-panic settings id (as_stats_reader-panic _ _ first)
        | inr (m, found, second) ↦
            ready m (new_manager-IsReady lib settings id (as_stats_reader-ok _ _ found)).0
              (as_stats_reader-panic _ _ second)
      ]
    where
      ready :
          (m : Manager V1 V2)
          → IsReady m
          → (if m.v2 then get_cgroup_v2_stats lib infos m else get_cgroup_v1_stats lib infos m)
            ≢ panic
      ready m (inl (v2, (h, e))) = rw v2 (v2-ne-panic m h e)
      ready m (inr (v1, (h, e))) = rw v1 (v1-ne-panic m h e)
