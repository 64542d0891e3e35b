-- ===== src/Cgroup/Manager.antt =====
-- cgroup/manager.go. containerd's library loads and reads the control groups: its calls are
-- parameters, over its types of handles.
use acadock_monitoring.Prelude.Word.{Word}
use acadock_monitoring.Prelude.{
  Bool, true, false, ◌||◌, List, Option, none, some, Bytes, codes, bytes_eq, ◌++◌, if◌then◌else◌,
  Outcome, ok, panic, wrap, ◌>>=◌, ◌≡◌, ◌⊎◌,
}
use acadock_monitoring.Cgroup.Metrics.{MetricsV1, MetricsV2}

-- How `cgroup1.Load` finds a control group.
pub data Location : Type 0 where
  slice : Bytes → Bytes → Location
  static_path : Bytes → Location

pub record CgroupLibrary (V1 V2 : Type 0) : Type 0 where
  pub load_v1 : Location → Outcome V1
  pub load_v2_systemd : Bytes → Bytes → Outcome V2
  pub stat_v1 : V1 → Outcome MetricsV1
  pub stat_v2 : V2 → Outcome MetricsV2
  pub tasks_v1 : V1 → Bytes → Bool → Outcome (List Word)
  pub procs_v2 : V2 → Bool → Outcome (List Word)

-- What the program reads of its configuration.
pub record Settings : Type 0 where
  pub is_using_cgroup_v2 : Bool
  pub cgroup_source : Bytes

pub record Manager (V1 V2 : Type 0) : Type 0 where
  pub cgroup_v1_manager : Option V1
  pub cgroup_v2_manager : Option V2
  pub v2 : Bool
  pub systemd : Bool

abbrev pub scope_name : Bytes → Bytes
scope_name container_id = codes "docker-" ++ (container_id ++ codes ".scope")

-- A method call on a nil handle panics.
abbrev pub handle {ℓ} : {H : Type 0} {A : Type ℓ} → Option H → (H → Outcome A) → Outcome A
handle none f = panic
handle (some h) f = f h

-- The handle of the version that the manager is for is there.
abbrev pub IsReady : {V1 V2 : Type 0} → Manager V1 V2 → Type 0
IsReady {V1} {V2} m =
    ((m.v2 ≡ true) × ((h : V2) × (m.cgroup_v2_manager ≡ some h)))
    ⊎ ((m.v2 ≡ false) × ((h : V1) × (m.cgroup_v1_manager ≡ some h)))

module _ {V1 V2 : Type 0} (lib : CgroupLibrary V1 V2) where
  unfoldable pub new_manager : Settings → Bytes → Outcome (Manager V1 V2)
  new_manager settings container_id =
      let v2 = settings.is_using_cgroup_v2 in
      let systemd = bytes_eq settings.cgroup_source (codes "systemd") || v2 in
      let with_v1 : V1 → Outcome (Manager V1 V2) = λ handle. ok (record {
        cgroup_v1_manager = some handle;
        cgroup_v2_manager = none;
        v2 = v2;
        systemd = systemd;
      }) in
      let with_v2 : V2 → Outcome (Manager V1 V2) = λ handle. ok (record {
        cgroup_v1_manager = none;
        cgroup_v2_manager = some handle;
        v2 = v2;
        systemd = systemd;
      }) in
      wrap (codes "load cgroup") (
        if v2
        then lib.load_v2_systemd (codes "/system.slice") (scope_name container_id) >>= with_v2
        else if systemd
        then lib.load_v1 (slice (codes "system.slice") (scope_name container_id)) >>= with_v1
        else lib.load_v1 (static_path (codes "docker/" ++ container_id)) >>= with_v1)

  unfoldable pub pids : Manager V1 V2 → Outcome (List Word)
  pids m =
      if m.v2
      then handle m.cgroup_v2_manager (λ h. lib.procs_v2 h false)
      else wrap (codes "get cgroup v1 tasks")
          (handle m.cgroup_v1_manager (λ h. lib.tasks_v1 h (codes "memory") false))
