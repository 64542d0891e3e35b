-- ===== src/Config.antt =====
-- config/env.go: the settings of the service, from environment variables with defaults. The mode of
-- the control groups is an input.
pub mod Merge
pub mod Settings
mod Examples
use acadock_monitoring.Prelude.Word.{Word}
use acadock_monitoring.Prelude.Dict
use acadock_monitoring.Prelude.{
  ℕ, Bool, true, false, ◌||◌, List, [], ◌∷◌, ◌++◌, Bytes, codes, bytes_eq, if◌then◌else◌, Outcome,
  ok, err, panic, ◌>>=◌, StringMap,
}
use acadock_monitoring.Text.Decimal.Integer.{atoi}
use acadock_monitoring.Text.Duration.{parse_duration}

-- The initial value of `ENV`.
abbrev pub defaults : StringMap Bytes
defaults =
    (codes "DOCKER_URL", codes "http://127.0.0.1:4243")
    ∷ (codes "PORT", codes "4244")
    ∷ (codes "REFRESH_TIME", codes "20s")
    ∷ (codes "CGROUP_SOURCE", codes "docker")
    ∷ (codes "CGROUP_DIR", codes "/sys/fs/cgroup")
    ∷ (codes "PROC_DIR", codes "/proc")
    ∷ (codes "PROC_MOUNTINFO_PID", codes "")
    ∷ (codes "RUNNER_DIR", codes "/usr/bin")
    ∷ (codes "DEBUG", codes "false")
    ∷ (codes "NET_MONITORING", codes "true")
    ∷ (codes "QUEUE_LENGTH_SAMPLING_INTERVAL", codes "5s")
    ∷ (codes "QUEUE_LENGTH_POINTS_PER_SAMPLE", codes "5")
    ∷ (codes "QUEUE_LENGTH_ELEMENTS_NEEDED", codes "6")
    ∷ (codes "HTTP_USERNAME", codes "")
    ∷ (codes "HTTP_PASSWORD", codes "")
    ∷ []

-- `ENV`, and the environment of the process.
pub record Variables : Type 0 where
  pub env : StringMap Bytes
  pub os_env : StringMap Bytes

-- `os.Getenv`, and a key of `ENV`: empty where there is none.
abbrev pub value_of : Bytes → StringMap Bytes → Bytes
value_of k m = Dict.get_or [] k m

-- A round of the loop over `ENV`. `Setenv` fails for no key or value of `ENV`.
unfoldable pub merge_one : Bytes → Bytes → Variables → Variables
merge_one k v s =
    if bytes_eq (value_of k s.os_env) []
    then record s { os_env = Dict.insert k v s.os_env }
    else record s { env = Dict.insert k (value_of k s.os_env) s.env }

-- The loop, with the order in which the map is visited.
pub merge : StringMap Bytes → Variables → Variables
merge [] s = s
merge ((k, v) ∷ order) s = merge order (merge_one k v s)

pub record Config : Type 0 where
  pub variables : Variables
  pub refresh_time : Word
  pub debug : Bool
  pub queue_length_sampling_interval : Word
  pub queue_length_points_per_sample : Word
  pub queue_length_elements_needed : Word
  pub is_using_cgroup_v2 : Bool

-- `if err != nil { panic(err) }`
pub must : {A : Type 0} → Outcome A → Outcome A
must (ok a) = ok a
must (err e) = panic
must panic = panic

abbrev pub is_true : Bytes → Bool
is_true v = bytes_eq v (codes "1") || bytes_eq v (codes "true")

-- `init`, behind the loop.
unfoldable pub read_config : (ℕ → ℕ → ℕ → Word) → Bool → Variables → Outcome Config
unfolding must
read_config fraction unified s = do
  refresh ← must (parse_duration fraction (value_of (codes "REFRESH_TIME") s.env))
  elements ← must (atoi (value_of (codes "QUEUE_LENGTH_ELEMENTS_NEEDED") s.env))
  points ← must (atoi (value_of (codes "QUEUE_LENGTH_POINTS_PER_SAMPLE") s.env))
  interval ←
      must (parse_duration fraction (value_of (codes "QUEUE_LENGTH_SAMPLING_INTERVAL") s.env))
  ok (record {
    variables = s;
    refresh_time = refresh;
    debug = is_true (value_of (codes "DEBUG") s.env);
    queue_length_sampling_interval = interval;
    queue_length_points_per_sample = points;
    queue_length_elements_needed = elements;
    is_using_cgroup_v2 = unified;
  })

unfoldable pub init : (ℕ → ℕ → ℕ → Word) → Bool → StringMap Bytes → StringMap Bytes → Outcome Config
unfolding merge
init fraction unified order os_env =
    read_config fraction unified (merge order (record { env = defaults; os_env = os_env }))

-- `CgroupPath`
unfoldable pub cgroup_path : StringMap Bytes → Bytes → Bytes → Outcome Bytes
cgroup_path env cgroup id =
    let source = value_of (codes "CGROUP_SOURCE") env in
    let dir = value_of (codes "CGROUP_DIR") env in
    if bytes_eq source (codes "docker")
    then ok (dir ++ codes "/" ++ cgroup ++ codes "/docker/" ++ id)
    else if bytes_eq source (codes "systemd")
    then ok (dir ++ codes "/" ++ cgroup ++ codes "/system.slice/docker-" ++ id ++ codes ".scope")
    else panic
