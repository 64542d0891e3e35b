-- ===== src/Main.antt =====
-- cmd/acadock-monitoring/main.go: the start of the service. The goroutines that it starts stand with
-- the parts they belong to. The router, its middlewares and the
-- server are a library's; of `main` there are the parts it builds from the settings, the errors it
-- ends with, the check of the credentials, and the table of its routes.
pub mod Access
pub mod Startup
pub mod Running
pub mod Serving
pub mod Routing
pub mod Calls
pub mod EndToEnd
mod Examples
use acadock_monitoring.Prelude.Word
use acadock_monitoring.Prelude.Word.{Word}
use acadock_monitoring.Prelude.{
  ℕ, Bool, true, false, not, ◌&&◌, List, [], ◌∷◌, ◌++◌, Option, none, some, Bytes, codes, bytes_eq,
  if◌then◌else◌, Outcome, ok, err, panic, ◌>>=◌, StringMap,
}
use acadock_monitoring.Text.Decimal.Integer.{atoi}
use acadock_monitoring.Config.{Config, value_of, init}
use acadock_monitoring.Filters.{
  ExponentialSmoothing, with_queue_length, with_average_config, new_exponential_smoothing,
}
use acadock_monitoring.Docker.Repository.{Repository, new_container_repository}
use acadock_monitoring.Cgroup.Manager.{Settings}
use acadock_monitoring.Cpu.{CpuUsageMonitor, new_cpu_usage_monitor}
use acadock_monitoring.Net.{NetMonitor, new_net_monitor}
use acadock_monitoring.Procfs.Readers.{
  Os, CpuStatReader, MemInfoReader, LoadAvgMetricsWrapper, new_cpu_stat_reader, new_mem_info_reader,
  new_load_avg_reader, filter_wrap,
}
use acadock_monitoring.Procfs.MountInfo.{MountInfoReader, open_mount_info_reader}

-- The handlers.
pub data Handler : Type 0 where
  container_mem container_io container_cpu container_net container_usage : Handler
  containers_usage host_resources not_found : Handler

-- The patterns, in the order in which they are registered; each is for GET but the last, which is for
-- all methods.
unfoldable pub routes : List (Bytes × Handler)
routes =
    (codes "/containers/{id}/mem", container_mem)
    ∷ (codes "/containers/{id}/io", container_io)
    ∷ (codes "/containers/{id}/cpu", container_cpu)
    ∷ (codes "/containers/{id}/net", container_net)
    ∷ (codes "/containers/{id}/usage", container_usage)
    ∷ (codes "/containers/usage", containers_usage)
    ∷ (codes "/host/usage", host_resources)
    ∷ (codes "/{any:.*}", not_found)
    ∷ []

-- Whether the middleware for the authentication is used.
unfoldable pub requires_auth : StringMap Bytes → Bool
requires_auth env =
    not (bytes_eq (value_of (codes "HTTP_USERNAME") env) [])
    && not (bytes_eq (value_of (codes "HTTP_PASSWORD") env) [])

-- The function that `AuthMiddleware` is given.
unfoldable pub check_credentials : StringMap Bytes → Bytes → Bytes → Bool
check_credentials env user password =
    bytes_eq user (value_of (codes "HTTP_USERNAME") env)
    && bytes_eq password (value_of (codes "HTTP_PASSWORD") env)

-- Whether a request comes to its handler: `auth_middleware` tells it of the text of the authorization,
-- for a function that checks credentials.
unfoldable pub admits :
    ((Bytes → Bytes → Bool) → Option Bytes → Bool) → StringMap Bytes → Option Bytes → Bool
admits auth_middleware env authorization =
    if requires_auth env then auth_middleware (check_credentials env) authorization else true

-- The process whose mounts are read; 0 is the service itself.
unfoldable pub mount_info_pid : StringMap Bytes → Outcome Word
mount_info_pid env =
    if bytes_eq (value_of (codes "PROC_MOUNTINFO_PID") env) []
    then ok 0
    else atoi (value_of (codes "PROC_MOUNTINFO_PID") env)

-- What `main` has built when it begins to listen.
pub record Started (F : Type 0) (P : Type 0) : Type 0 where
  pub host_cpu : CpuStatReader
  pub host_memory : MemInfoReader
  pub host_load_avg : LoadAvgMetricsWrapper
  pub queue_length : ExponentialSmoothing F
  pub proc_fs : P
  pub pid : Word
  pub repository : Repository
  pub mount_infos : MountInfoReader
  pub cgroup_settings : Settings
  pub cpu_monitor : CpuUsageMonitor
  pub net_monitor : NetMonitor
  pub address : Bytes

-- The reader of the mounts.
pub open_mounts :
    {P : Type 0}
    → (Bytes → Outcome P)
    → Word
    → StringMap Bytes
    → Outcome (P × Word × MountInfoReader)
open_mounts new_fs getpid env = do
  pid ← mount_info_pid env
  open_mount_info_reader new_fs getpid (value_of (codes "PROC_DIR") env) pid

-- The parts, before the controller is made of them.
pub started :
    {F P : Type 0}
    → Os
    → Word
    → Config
    → ExponentialSmoothing F
    → P × Word × MountInfoReader
    → Started F P
started os num_cpu config queue (proc_fs, pid, mount_infos) = record {
  host_cpu = new_cpu_stat_reader os;
  host_memory = new_mem_info_reader os;
  host_load_avg = filter_wrap (new_load_avg_reader os);
  queue_length = queue;
  proc_fs = proc_fs;
  pid = pid;
  repository = new_container_repository;
  mount_infos = mount_infos;
  cgroup_settings = record {
    is_using_cgroup_v2 = config.is_using_cgroup_v2;
    cgroup_source = value_of (codes "CGROUP_SOURCE") config.variables.env;
  };
  cpu_monitor = new_cpu_usage_monitor num_cpu;
  net_monitor = new_net_monitor;
  address = b':' ∷ value_of (codes "PORT") config.variables.env;
}

-- `main` up to the server, with what the libraries return; an error ends the process.
unfoldable pub start :
    {F P : Type 0}
    → (Word → Bytes)
    → ℕ
    → Os
    → (Bytes → Outcome P)
    → Word
    → Word
    → Config
    → Outcome (Started F P)
unfolding open_mounts started
start duration_string now os new_fs getpid num_cpu config = do
  queue ← new_exponential_smoothing duration_string now (
      with_queue_length config.queue_length_elements_needed
      ∷ with_average_config config.queue_length_points_per_sample
          config.queue_length_sampling_interval
      ∷ [])
  mounts ← open_mounts new_fs getpid config.variables.env
  ok (started os num_cpu config queue mounts)

-- The whole start: Go runs the `init` of the package config before `main`.
unfoldable pub boot :
    {F P : Type 0}
    → (ℕ → ℕ → ℕ → Word)
    → Bool
    → StringMap Bytes
    → StringMap Bytes
    → (Word → Bytes)
    → ℕ
    → Os
    → (Bytes → Outcome P)
    → Word
    → Word
    → Outcome (Started F P)
unfolding start
boot fraction unified order os_env duration_string now os new_fs getpid num_cpu =
    init fraction unified order os_env >>= start duration_string now os new_fs getpid num_cpu
