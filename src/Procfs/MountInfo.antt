-- ===== src/Procfs/MountInfo.antt =====
-- procfs/mountinfo.go: the mount points and the device files, by the numbers of a device. What the
-- library reads of the mounts, `os.ReadDir` (the names of a directory) and `EvalSymlinks` are inputs.
pub mod Refresh
pub mod Start
mod Examples
use acadock_monitoring.Prelude.Word.{Word}
use acadock_monitoring.Prelude.Dict
use acadock_monitoring.Prelude.{
  ℕ, Bool, true, false, ◌||◌, List, [], ◌∷◌, ◌++◌, Bytes, bytes_eq, codes, ◌==◌, if◌then◌else◌,
  Error, wrapped, Outcome, ok, err, panic, wrap, ◌>>=◌, StringMap,
}
use acadock_monitoring.Text.Decimal.{format_uint}

-- What the program uses of the library's `MountInfo`.
pub record MountEntry : Type 0 where
  pub major_minor_ver : Bytes
  pub mount_point : Bytes

pub record Environment : Type 0 where
  pub get_mount_infos : Outcome (List MountEntry)
  pub read_dir : Bytes → Outcome (List Bytes)
  pub eval_symlinks : Bytes → Outcome Bytes

pub record MountInfoReader : Type 0 where
  pub sys_dev_block : Bytes
  pub dev : Bytes
  pub dev_mapper : Bytes
  pub mount_infos : StringMap Bytes
  pub devices : StringMap Bytes

unfoldable pub new_mount_info_reader : MountInfoReader
new_mount_info_reader = record {
  sys_dev_block = codes "/sys/dev/block";
  dev = codes "/dev";
  dev_mapper = codes "/dev/mapper";
  mount_infos = [];
  devices = [];
}

-- `NewMountInfoReader`, with what the library's `NewFS` and `os.Getpid` return: the file system and
-- the process whose mounts `getMountInfos` reads, and the reader.
unfoldable pub open_mount_info_reader :
    {P : Type 0} → (Bytes → Outcome P) → Word → Bytes → Word → Outcome (P × Word × MountInfoReader)
unfolding new_mount_info_reader
open_mount_info_reader new_fs getpid proc_dir pid = do
  proc_fs ← wrap (codes "create procfs filesystem") (new_fs proc_dir)
  ok (proc_fs, if pid == 0 then getpid else pid, new_mount_info_reader)

-- `filepath.Join` of a clean path and a name that is not "..", as the name of a directory's entry
-- or the base of a path without links.
abbrev pub join : Bytes → Bytes → Bytes
join path name =
    if bytes_eq name [] || bytes_eq name (codes ".") || bytes_eq name (codes "/")
    then path
    else path ++ b'/' ∷ name

-- `filepath.Base` of a clean path: what stands behind the last slash; "." and "/" are their own.
after_slash : Bytes → Bytes → Bytes
after_slash word [] = word
after_slash word (c ∷ s) = elim (c == b'/') [
  | true ↦ after_slash [] s
  | false ↦ after_slash (word ++ c ∷ []) s
]

unfoldable pub base : Bytes → Bytes
unfolding after_slash
base path =
    if bytes_eq path []
    then codes "."
    else if bytes_eq path (codes "/")
    then codes "/"
    else after_slash [] path

-- `strconv.FormatUint(major, 10) + ":" + strconv.FormatUint(minor, 10)`
unfoldable pub device_key : Word → Word → Bytes
device_key major minor = format_uint major ++ b':' ∷ format_uint minor

pub add_mount_infos : List MountEntry → StringMap Bytes → StringMap Bytes
add_mount_infos [] infos = infos
add_mount_infos (i ∷ is) infos =
    add_mount_infos is (Dict.insert i.major_minor_ver i.mount_point infos)

module _ (env : Environment) (r : MountInfoReader) where
  pub add_mapper_paths : List Bytes → StringMap Bytes → Outcome (StringMap Bytes)
  add_mapper_paths [] paths = ok paths
  add_mapper_paths (name ∷ names) paths = do
    let path = join r.dev_mapper name
    target ← wrap (codes "resolve device mapper symlink " ++ path) (env.eval_symlinks path)
    add_mapper_paths names (Dict.insert target path paths)

  pub mapper_paths : Outcome (StringMap Bytes)
  mapper_paths = do
    entries ← wrap (codes "read device mapper directory") (env.read_dir r.dev_mapper)
    add_mapper_paths entries []

  -- The path of the mapper stands for the device where it has one.
  pub preferred : Bytes → Bytes → Bytes
  preferred device_path mapper_path = if bytes_eq mapper_path [] then device_path else mapper_path

  pub device_path_of : StringMap Bytes → Bytes → Outcome Bytes
  unfolding preferred
  device_path_of mapper key = do
    target ←
        wrap (codes "resolve sysfs device symlink") (env.eval_symlinks (join r.sys_dev_block key))
    ok (preferred (join r.dev (base target)) (Dict.get_or [] (join r.dev (base target)) mapper))

  pub add_devices : StringMap Bytes → List Bytes → StringMap Bytes → Outcome (StringMap Bytes)
  add_devices mapper [] devices = ok devices
  add_devices mapper (name ∷ names) devices = do
    path ← wrap (codes "get device path for " ++ name) (device_path_of mapper name)
    add_devices mapper names (Dict.insert name path devices)

  pub device_paths : StringMap Bytes → Outcome (StringMap Bytes)
  device_paths mapper = do
    entries ← wrap (codes "read sysfs device block directory") (env.read_dir r.sys_dev_block)
    add_devices mapper entries []

  -- The two new maps, or the error.
  pub read_infos : Outcome (StringMap Bytes × StringMap Bytes)
  read_infos = do
    mount_infos ← wrap (codes "get mount infos") env.get_mount_infos
    mapper ← wrap (codes "get device mapper paths") mapper_paths
    devices ← wrap (codes "get device paths") (device_paths mapper)
    ok (add_mount_infos mount_infos [], devices)

-- The critical section of `Refresh`.
unfoldable pub store_infos :
    MountInfoReader
    → Outcome (StringMap Bytes × StringMap Bytes)
    → MountInfoReader × Outcome (Unit {0})
store_infos r (ok (infos, devices)) = (record r { mount_infos = infos; devices = devices }, ok tt)
store_infos r (err e) = (r, err e)
store_infos r panic = (r, panic)

unfoldable pub refresh : Environment → MountInfoReader → MountInfoReader × Outcome (Unit {0})
unfolding store_infos
refresh env r = store_infos r (read_infos env r)

unfoldable pub mountpoint : MountInfoReader → Word → Word → Bytes
mountpoint r major minor = Dict.get_or [] (device_key major minor) r.mount_infos

unfoldable pub device_path : MountInfoReader → Word → Word → Bytes
device_path r major minor = Dict.get_or [] (device_key major minor) r.devices

-- `Start`: a refresh, and one for each tick, with what each of them finds. A refresh that fails is
-- logged.
unfoldable pub start : List Environment → MountInfoReader → MountInfoReader
unfolding refresh
start [] r = r
start (env ∷ envs) r = start envs (refresh env r).0
