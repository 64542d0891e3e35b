-- ===== src/Cgroup/BlkIo.antt =====
-- cgroup/stats.go: `cgroupV1IOUsage` gathers the entries of the block devices, by device.
pub mod Gather
pub mod Summary
pub mod Order
mod Examples
use acadock_monitoring.Prelude.Word
use acadock_monitoring.Prelude.Word.{Word}
use acadock_monitoring.Prelude.Dict
use acadock_monitoring.Prelude.{
  Bool, true, false, not, ◌&&◌, List, [], ◌∷◌, ◌++◌, Option, none, some, Bytes, bytes_eq, codes,
  if◌then◌else◌, Outcome, ok, err, panic, ◌>>=◌, StringMap,
}
use acadock_monitoring.Text.Decimal.{format_uint}
use acadock_monitoring.Text.Fields.{to_lower}
use acadock_monitoring.Cgroup.Metrics.{BlkIoEntry, BlkIoStat, IoDeviceUsage, IoUsage, MountInfos}

-- The maps and the slice that the two loops share. A device is only reached through its key.
pub record Gathered : Type 0 where
  pub devices : StringMap IoDeviceUsage
  pub order : List Bytes

abbrev pub read_op : Bytes
read_op = codes "read"

abbrev pub write_op : Bytes
write_op = codes "write"

-- Which of the two loops runs.
pub data Section : Type 0 where
  service_bytes serviced : Section

-- The function that the loop passes to `updateCgroupV1Device`.
pub update : Section → IoDeviceUsage → Bytes → Word → IoDeviceUsage
update service_bytes device op value =
    if bytes_eq op read_op
    then record device { read_bytes = Word.add device.read_bytes value }
    else if bytes_eq op write_op
    then record device { write_bytes = Word.add device.write_bytes value }
    else device
update serviced device op value =
    if bytes_eq op read_op
    then record device { read_ios = Word.add device.read_ios value }
    else if bytes_eq op write_op
    then record device { write_ios = Word.add device.write_ios value }
    else device

-- `FormatUint(major) + ":" + FormatUint(minor)`
unfoldable pub number_key : Word → Word → Bytes
number_key major minor = format_uint major ++ b':' ∷ format_uint minor

unfoldable pub entry_key : BlkIoEntry → Bytes
entry_key entry =
    if bytes_eq entry.device [] then number_key entry.major entry.minor else entry.device

pub is_relevant : BlkIoEntry → Bool
is_relevant entry =
    not (not (bytes_eq (to_lower entry.op) read_op) && not (bytes_eq (to_lower entry.op) write_op))

module _ (infos : MountInfos) where
  pub new_device : BlkIoEntry → IoDeviceUsage
  new_device entry = record {
    device_path = infos.device_path entry.major entry.minor;
    mountpoint = infos.mountpoint entry.major entry.minor;
    major = entry.major;
    minor = entry.minor;
    read_bytes = 0;
    write_bytes = 0;
    read_ios = 0;
    write_ios = 0;
  }

  pub update_cgroup_v1_device : Section → BlkIoEntry → Gathered → Gathered
  update_cgroup_v1_device section entry s =
      let op = to_lower entry.op in
      let key = entry_key entry in
      if not (is_relevant entry) then s else elim (Dict.lookup key s.devices) [
        | some device ↦ record s {
          devices = Dict.insert key (update section device op entry.value) s.devices;
        }
        | none ↦ record {
          devices = Dict.insert key (update section (new_device entry) op entry.value) s.devices;
          order = s.order ++ key ∷ [];
        }
      ]

  -- A loop over the entries of one section.
  pub gather : Section → List BlkIoEntry → Gathered → Gathered
  gather section [] s = s
  gather section (entry ∷ entries) s =
      gather section entries (update_cgroup_v1_device section entry s)

  -- `*devices[key]` for each key of the order: a missing key is a nil pointer, and panics.
  pub collect : StringMap IoDeviceUsage → List Bytes → Outcome (List IoDeviceUsage)
  collect devices [] = ok []
  collect devices (key ∷ keys) = elim (Dict.lookup key devices) [
    | none ↦ panic
    | some device ↦ do rest ← collect devices keys; ok (device ∷ rest)
  ]

  unfoldable pub cgroup_v1_io_usage : Option BlkIoStat → Outcome IoUsage
  unfolding update_cgroup_v1_device gather collect update entry_key is_relevant new_device
  cgroup_v1_io_usage none = ok (record { devices = [] })
  cgroup_v1_io_usage (some stat) =
      let first =
        gather service_bytes stat.io_service_bytes_recursive
          (record { devices = []; order = [] }) in
      let second = gather serviced stat.io_serviced_recursive first in
      (do devices ← collect second.devices second.order; ok (record { devices = devices }))
