-- ===== src/Cgroup/BlkIo/Summary.antt =====
-- What the entries of the block devices say, device by device: a description of the result of
-- `cgroupV1IOUsage` with no maps and no state.
use acadock_monitoring.Prelude.Word
use acadock_monitoring.Prelude.Word.{Word}
use acadock_monitoring.Prelude.{
  ℕ, ◌+◌, Bool, true, false, not, ◌&&◌, ◌||◌, List, [], ◌∷◌, ◌++◌, map, Option, none, some, Bytes,
  bytes_eq, if◌then◌else◌,
}
use acadock_monitoring.Text.Fields.{to_lower}
use acadock_monitoring.Cgroup.Metrics.{BlkIoEntry, BlkIoStat, IoDeviceUsage, MountInfos}
use acadock_monitoring.Cgroup.BlkIo.{
  Section, service_bytes, serviced, is_relevant, entry_key, new_device, read_op, write_op,
}

abbrev pub Tagged : Type 0
Tagged = Section × BlkIoEntry

abbrev pub tag : Section → List BlkIoEntry → List Tagged
tag section entries = map (λ entry. (section, entry)) entries

-- The entries in the order in which the two loops meet them.
abbrev pub entries_of : BlkIoStat → List Tagged
entries_of stat =
    tag service_bytes stat.io_service_bytes_recursive ++ tag serviced stat.io_serviced_recursive

abbrev pub same_section : Section → Section → Bool
same_section service_bytes service_bytes = true
same_section serviced serviced = true
same_section _ _ = false

unfoldable pub belongs : Bytes → Tagged → Bool
belongs key (section, entry) = is_relevant entry && bytes_eq (entry_key entry) key

unfoldable pub counted : Section → Bytes → Bytes → Tagged → Bool
counted section op key (section', entry) =
    belongs key (section', entry)
    && same_section section section'
    && bytes_eq (to_lower entry.op) op

-- The sum of the values of one operation in one section for one device, without a bound.
unfoldable pub total : Section → Bytes → Bytes → List Tagged → ℕ
total section op key [] = 0
total section op key (t ∷ ts) =
    (if counted section op key t then t.1.value else 0) + total section op key ts

-- The first entry of the device: its numbers are the ones that are reported.
unfoldable pub first : Bytes → List Tagged → Option BlkIoEntry
first key [] = none
first key (t ∷ ts) = if belongs key t then some t.1 else first key ts

abbrev pub is_in : Bytes → List Bytes → Bool
is_in key [] = false
is_in key (k ∷ ks) = bytes_eq k key || is_in key ks

-- The keys of the devices, each where it is met first, without those that were seen before.
unfoldable pub keys : List Bytes → List Tagged → List Bytes
keys seen [] = []
keys seen (t ∷ ts) =
    let key = entry_key t.1 in
    let new = key ∷ keys (seen ++ key ∷ []) ts in
    let old = keys seen ts in if is_relevant t.1 && not (is_in key seen) then new else old

-- A device after more entries: each counter grows by its sum, modulo 2 ^ 64.
unfoldable pub grown : Bytes → List Tagged → IoDeviceUsage → IoDeviceUsage
grown key ts device = record device {
  read_bytes = Word.add device.read_bytes (total service_bytes read_op key ts);
  write_bytes = Word.add device.write_bytes (total service_bytes write_op key ts);
  read_ios = Word.add device.read_ios (total serviced read_op key ts);
  write_ios = Word.add device.write_ios (total serviced write_op key ts);
}

abbrev zero_device : IoDeviceUsage
zero_device = record {
  device_path = [];
  mountpoint = [];
  major = 0;
  minor = 0;
  read_bytes = 0;
  write_bytes = 0;
  read_ios = 0;
  write_ios = 0;
}

-- The summary of one device.
unfoldable pub device_of : MountInfos → List Tagged → Bytes → IoDeviceUsage
device_of infos ts key = elim (first key ts) [
  | none ↦ zero_device
  | some entry ↦ grown key ts (new_device infos entry)
]
