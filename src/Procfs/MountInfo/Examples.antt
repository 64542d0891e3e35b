-- ===== src/Procfs/MountInfo/Examples.antt =====
-- Runs of a refresh: a disk, and a volume that the device mapper has.
use acadock_monitoring.Prelude.Word.{Word}
use acadock_monitoring.Prelude.Dict
use acadock_monitoring.Prelude.{
  ◌||◌, List, [], ◌∷◌, any, Bytes, bytes_eq, codes, if◌then◌else◌, eof, Outcome, ok, err, StringMap,
  ◌≡◌, ◌≢◌, refl,
}
use acadock_monitoring.Text.{text}
use acadock_monitoring.Procfs.MountInfo.{
  MountEntry, Environment, new_mount_info_reader, base, mapper_paths, add_mapper_paths, add_devices,
  add_mount_infos, read_infos, start, device_path_of, device_paths, refresh, mountpoint,
  device_path,
}
use acadock_monitoring.Procfs.MountInfo.Refresh.{numbers, path_or, entries, refresh-lookup}
use acadock_monitoring.Procfs.MountInfo.Start.{with_maps, start-last_success}

abbrev mounts : List MountEntry
mounts =
    record { major_minor_ver = codes "8:1"; mount_point = codes "/" }
    ∷ record { major_minor_ver = codes "253:0"; mount_point = codes "/data" }
    ∷ []

abbrev targets : Bytes → Outcome Bytes
targets path =
    if bytes_eq path (codes "/dev/mapper/data") || bytes_eq path (codes "/sys/dev/block/253:0")
    then ok (codes "/dev/dm-0")
    else ok (codes "/sys/block/sda1")

abbrev directories : Bytes → Outcome (List Bytes)
directories path =
    if bytes_eq path (codes "/dev/mapper")
    then ok (codes "data" ∷ [])
    else ok (codes "8:1" ∷ codes "253:0" ∷ [])

abbrev machine : Environment
machine = record { get_mount_infos = ok mounts; read_dir = directories; eval_symlinks = targets }

abbrev mapped : StringMap Bytes
mapped = (codes "/dev/dm-0", codes "/dev/mapper/data") ∷ []

abbrev found : StringMap Bytes
found = (codes "8:1", codes "/dev/sda1") ∷ (codes "253:0", codes "/dev/mapper/data") ∷ []

listed : directories new_mount_info_reader.sys_dev_block ≡ ok (codes "8:1" ∷ codes "253:0" ∷ [])
unfolding new_mount_info_reader text
listed = refl

mapped_paths : mapper_paths machine new_mount_info_reader ≡ ok mapped
unfolding new_mount_info_reader text mapper_paths add_mapper_paths Dict.insert
mapped_paths = refl

found_paths : device_paths machine new_mount_info_reader mapped ≡ ok found
unfolding new_mount_info_reader text device_paths base add_devices device_path_of Dict.insert
    Dict.get_or
found_paths = refl

refresh-lookup_example :
    ((refresh machine new_mount_info_reader).1 ≡ ok tt)
    × ((major minor : Word)
        → (mountpoint (refresh machine new_mount_info_reader).0 major minor
            ≡ Dict.last_of (numbers major minor) (entries mounts) [])
          × (device_path (refresh machine new_mount_info_reader).0 major minor ≡ (
              if any
                (λ (n : Bytes). bytes_eq n (numbers major minor))
                (codes "8:1" ∷ codes "253:0" ∷ [])
              then path_or
                  (device_path_of machine new_mount_info_reader mapped (numbers major minor))
              else [])))
refresh-lookup_example =
    refresh-lookup machine new_mount_info_reader mounts (codes "8:1" ∷ codes "253:0" ∷ []) mapped
      found refl listed mapped_paths found_paths

abbrev unreadable : Environment
unreadable = record machine { get_mount_infos = err eof }

unreadable_fails :
    (m : StringMap Bytes × StringMap Bytes) → read_infos unreadable new_mount_info_reader ≢ ok m
unfolding read_infos
unreadable_fails m e = cc

abbrev points : StringMap Bytes
points = (codes "8:1", codes "/") ∷ (codes "253:0", codes "/data") ∷ []

machine_read : read_infos machine new_mount_info_reader ≡ ok (points, found)
unfolding new_mount_info_reader text read_infos mapper_paths add_mapper_paths device_paths base
    add_devices device_path_of add_mount_infos Dict.insert Dict.get_or
machine_read = refl

start-last_success_example :
    start (unreadable ∷ machine ∷ unreadable ∷ []) new_mount_info_reader
    ≡ with_maps (points, found) new_mount_info_reader
start-last_success_example =
    start-last_success (unreadable ∷ []) (unreadable ∷ []) machine new_mount_info_reader
      (points, found) machine_read (unreadable_fails, tt)
