-- ===== src/Cgroup/BlkIo/Examples.antt =====
-- Runs of `cgroupV1IOUsage`.
use acadock_monitoring.Prelude.{bytes_eq, ℕ, [], ◌∷◌, map, Bytes, codes, some, ok, ◌≡◌, refl, arith}
use acadock_monitoring.Prelude.Dict
use acadock_monitoring.Text.{text}
use acadock_monitoring.Cgroup.Metrics.{BlkIoEntry, BlkIoStat, MountInfos}
use acadock_monitoring.Cgroup.BlkIo.{entry_key, number_key, cgroup_v1_io_usage}
use acadock_monitoring.Cgroup.BlkIo.Summary.{entries_of, keys, device_of}
use acadock_monitoring.Cgroup.BlkIo.Order.{cgroup_v1_io_usage-summary}
use acadock_monitoring.Cgroup.DeviceKey.{entry_key_injective}

abbrev infos : MountInfos
infos = record { mountpoint = λ _ _. codes "/var/lib"; device_path = λ _ _. codes "/dev/sda" }

abbrev entry : Bytes → ℕ → BlkIoEntry
entry op value = record { op = op; device = codes "sda"; major = 8; minor = 0; value = value }

-- An entry with no device name.
abbrev nameless : Bytes → ℕ → BlkIoEntry
nameless op value = record { op = op; device = []; major = 8; minor = 16; value = value }

abbrev stat : BlkIoStat
stat = record {
  io_service_bytes_recursive =
      nameless (codes "Read") 4
      ∷ entry (codes "Read") 10
      ∷ entry (codes "Write") 20
      ∷ entry (codes "Total") 30
      ∷ [];
  io_serviced_recursive =
      entry (codes "Read") 1 ∷ entry (codes "Write") 2 ∷ entry (codes "read") 5 ∷ [];
}

two_devices :
    cgroup_v1_io_usage infos (some stat)
    ≡ ok (record {
      devices =
          record {
            device_path = codes "/dev/sda";
            mountpoint = codes "/var/lib";
            major = 8;
            minor = 16;
            read_bytes = 4;
            write_bytes = 0;
            read_ios = 0;
            write_ios = 0;
          }
          ∷ record {
            device_path = codes "/dev/sda";
            mountpoint = codes "/var/lib";
            major = 8;
            minor = 0;
            read_bytes = 10;
            write_bytes = 20;
            read_ios = 6;
            write_ios = 2;
          }
          ∷ [];
    })
unfolding cgroup_v1_io_usage text number_key Dict.lookup Dict.insert
two_devices = refl

cgroup_v1_io_usage-summary_example :
    cgroup_v1_io_usage infos (some stat)
    ≡ ok (record { devices = map (device_of infos (entries_of stat)) (keys [] (entries_of stat)) })
cgroup_v1_io_usage-summary_example = cgroup_v1_io_usage-summary infos stat

entry_key_injective_example :
    ((nameless (codes "read") 5).major ≡ (nameless (codes "write") 7).major)
    × ((nameless (codes "read") 5).minor ≡ (nameless (codes "write") 7).minor)
unfolding entry_key bytes_eq
entry_key_injective_example =
    entry_key_injective (nameless (codes "read") 5) (nameless (codes "write") 7) refl refl
      (omega arith) (omega arith) (omega arith) (omega arith) refl
