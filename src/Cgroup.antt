-- ===== src/Cgroup.antt =====
-- cgroup/stats.go and cgroup/manager.go. The statistics that containerd's cgroups library reads are
-- data with that library's fields; a nil pointer is `none`.
pub mod Metrics
pub mod BlkIo
pub mod Stats
pub mod Manager
pub mod DeviceKey
