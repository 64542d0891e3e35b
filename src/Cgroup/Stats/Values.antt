-- ===== src/Cgroup/Stats/Values.antt =====
-- The values that `cgroupV1Stats` and `cgroupV2IOUsage` report.
use acadock_monitoring.Prelude.Word.{modulus}
use acadock_monitoring.Prelude.{
  ℕ, ◌-◌, ◌<◌, [], Option, none, some, ok, panic, ◌≡◌, ◌≢◌, refl, arith,
}
use acadock_monitoring.Cgroup.Metrics.{
  MemoryEntry, BlkIoStat, MetricsV1, IoUsage, Stats, MountInfos,
}
use acadock_monitoring.Cgroup.BlkIo.{cgroup_v1_io_usage}
use acadock_monitoring.Cgroup.BlkIo.Order.{cgroup_v1_io_usage-summary}
use acadock_monitoring.Cgroup.Stats.{
  stats_of_v1, cgroup_v1_swap_metric, cgroup_v1_stats, entry_of, swap_of_memory,
}

io_usage_total :
    (infos : MountInfos) (blkio : Option BlkIoStat)
    → (io : IoUsage) × (cgroup_v1_io_usage infos blkio ≡ ok io)
io_usage_total infos none = (record { devices = [] }, unfold cgroup_v1_io_usage in refl)
io_usage_total infos (some stat) = (_, cgroup_v1_io_usage-summary infos stat)

-- Swap alone is the truncated difference: it does not wrap around.
swap_metric-sub : (a b : ℕ) → a < modulus → cgroup_v1_swap_metric a b ≡ a - b
unfolding cgroup_v1_swap_metric
swap_metric-sub a b h = ground arith

abbrev IsWord : MemoryEntry → Type 0
IsWord e = (e.usage < modulus) × (e.max < modulus) × (e.limit < modulus)

-- `cgroupV1Stats` gives statistics for any metrics, whatever sections are missing, and its three
-- swap figures are the truncated differences of the two memory sections, which never wrap around.
pub cgroup_v1_stats-swap :
    (stats : MetricsV1) (infos : MountInfos)
    → IsWord (entry_of (swap_of_memory stats.memory))
    → (r : Stats) × (cgroup_v1_stats stats infos ≡ ok r)
      × (r.swap_usage ≡ (entry_of (swap_of_memory stats.memory)).usage - r.memory_usage)
      × (r.swap_max_usage ≡ (entry_of (swap_of_memory stats.memory)).max - r.memory_max_usage)
      × (r.swap_limit ≡ (entry_of (swap_of_memory stats.memory)).limit - r.memory_limit)
unfolding cgroup_v1_stats
cgroup_v1_stats-swap stats infos (u, m, l) =
    let (io, e) = io_usage_total infos stats.blkio in
    (
      stats_of_v1 stats io,
      rw e refl,
      swap_metric-sub _ _ u,
      swap_metric-sub _ _ m,
      swap_metric-sub _ _ l,
    )

pub cgroup_v1_stats-ne-panic :
    (stats : MetricsV1) (infos : MountInfos) → cgroup_v1_stats stats infos ≢ panic
unfolding cgroup_v1_stats
cgroup_v1_stats-ne-panic stats infos =
    let (io, e) = io_usage_total infos stats.blkio in rw e (λ h. cc)
