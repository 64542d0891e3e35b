-- ===== src/Webserver/Examples.antt =====
-- Runs of the handlers, with one container that cannot be read.
use acadock_monitoring.Prelude.Word
use acadock_monitoring.Prelude.Word.{modulus}
use acadock_monitoring.Prelude.Dict
use acadock_monitoring.Prelude.{
  ℕ, ◌/◌, ◌%◌, [], ◌∷◌, List, map, Bytes, bytes_eq, codes, none, eof, if◌then◌else◌, Outcome, ok,
  err, panic, ◌≡◌, ◌≢◌, refl, arith,
}
use acadock_monitoring.Float.{whole}
use acadock_monitoring.Client.Types.{
  MemoryUsage, CpuUsage, NetworkInfo, NetUsage, HostCpuUsage, HostUsage, ContainersUsage,
}
use acadock_monitoring.Docker.Containers.{ContainerSummary}
use acadock_monitoring.Procfs.MemInfo.{MemInfo, fill_struct}
use acadock_monitoring.Resources.{ResourceUsage}
use acadock_monitoring.Webserver.Host.{host_resources}
use acadock_monitoring.Webserver.Host.Totals.{is_asked, total, counted, host_resources-totals}
use acadock_monitoring.Webserver.Containers.{success, containers_usage}
use acadock_monitoring.Webserver.Containers.Entries.{reported, containers_usage-reported}

abbrev usage : MemoryUsage
usage = record {
  memory_usage = 6;
  swap_usage = 9;
  memory_limit = 8;
  swap_limit = 11;
  max_memory_usage = 7;
  max_swap_usage = 10;
}

abbrev unless_b {ℓ} : {A : Type ℓ} → A → Bytes → Outcome A
unless_b a id = if bytes_eq id (codes "b") then err eof else ok a

unless_b-ne-panic {ℓ} : {A : Type ℓ} (a : A) (id : Bytes) → unless_b a id ≢ panic
unless_b-ne-panic a id = ground arith

abbrev containers : List ContainerSummary
containers =
    record { id = codes "a"; labels = [] }
    ∷ record { id = codes "b"; labels = [] }
    ∷ record { id = codes "c"; labels = [] }
    ∷ []

abbrev cpu : HostCpuUsage ℕ
cpu = record { usage = 1; amount = 4; queue_length_exponentially_smoothed = 0 }

abbrev meminfo : MemInfo
meminfo = fill_struct ((codes "MemTotal", 8_388_608) ∷ [])

host_resources-totals_example :
    (r : HostUsage ℕ) × (host_resources whole cpu
        (ok 3)
        (ok meminfo)
        (ok containers)
        (unless_b usage)
        []
      ≡ ok r)
    × (r.cpu ≡ record cpu { queue_length_exponentially_smoothed = 3 })
    × (r.memory.memory_usage
        ≡ total (map (λ u. u.memory_usage) (counted (unless_b usage) [] containers)) % modulus)
    × (r.memory.memory_committed
        ≡ total (map (λ u. u.memory_limit) (counted (unless_b usage) [] containers)) % modulus)
    × (r.memory.max_memory_usage
        ≡ total (map (λ u. u.max_memory_usage) (counted (unless_b usage) [] containers)) % modulus)
    × (r.memory.swap_usage
        ≡ total (map (λ u. u.swap_usage) (counted (unless_b usage) [] containers)) % modulus)
    × (r.memory.swap_committed
        ≡ total (map (λ u. u.swap_limit) (counted (unless_b usage) [] containers)) % modulus)
    × (r.memory.max_swap_usage
        ≡ total (map (λ u. u.max_swap_usage) (counted (unless_b usage) [] containers)) % modulus)
    × (r.memory.free
        ≡ Word.add (Word.add meminfo.mem_free meminfo.buffers) meminfo.cached / 1024 / 1024)
    × (r.memory.total ≡ meminfo.mem_total / 1024 / 1024)
    × (r.memory.swap ≡ Word.sub meminfo.swap_total meminfo.swap_free / 1024 / 1024)
host_resources-totals_example =
    host_resources-totals (unless_b usage) [] (unless_b-ne-panic usage) whole cpu 3 meminfo
      containers

two_of_three : total (map (λ u. u.memory_usage) (counted (unless_b usage) [] containers)) ≡ 12
unfolding total counted is_asked bytes_eq
two_of_three = refl

abbrev resources : ResourceUsage
resources = record { memory = usage; io = record { devices = [] } }

abbrev no_cpu : CpuUsage
no_cpu = record { usage_in_percents = 0 }

abbrev none_sent : NetworkInfo
none_sent = record {
  bytes = 0;
  packets = 0;
  drop = 0;
  errs = 0;
  fifo = 0;
  frame = 0;
  compressed = 0;
  multicast = 0;
}

abbrev no_net : NetUsage
no_net = record {
  network_stat = record { interface = []; received = none_sent; transmit = none_sent };
  rx_bps = 0;
  tx_bps = 0;
}

containers_usage-reported_example :
    (r : ContainersUsage) × (containers_usage
        (λ _. no_cpu)
        (unless_b resources)
        (λ _. no_net)
        (ok containers)
      ≡ ok (success r))
    × ((id : Bytes)
        → Dict.lookup id r
          ≡ reported (λ _. no_cpu) (unless_b resources) (λ _. no_net) id containers none)
containers_usage-reported_example =
    containers_usage-reported (λ _. no_cpu) (unless_b resources) (λ _. no_net)
      (unless_b-ne-panic resources) containers
