-- ===== src/Webserver/Host.antt =====
-- webserver/host.go: the usage of the machine.
pub mod Totals
pub mod Safety
use acadock_monitoring.Prelude.Word
use acadock_monitoring.Prelude.Word.{Word, modulus}
use acadock_monitoring.Prelude.Dict
use acadock_monitoring.Prelude.{
  ℕ, ◌+◌, ◌/◌, ◌%◌, Bool, true, false, List, [], ◌∷◌, ◌++◌, map, Option, some, none, Bytes,
  bytes_eq, codes, if◌then◌else◌, Error, not_enough_metrics, Outcome, ok, err, panic, wrap, ◌>>=◌,
  ◌≡◌, ◌≢◌, refl, arith, ap, ◌∙◌, sym, inl, inr, Bool-cases,
}
use acadock_monitoring.Float.{Float64}
use acadock_monitoring.Client.Types.{MemoryUsage, HostCpuUsage, HostMemoryUsage, HostUsage}
use acadock_monitoring.Docker.Containers.{ContainerSummary}
use acadock_monitoring.Procfs.MemInfo.{MemInfo, free_buffers, swap_used}

pub host_memory : MemInfo → HostMemoryUsage
host_memory m = record {
  free = free_buffers m / 1024 / 1024;
  total = m.mem_total / 1024 / 1024;
  swap = swap_used m / 1024 / 1024;
  memory_usage = 0;
  memory_committed = 0;
  max_memory_usage = 0;
  swap_usage = 0;
  swap_committed = 0;
  max_swap_usage = 0;
}

pub add_usage : MemoryUsage → HostMemoryUsage → HostMemoryUsage
add_usage usage memory = record memory {
  memory_usage = Word.add memory.memory_usage usage.memory_usage;
  memory_committed = Word.add memory.memory_committed usage.memory_limit;
  max_memory_usage = Word.add memory.max_memory_usage usage.max_memory_usage;
  swap_committed = Word.add memory.swap_committed usage.swap_limit;
  swap_usage = Word.add memory.swap_usage usage.swap_usage;
  max_swap_usage = Word.add memory.max_swap_usage usage.max_swap_usage;
}

pub has_label : Option Bytes → Bool
has_label none = false
has_label (some value) = true

-- Is the container one of those that the request asks for?
unfoldable pub is_included : Bytes → ContainerSummary → Bool
unfolding has_label
is_included label_filter c =
    if bytes_eq label_filter [] then true else has_label (Dict.lookup label_filter c.labels)

-- A container whose usage cannot be read is left out.
pub add_result : Outcome MemoryUsage → HostMemoryUsage → Outcome HostMemoryUsage
add_result (ok usage) memory = ok (add_usage usage memory)
add_result (err e) memory = ok memory
add_result panic memory = panic

-- The loop over the containers.
unfoldable pub add_containers :
    (Bytes → Outcome MemoryUsage)
    → Bytes
    → List ContainerSummary
    → HostMemoryUsage
    → Outcome HostMemoryUsage
add_containers get_memory_usage label_filter [] memory = ok memory
add_containers get_memory_usage label_filter (c ∷ cs) memory = do
  more ← if is_included label_filter c then add_result (get_memory_usage c.id) memory else ok memory
  add_containers get_memory_usage label_filter cs more

module _ (fl : Float64) where
  open fl use {F, of_int64}

  -- `QueueLengthExponentiallySmoothed` is 0 where there are not enough metrics yet.
  pub smoothed_queue : Outcome F → Outcome F
  smoothed_queue (err not_enough_metrics) = ok (of_int64 0)
  smoothed_queue (ok value) = ok value
  smoothed_queue (err e) = err e
  smoothed_queue panic = panic

  -- `HostResourcesHandler`, with what the getters return and the label of the query.
  unfoldable pub host_resources :
      HostCpuUsage F
      → Outcome F
      → Outcome MemInfo
      → Outcome (List ContainerSummary)
      → (Bytes → Outcome MemoryUsage)
      → Bytes
      → Outcome (HostUsage F)
  unfolding smoothed_queue host_memory
  host_resources cpu queue meminfo containers get_memory_usage label_filter = do
    queue_length ← wrap (codes "get current queue length") (smoothed_queue queue)
    host_memory_info ← wrap (codes "get host memory usage") meminfo
    listed ← wrap (codes "list docker containers") containers
    memory ← add_containers get_memory_usage label_filter listed (host_memory host_memory_info)
    ok (record {
      cpu = record cpu { queue_length_exponentially_smoothed = queue_length };
      memory = memory;
    })
