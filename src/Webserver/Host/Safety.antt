-- ===== src/Webserver/Host/Safety.antt =====
-- The host handler does not panic.
use acadock_monitoring.Prelude.{
  List, Bytes, eof, foreign, message, wrapped, wrapped_nil, stats_reader, not_enough_metrics,
  Outcome, ok, err, panic, wrap, wrap-ne-panic, >>=-ne-panic, ◌≢◌, refl,
}
use acadock_monitoring.Float.{Float64}
use acadock_monitoring.Client.Types.{MemoryUsage, HostCpuUsage}
use acadock_monitoring.Docker.Containers.{ContainerSummary}
use acadock_monitoring.Procfs.MemInfo.{MemInfo}
use acadock_monitoring.Webserver.Host.{add_containers, host_memory, smoothed_queue, host_resources}
use acadock_monitoring.Webserver.Host.Totals.{add_containers-ne-panic}

smoothed_queue-ne-panic :
    (fl : Float64) (o : Outcome fl.F) → o ≢ panic → smoothed_queue fl o ≢ panic
unfolding smoothed_queue
smoothed_queue-ne-panic fl (ok value) h = λ e. cc
smoothed_queue-ne-panic fl (err not_enough_metrics) h = λ e. cc
smoothed_queue-ne-panic fl (err eof) h = λ e. cc
smoothed_queue-ne-panic fl (err (foreign n)) h = λ e. cc
smoothed_queue-ne-panic fl (err (message text)) h = λ e. cc
smoothed_queue-ne-panic fl (err (wrapped text x)) h = λ e. cc
smoothed_queue-ne-panic fl (err (wrapped_nil text)) h = λ e. cc
smoothed_queue-ne-panic fl (err (stats_reader x)) h = λ e. cc
smoothed_queue-ne-panic fl panic h = λ e. h refl

-- It returns if what it calls does.
pub host_resources-ne-panic :
    (fl : Float64) (cpu : HostCpuUsage fl.F) {queue : Outcome fl.F} {meminfo : Outcome MemInfo}
    {listed : Outcome (List ContainerSummary)} {get_memory_usage : Bytes → Outcome MemoryUsage}
    → queue ≢ panic
    → meminfo ≢ panic
    → listed ≢ panic
    → ((id : Bytes) → get_memory_usage id ≢ panic)
    → (label : Bytes) → host_resources fl cpu queue meminfo listed get_memory_usage label ≢ panic
unfolding host_resources
host_resources-ne-panic fl cpu {queue} {meminfo} {listed} {get_memory_usage} q m l g label =
    >>=-ne-panic (wrap _ (smoothed_queue fl queue)) _
      (wrap-ne-panic _ (smoothed_queue-ne-panic fl queue q))
      λ queue_length. >>=-ne-panic (wrap _ meminfo) _ (wrap-ne-panic _ m) λ memory.
        >>=-ne-panic (wrap _ listed) _ (wrap-ne-panic _ l) λ cs.
          >>=-ne-panic (add_containers get_memory_usage label cs (host_memory memory)) _
            (add_containers-ne-panic get_memory_usage label g cs (host_memory memory))
            (λ total e. cc)
