-- ===== src/Main/Serving/Safety.antt =====
-- No handler panics, on what the service keeps.
use acadock_monitoring.Prelude.{
  List, Bytes, Outcome, ok, err, panic, wrap, wrap-ne-panic, >>=-ne-panic, ◌≢◌, refl, sym, ◌∙◌,
}
use acadock_monitoring.Float.{Float64}
use acadock_monitoring.Docker.Containers.{ContainerSummary}
use acadock_monitoring.Procfs.Readers.{read_mem_info}
use acadock_monitoring.Cgroup.Metrics.{Stats}
use acadock_monitoring.Filters.Queue.{IsReady}
use acadock_monitoring.Filters.Smoothing.{read-ne-panic}
use acadock_monitoring.Cpu.{get_host_usage}
use acadock_monitoring.Resources.{get_memory_usage, get_usage, get_io_usage}
use acadock_monitoring.Webserver.Host.Safety.{host_resources-ne-panic}
use acadock_monitoring.Webserver.Containers.{
  container_usage, containers_usage, container_mem_usage, container_io_usage, container_cpu_usage,
  container_net_usage,
}
use acadock_monitoring.Webserver.Containers.Entries.{containers_usage-reported}
use acadock_monitoring.Webserver.Controller.{
  Controller, container_usage_handler, container_mem_usage_handler, container_io_usage_handler,
  container_cpu_usage_handler, container_net_usage_handler, containers_usage_handler,
  host_resources_handler, get_cpu, get_net, get_resources,
}
use acadock_monitoring.Main.{Handler, not_found}
use acadock_monitoring.Main.Serving.{as_reply, respond}

module _ {get_stats : Bytes → Outcome Stats} (returns : (id : Bytes) → get_stats id ≢ panic) where
  get_memory_usage-ne-panic : (id : Bytes) → get_memory_usage get_stats id ≢ panic
  unfolding get_memory_usage
  get_memory_usage-ne-panic id =
      >>=-ne-panic (wrap _ (get_stats id)) _ (wrap-ne-panic _ (returns id)) (λ stats e. cc)

  get_usage-ne-panic : (id : Bytes) → get_usage get_stats id ≢ panic
  unfolding get_usage
  get_usage-ne-panic id =
      >>=-ne-panic (wrap _ (get_stats id)) _ (wrap-ne-panic _ (returns id)) (λ stats e. cc)

  get_io_usage-ne-panic : (id : Bytes) → get_io_usage get_stats id ≢ panic
  unfolding get_io_usage
  get_io_usage-ne-panic id =
      >>=-ne-panic (wrap _ (get_stats id)) _ (wrap-ne-panic _ (returns id)) (λ stats e. cc)

as_reply-ne-panic : {A : Type 0} (o : Outcome A) → o ≢ panic → as_reply o ≢ panic
as_reply-ne-panic (ok a) h = λ e. cc
as_reply-ne-panic (err x) h = λ e. cc
as_reply-ne-panic panic h = absurd (h refl)

module _ (fl : Float64) (seconds : fl.F) (c : Controller fl.F)
    (stats_return : (id : Bytes) → c.resources.cgroup_stats_reader.get_stats id ≢ panic)
    (ready : IsReady c.queue) (memory_returns : read_mem_info c.procfs_memory ≢ panic)
    {listed : Outcome (List ContainerSummary)} (docker_returns : listed ≢ panic) where
  container_usage-ne-panic : (id : Bytes) → container_usage_handler fl seconds c id ≢ panic
  unfolding container_usage_handler container_usage
  container_usage-ne-panic id =
      >>=-ne-panic (wrap _ (get_resources fl seconds c id)) _
        (wrap-ne-panic _ (get_usage-ne-panic stats_return id)) (λ resources e. cc)

  containers_usage-ne-panic :
      (o : Outcome (List ContainerSummary))
      → o ≢ panic
      → containers_usage_handler fl seconds c o ≢ panic
  unfolding containers_usage_handler
  containers_usage-ne-panic (ok cs) h =
      let (r, made, _) =
        containers_usage-reported (get_cpu fl seconds c) (get_resources fl seconds c)
          (get_net fl seconds c) (get_usage-ne-panic stats_return) cs in
      λ e. let q = sym made ∙ e in cc
  containers_usage-ne-panic (err x) h = unfold containers_usage in λ e. cc
  containers_usage-ne-panic panic h = absurd (h refl)

  -- If the reader of statistics returns, the filter is ready, and the reads of /proc/meminfo and of the
  -- list return, then no handler panics.
  pub respond-ne-panic :
      (h : Handler) (id label : Bytes) → respond fl seconds listed c h id label ≢ panic
  unfolding respond container_mem_usage_handler container_io_usage_handler
      container_cpu_usage_handler container_net_usage_handler container_mem_usage container_io_usage
      container_cpu_usage container_net_usage host_resources_handler
  respond-ne-panic Handler.container_mem id label =
      as_reply-ne-panic _ (wrap-ne-panic _ (get_memory_usage-ne-panic stats_return id))
  respond-ne-panic Handler.container_io id label =
      as_reply-ne-panic _ (wrap-ne-panic _ (get_io_usage-ne-panic stats_return id))
  respond-ne-panic Handler.container_cpu id label = λ e. cc
  respond-ne-panic Handler.container_net id label = λ e. cc
  respond-ne-panic Handler.container_usage id label =
      as_reply-ne-panic _ (container_usage-ne-panic id)
  respond-ne-panic Handler.containers_usage id label =
      containers_usage-ne-panic listed docker_returns
  respond-ne-panic Handler.host_resources id label = as_reply-ne-panic _ (
      host_resources-ne-panic fl (get_host_usage fl c.cpu) (read-ne-panic fl c.queue ready)
        memory_returns docker_returns (get_memory_usage-ne-panic stats_return) label)
  respond-ne-panic not_found id label = λ e. cc
