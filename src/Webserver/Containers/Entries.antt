-- ===== src/Webserver/Containers/Entries.antt =====
-- Which containers the list of usages has.
use acadock_monitoring.Prelude.Dict
use acadock_monitoring.Prelude.{
  List, [], ◌∷◌, Option, some, none, Bytes, bytes_eq, if◌then◌else◌, Outcome, ok, err, panic, ◌>>=◌,
  ◌≡◌, ◌≢◌, refl, ap, ◌∙◌, arith,
}
use acadock_monitoring.Client.Types.{CpuUsage, NetUsage, Usage, ContainersUsage}
use acadock_monitoring.Docker.Containers.{ContainerSummary}
use acadock_monitoring.Resources.{ResourceUsage}
use acadock_monitoring.Webserver.Containers.{
  success, usage_with, add_entry, add_entries, containers_usage,
}

module _ (get_cpu : Bytes → CpuUsage) (get_resources : Bytes → Outcome ResourceUsage)
    (get_net : Bytes → NetUsage) where
  -- The usage of a container, if its resources can be read, or else what was there before.
  unfoldable pub usage_or : ContainerSummary → Outcome ResourceUsage → Option Usage → Option Usage
  usage_or c (ok resources) before = some (record {
    memory = some resources.memory;
    cpu = some (get_cpu c.id);
    io = some resources.io;
    net = some (get_net c.id);
    labels = c.labels;
  })
  usage_or c _ before = before

  -- The last usage of a container with this id, of those that can be read.
  unfoldable pub reported : Bytes → List ContainerSummary → Option Usage → Option Usage
  reported id [] before = before
  reported id (c ∷ cs) before =
      reported id cs (if bytes_eq c.id id then usage_or c (get_resources c.id) before else before)

  module _ (returns : (id : Bytes) → get_resources id ≢ panic) where
    add_entry-reported :
        (c : ContainerSummary) (cs : List ContainerSummary) (usage : ContainersUsage)
        (o : Outcome ResourceUsage)
        → o ≢ panic
        → ((more : ContainersUsage)
            → (r : ContainersUsage) × (add_entries get_cpu get_resources get_net cs more ≡ ok r)
              × ((id : Bytes) → Dict.lookup id r ≡ reported id cs (Dict.lookup id more)))
        → (r : ContainersUsage) × ((add_entry get_cpu get_resources get_net c o usage
              >>= add_entries get_cpu get_resources get_net cs)
            ≡ ok r)
          × ((id : Bytes)
              → Dict.lookup id r
                ≡ reported id cs (
                    if bytes_eq c.id id
                    then usage_or c o (Dict.lookup id usage)
                    else Dict.lookup id usage))
    unfolding add_entry usage_or usage_with
    add_entry-reported c cs usage (ok resources) h ih =
        let (r, e, l) = ih (
          Dict.insert c.id (usage_with get_cpu get_resources get_net c.id c.labels resources)
            usage) in
        (
          r,
          e,
          λ id.
              l id
              ∙ ap (λ (u : Option Usage). reported id cs u) (Dict.lookup-insert c.id id _ usage),
        )
    add_entry-reported c cs usage (err x) h ih =
        let (r, e, l) = ih usage in
        (r, e, λ id. l id ∙ ap (λ (u : Option Usage). reported id cs u) (ground arith))
    add_entry-reported c cs usage panic h ih = absurd (h refl)

    add_entries-reported :
        (cs : List ContainerSummary) (usage : ContainersUsage)
        → (r : ContainersUsage) × (add_entries get_cpu get_resources get_net cs usage ≡ ok r)
          × ((id : Bytes) → Dict.lookup id r ≡ reported id cs (Dict.lookup id usage))
    unfolding add_entries reported
    add_entries-reported [] usage = (usage, refl, λ id. refl)
    add_entries-reported (c ∷ cs) usage =
        add_entry-reported c cs usage (get_resources c.id) (returns c.id)
          (λ more. add_entries-reported cs more)

    -- If the containers can be listed, and no getter panics, the handler replies with a map that
    -- has a container if and only if it is listed and its resources can be read, with the memory and
    -- the IO of these resources, its own CPU and network usage, and its labels. One container that
    -- cannot be read takes no other away.
    pub containers_usage-reported :
        (cs : List ContainerSummary)
        → (r : ContainersUsage) × (containers_usage get_cpu get_resources get_net (ok cs)
            ≡ ok (success r))
          × ((id : Bytes) → Dict.lookup id r ≡ reported id cs none)
    unfolding containers_usage
    containers_usage-reported cs =
        let (r, e, l) = add_entries-reported cs [] in
        (
          r,
          ap (λ (o : Outcome ContainersUsage). o >>= (λ usage. ok (success usage))) e,
          λ id. l id ∙ unfold Dict.lookup in refl,
        )
