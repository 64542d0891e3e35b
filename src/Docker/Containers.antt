-- ===== src/Docker/Containers.antt =====
-- docker/client.go and docker/list.go: the client, and the running containers. Docker's client is a
-- parameter.
use acadock_monitoring.Prelude.{Bytes, List, codes, Outcome, wrap, ◌>>=◌, StringMap}

-- What the program uses of Docker's `container.Summary`.
pub record ContainerSummary : Type 0 where
  pub id : Bytes
  pub labels : StringMap Bytes

-- `Client`, with what `dockerclient.New` returns for the host.
unfoldable pub new_docker_client : {C : Type 0} → Outcome C → Outcome C
new_docker_client new_client = wrap (codes "create docker client") new_client

-- With what `dockerclient.New` and `ContainerList` return.
unfoldable pub list_containers :
    {C : Type 0}
    → Outcome C
    → (C → Outcome (List ContainerSummary))
    → Outcome (List ContainerSummary)
unfolding new_docker_client
list_containers new_client container_list = do
  client ← wrap (codes "get docker client") (new_docker_client new_client)
  wrap (codes "list docker containers") (container_list client)
