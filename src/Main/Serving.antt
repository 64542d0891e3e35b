-- ===== src/Main/Serving.antt =====
-- cmd/acadock-monitoring/main.go: from a request to its reply, through the table of the routes. The
-- router, the middlewares and the JSON encoder are parameters.
pub mod Safety
use acadock_monitoring.Prelude.Dict
use acadock_monitoring.Prelude.{
  ℕ, Bool, true, false, List, [], ◌∷◌, Option, none, some, Bytes, codes, StringMap, if◌then◌else◌,
  Error, Outcome, ok, err, panic,
}
use acadock_monitoring.Float.{Float64}
use acadock_monitoring.Client.Types.{
  MemoryUsage, CpuUsage, NetUsage, IoUsage, Usage, ContainersUsage, HostUsage,
}
use acadock_monitoring.Docker.Containers.{ContainerSummary}
use acadock_monitoring.Webserver.Containers.{Reply, success, failed}
use acadock_monitoring.Webserver.Controller.{
  Controller, container_usage_handler, container_mem_usage_handler, container_io_usage_handler,
  container_cpu_usage_handler, container_net_usage_handler, containers_usage_handler,
  host_resources_handler,
}
use acadock_monitoring.Main.{
  Handler, container_mem, container_io, container_cpu, container_net, container_usage,
  containers_usage, host_resources, not_found, routes, admits,
}

-- What a handler replies with: a value that it encodes, or a text.
abbrev pub Payload : Type 0 → Handler → Type 0
Payload F container_mem = MemoryUsage
Payload F container_io = IoUsage
Payload F container_cpu = CpuUsage
Payload F container_net = NetUsage
Payload F container_usage = Usage
Payload F containers_usage = ContainersUsage
Payload F host_resources = HostUsage F
Payload F not_found = Bytes

abbrev as_reply : {A : Type 0} → Outcome A → Outcome (Reply A)
as_reply (ok a) = ok (success a)
as_reply (err e) = err e
as_reply panic = panic

module _ (fl : Float64) (seconds : fl.F) where
  -- The handler of a route, with what `ListContainers` returns, the variable of the route and the
  -- label of the query.
  unfoldable pub respond :
      Outcome (List ContainerSummary)
      → Controller fl.F
      → (h : Handler) → Bytes
      → Bytes
      → Outcome (Reply (Payload fl.F h))
  respond listed c container_mem id label = as_reply (container_mem_usage_handler fl seconds c id)
  respond listed c container_io id label = as_reply (container_io_usage_handler fl seconds c id)
  respond listed c container_cpu id label = as_reply (container_cpu_usage_handler fl seconds c id)
  respond listed c container_net id label = as_reply (container_net_usage_handler fl seconds c id)
  respond listed c container_usage id label = as_reply (container_usage_handler fl seconds c id)
  respond listed c containers_usage id label = containers_usage_handler fl seconds c listed
  respond listed c host_resources id label =
      as_reply (host_resources_handler fl seconds c listed label)
  respond listed c not_found id label = ok (success (codes "{\"error\": \"not found\"}"))

pub record HttpReply : Type 0 where
  pub status : ℕ
  pub content_type : Bytes
  pub body : Bytes

-- What the libraries do for a request.
pub record WebLibrary (F : Type 0) : Type 0 where
  -- The route that mux finds for a path, with the variables of its pattern.
  pub find_route : List (Bytes × Handler) → Bytes → Option (Handler × StringMap Bytes)
  -- `req.URL.Query().Get(key)`, for the text of a query.
  pub query_get : Bytes → Bytes → Bytes
  pub auth_middleware : (Bytes → Bytes → Bool) → Option Bytes → Bool
  pub encode : (h : Handler) → Payload F h → Bytes
  pub encode_failure : Error → Bytes
  -- What mux, the middleware for the authentication, the one for errors, and the one that recovers
  -- from a panic reply with.
  pub no_route : HttpReply
  pub unauthorized : HttpReply
  pub error_reply : Error → HttpReply
  pub recovered : HttpReply

module _ {F : Type 0} (web : WebLibrary F) where
  -- `JSONContentTypeMiddleware` sets the type of the content before the handler runs.
  unfoldable pub json : ℕ → Bytes → HttpReply
  json status body = record {
    status = status;
    content_type = codes "application/json";
    body = body;
  }

  unfoldable pub written : (h : Handler) → Outcome (Reply (Payload F h)) → HttpReply
  unfolding json
  written not_found (ok (success text)) = json 404 text
  written h (ok (success a)) = json 200 (web.encode h a)
  written h (ok (failed e)) = json 500 (web.encode_failure e)
  written h (err e) = web.error_reply e
  written h panic = web.recovered

pub record ServedRequest : Type 0 where
  pub path : Bytes
  pub query : Bytes
  pub authorization : Option Bytes

module _ (fl : Float64) (seconds : fl.F) (web : WebLibrary fl.F) where
  pub routed :
      Outcome (List ContainerSummary)
      → Controller fl.F
      → Bytes
      → Option (Handler × StringMap Bytes)
      → HttpReply
  unfolding written
  routed listed c query none = web.no_route
  routed listed c query (some (h, params)) = written web h (
      respond fl seconds listed c h (Dict.get_or [] (codes "id") params)
        (web.query_get query (codes "include_container_if_label")))

  -- The reply to a GET request.
  unfoldable pub serve :
      StringMap Bytes
      → Outcome (List ContainerSummary)
      → Controller fl.F
      → ServedRequest
      → HttpReply
  unfolding routed
  serve env listed c req =
      if admits web.auth_middleware env req.authorization
      then routed listed c req.query (web.find_route routes req.path)
      else web.unauthorized
