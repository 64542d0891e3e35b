-- ===== src/Client/Requests.antt =====
-- client/client.go: the requests of the client, and what it makes of the replies. `url.Parse`,
-- `http.NewRequest`, the HTTP client and the JSON decoder are parameters.
pub mod Url
pub mod Nil
mod Examples
use acadock_monitoring.Prelude.{
  Bool, true, false, not, ◌&&◌, List, [], ◌∷◌, ◌++◌, Option, none, some, Bytes, codes, bytes_eq,
  if◌then◌else◌, Outcome, ok, err, panic, wrap, ◌>>=◌,
}
use acadock_monitoring.Client.Types.{
  MemoryUsage, CpuUsage, HostUsage, NetUsage, IoUsage, Usage, ContainersUsage,
}

pub record Client : Type 0 where
  pub endpoint : Bytes
  pub username : Bytes
  pub password : Bytes

abbrev pub ClientOpts : Type 0
ClientOpts = Client → Client

unfoldable pub with_authentication : Bytes → Bytes → ClientOpts
with_authentication user pass c = record c { username = user; password = pass }

-- `for _, opt := range opts`
unfoldable pub apply_opts : List ClientOpts → Client → Client
apply_opts [] c = c
apply_opts (opt ∷ opts) c = apply_opts opts (opt c)

-- `NewClient`, with what `url.Parse` returns for the endpoint.
unfoldable pub new_client : (Bytes → Outcome (Unit {0})) → Bytes → List ClientOpts → Outcome Client
unfolding apply_opts
new_client parse_url endpoint opts = do
  _ ← wrap (codes "parse endpoint") (parse_url endpoint)
  ok (apply_opts opts (record { endpoint = endpoint; username = []; password = [] }))

-- The text of the authorization is the one that `SetBasicAuth` encodes in base 64.
pub record Request : Type 0 where
  pub url : Bytes
  pub content_type : Bytes
  pub user_agent : Bytes
  pub authorization : Option Bytes

pub record Response : Type 0 where
  pub status : Bytes
  pub body : Bytes

pub record HttpLibrary : Type 0 where
  -- The error of `http.NewRequest`, if any.
  pub new_request : Bytes → Outcome (Unit {0})
  pub do_default : Request → Outcome Response
  -- Whether a URL names a user, and the authorization that goes out with a request.
  pub has_user_info : Bytes → Bool
  pub sent_authorization : Request → Option Bytes

-- `SetBasicAuth`
abbrev pub basic_auth : Bytes → Bytes → Bytes
basic_auth user pass = user ++ b':' ∷ pass

-- The request that `do` hands to the library.
unfoldable pub prepare : Client → Bytes → Request
prepare c url = record {
  url = url;
  content_type = codes "application/json";
  user_agent = codes "Acadocker Client v1";
  authorization =
      if not (bytes_eq c.username []) && not (bytes_eq c.password [])
      then some (basic_auth c.username c.password)
      else none;
}

-- A decoder into a value of a type, which starts from what the value is, and the decoder that only
-- wants some JSON.
pub record Decoder (A : Type 0) : Type 0 where
  pub decode : A → Bytes → Outcome A
  pub decode_any : Bytes → Outcome (Unit {0})

-- `Decode(&data)`, with what `data` points to: a nil pointer stays one, and the JSON is decoded into
-- a value of its own.
unfoldable pub decode_into : {A : Type 0} → Decoder A → Option A → Bytes → Outcome (Option A)
decode_into d none body = do _ ← d.decode_any body; ok none
decode_into d (some a) body = do a' ← d.decode a body; ok (some a')

abbrev pub with_query : Bytes → Bytes → Bytes
with_query endpoint query = if bytes_eq query [] then endpoint else endpoint ++ b'?' ∷ query

-- The path of a resource: of a container, or of all of them.
unfoldable pub resource_path : Bytes → Bytes → Bytes
resource_path docker_id resource_type =
    if bytes_eq docker_id []
    then codes "/containers/" ++ resource_type
    else codes "/containers/" ++ docker_id ++ codes "/" ++ resource_type

module _ (http : HttpLibrary) (c : Client) where
  unfoldable pub get_path_with_query :
      {A : Type 0} → Decoder A → Bytes → Bytes → Option A → Outcome (Option A)
  get_path_with_query d path query data_to = do
    let url = with_query (c.endpoint ++ path) query
    _ ← wrap (codes "create new http request") (http.new_request url)
    res ← wrap (codes "execute http request") (http.do_default (prepare c url))
    wrap (codes "decode response body payload") (decode_into d data_to res.body)

  unfoldable pub get_resource_with_query :
      {A : Type 0} → Decoder A → Bytes → Bytes → Bytes → Option A → Outcome (Option A)
  unfolding get_path_with_query
  get_resource_with_query d docker_id resource_type query data_to =
      get_path_with_query d (resource_path docker_id resource_type) query data_to

  unfoldable pub get_resource :
      {A : Type 0} → Decoder A → Bytes → Bytes → Option A → Outcome (Option A)
  unfolding get_resource_with_query
  get_resource d docker_id resource_type data_to =
      get_resource_with_query d docker_id resource_type [] data_to

  unfoldable pub memory : Decoder MemoryUsage → Bytes → Outcome (Option MemoryUsage)
  memory d docker_id =
      wrap (codes "get container memory usage") (get_resource d docker_id (codes "mem") none)

  unfoldable pub cpu_usage : Decoder CpuUsage → Bytes → Outcome (Option CpuUsage)
  cpu_usage d docker_id =
      wrap (codes "get container cpu usage") (get_resource d docker_id (codes "cpu") none)

  unfoldable pub net_usage : Decoder NetUsage → Bytes → Outcome (Option NetUsage)
  net_usage d docker_id =
      wrap (codes "get container network usage") (get_resource d docker_id (codes "net") none)

  unfoldable pub io_usage : Decoder IoUsage → Bytes → Outcome (Option IoUsage)
  io_usage d docker_id =
      wrap (codes "get container io usage")
        (get_resource d docker_id (codes "io") (some (record { devices = [] })))

  unfoldable pub usage : Decoder Usage → Bytes → Bool → Outcome (Option Usage)
  usage d docker_id net = wrap (codes "get container usage") (
      get_resource_with_query d docker_id (codes "usage")
        (codes "net=" ++ (if net then codes "true" else codes "false"))
        (some (record { memory = none; cpu = none; io = none; net = none; labels = [] })))

  unfoldable pub all_containers_usage : Decoder ContainersUsage → Outcome (Option ContainersUsage)
  all_containers_usage d =
      wrap (codes "get all containers usage") (get_resource d [] (codes "usage") (some []))

  -- With the option `IncludeContainerIfLabel`, and the zero value of the reply.
  unfoldable pub host_usage :
      {F : Type 0} → Decoder (HostUsage F) → HostUsage F → Bytes → Outcome (Option (HostUsage F))
  host_usage d zero include_container_if_label = wrap (codes "get host usage") (
      get_path_with_query d (codes "/host/usage")
        (if bytes_eq include_container_if_label []
          then []
          else codes "include_container_if_label=" ++ include_container_if_label)
        (some zero))
