-- ===== src/Client/Requests/Examples.antt =====
-- Requests of a client whose library replies to everything.
use acadock_monitoring.Prelude.{false, [], ◌∷◌, codes, some, none, ok, ◌≡◌, refl}
use acadock_monitoring.Text.{text}
use acadock_monitoring.Client.Requests.{
  Client, HttpLibrary, Decoder, new_client, with_authentication, resource_path, io_usage, memory,
  cpu_usage, net_usage, get_resource, get_path_with_query, get_resource_with_query, decode_into,
  prepare,
}
use acadock_monitoring.Client.Requests.Nil.{HasNoValue, memory-HasNoValue}

-- The reply is the URL of the request.
abbrev echo : HttpLibrary
echo = record {
  new_request = λ _. ok tt;
  do_default = λ req. ok (record { status = codes "200 OK"; body = req.url });
  has_user_info = λ url. false;
  sent_authorization = λ req. req.authorization;
}

abbrev keeps : {A : Type 0} → Decoder A
keeps = record { decode = λ a _. ok a; decode_any = λ _. ok tt }

abbrev local : Client
local = record { endpoint = codes "http://h"; username = codes "u"; password = codes "p" }

made :
    new_client (λ _. ok tt) (codes "http://h") (with_authentication (codes "u") (codes "p") ∷ [])
    ≡ ok local
unfolding new_client with_authentication
made = refl

memory_is_nil : memory echo local keeps (codes "1a") ≡ ok none
unfolding memory get_resource get_resource_with_query get_path_with_query decode_into prepare text
memory_is_nil = refl

io_is_there : io_usage echo local keeps (codes "1a") ≡ ok (some (record { devices = [] }))
unfolding io_usage get_resource get_resource_with_query get_path_with_query decode_into prepare text
io_is_there = refl

memory-HasNoValue_example :
    HasNoValue (memory echo local keeps (codes "1a"))
    × HasNoValue (cpu_usage echo local keeps (codes "1a"))
    × HasNoValue (net_usage echo local keeps (codes "1a"))
memory-HasNoValue_example =
    memory-HasNoValue echo local (λ url e. cc) (λ req e. cc) keeps keeps keeps (codes "1a")
      (λ body e. cc) (λ body e. cc) (λ body e. cc)

same_path : resource_path (codes "a") (codes "io") ≡ resource_path (codes "a") (codes "io")
same_path = refl
