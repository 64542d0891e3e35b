-- ===== src/Main/Calls.antt =====
-- The calls of the client, and what the HTTP library does between a client and the service.
use acadock_monitoring.Prelude.{
  Bool, true, false, ◌||◌, [], ◌∷◌, ◌++◌, Option, none, Bytes, bytes_eq, codes, StringMap, All, any,
  any-append, not, ◌==◌, Outcome, ok, ◌≡◌, refl, ◌∙◌,
}
use acadock_monitoring.Config.{value_of}
use acadock_monitoring.Client.Types.{HostUsage}
use acadock_monitoring.Client.Requests as Requests
use acadock_monitoring.Client.Requests.{
  Client, HttpLibrary, Decoder, prepare, with_query, resource_path, decode_into,
  get_path_with_query,
}
use acadock_monitoring.Main.{
  Handler, container_io, container_usage, containers_usage, host_resources, requires_auth,
}
use acadock_monitoring.Main.Access.{IsSender, IsUser, IsText}
use acadock_monitoring.Main.Routing.{is_plain, IsSegment}
use acadock_monitoring.Main.Serving.{Payload, HttpReply, ServedRequest}

-- The text of a path or a query that needs no escape in a URL.
abbrev pub IsUrlText : Bytes → Type 0
IsUrlText s = any (λ c. not (is_plain c || c == b'/' || c == b'_' || c == b'=')) s ≡ false

pub url-append : (s t : Bytes) → IsUrlText s → IsUrlText t → IsUrlText (s ++ t)
url-append s t h k =
    any-append (λ c. not (is_plain c || c == b'/' || c == b'_' || c == b'=')) s t ∙ rw (h, k)

plain-IsUrlText : (s : Bytes) → All (λ c. is_plain c ≡ true) s → IsUrlText s
plain-IsUrlText [] h = refl
plain-IsUrlText (c ∷ s) (h, hs) = rw h (plain-IsUrlText s hs)

pub path-IsUrlText : (id r : Bytes) → IsSegment id → IsUrlText r → IsUrlText (resource_path id r)
unfolding resource_path bytes_eq
path-IsUrlText [] r (h, _) k = absurd (h refl)
path-IsUrlText (c ∷ id) r (_, plain) k =
    url-append (codes "/containers/" ++ c ∷ id ++ codes "/") r
      (url-append (codes "/containers/" ++ c ∷ id) (codes "/")
        (url-append (codes "/containers/") (c ∷ id) refl (plain-IsUrlText (c ∷ id) plain)) refl)
      k

-- What the HTTP library does between a client and the service at its endpoint: it sends the path, the
-- query and the authorization, and returns the body of the reply.
pub record IsConnected (http : HttpLibrary) (c : Client) (server : ServedRequest → HttpReply)
    : Type 0 where
  pub accepts :
      (path query : Bytes)
      → IsUrlText path
      → IsUrlText query
      → http.new_request (with_query (c.endpoint ++ path) query) ≡ ok tt
  pub sender : IsSender http
  pub status_of : Bytes → Bytes → Bytes
  pub delivers :
      (path query : Bytes)
      → IsUrlText path
      → IsUrlText query
      → http.do_default (prepare c (with_query (c.endpoint ++ path) query))
        ≡ ok (record {
          status = status_of path query;
          body =
              (server (record {
                path = path;
                query = query;
                authorization =
                    http.sent_authorization (prepare c (with_query (c.endpoint ++ path) query));
              })).body;
        })

-- What the library does with the text of a query.
pub record IsQueryReader (query_get : Bytes → Bytes → Bytes) : Type 0 where
  pub empty : (key : Bytes) → query_get [] key ≡ []
  pub single :
      (key value : Bytes)
      → IsUrlText (key ++ b'=' ∷ value)
      → query_get (key ++ b'=' ∷ value) key ≡ value

-- The client has the credentials that the service asks for, if it does.
pub record IsWelcome (c : Client) (env : StringMap Bytes) : Type 0 where
  pub user_text : IsUser c.username
  pub password_text : IsText c.password
  pub same_user : requires_auth env ≡ true → c.username ≡ value_of (codes "HTTP_USERNAME") env
  pub same_password : requires_auth env ≡ true → c.password ≡ value_of (codes "HTTP_PASSWORD") env

-- The calls of the client that have a result.
pub data Call : Type 0 where
  io_call : Bytes → Call
  usage_call : Bytes → Bool → Call
  all_usages_call : Call
  host_call : Bytes → Call

abbrev pub handler_of : Call → Handler
handler_of (io_call id) = container_io
handler_of (usage_call id net) = container_usage
handler_of all_usages_call = containers_usage
handler_of (host_call label) = host_resources

abbrev pub id_of : Call → Bytes
id_of (io_call id) = id
id_of (usage_call id net) = id
id_of all_usages_call = []
id_of (host_call label) = []

-- A name of digits and small letters; a label that needs no escape.
abbrev pub IsPlainCall : Call → Type 0
IsPlainCall (io_call id) = IsSegment id
IsPlainCall (usage_call id net) = IsSegment id
IsPlainCall all_usages_call = Unit
IsPlainCall (host_call label) = IsUrlText label

-- The value that the client decodes into.
abbrev pub zero_of : {F : Type 0} → HostUsage F → (k : Call) → Payload F (handler_of k)
zero_of z (io_call id) = record { devices = [] }
zero_of z (usage_call id net) = record {
  memory = none;
  cpu = none;
  io = none;
  net = none;
  labels = [];
}
zero_of z all_usages_call = []
zero_of z (host_call label) = z

-- The label that the handler is given.
abbrev pub label_of : Call → Bytes
label_of (host_call label) = label
label_of _ = []

unfoldable pub call :
    {F : Type 0}
    → HttpLibrary
    → Client
    → HostUsage F
    → (k : Call) → Decoder (Payload F (handler_of k))
    → Outcome (Option (Payload F (handler_of k)))
call http c z (io_call id) d = Requests.io_usage http c d id
call http c z (usage_call id net) d = Requests.usage http c d id net
call http c z all_usages_call d = Requests.all_containers_usage http c d
call http c z (host_call label) d = Requests.host_usage http c d z label
