-- ===== src/Main/EndToEnd/Examples.antt =====
-- A client and a service that are connected, and a call.
use acadock_monitoring.Prelude.Dict
use acadock_monitoring.Prelude.{
  ℕ, suc, [], ◌∷◌, ◌++◌, Option, some, Bytes, bytes_eq, codes, ◌==◌, drop, length, if◌then◌else◌,
  ok, ◌≡◌, refl, ap, arith,
}
use acadock_monitoring.Float.{whole}
use acadock_monitoring.Client.Types.{IoUsage, HostUsage}
use acadock_monitoring.Client.Requests.{HttpLibrary, Decoder, prepare, with_query}
use acadock_monitoring.Procfs.Readers.{new_mem_info_reader}
use acadock_monitoring.Cpu.{zero_stats, new_cpu_usage_monitor}
use acadock_monitoring.Net.{new_net_monitor}
use acadock_monitoring.Resources.{get_io_usage, io_usage_from_stats}
use acadock_monitoring.Webserver.Containers.{success, container_io_usage}
use acadock_monitoring.Webserver.Controller.{Controller, container_io_usage_handler}
use acadock_monitoring.Main.{Handler}
use acadock_monitoring.Main.Examples.{
  names_user, sent_by, sender-IsSender, middleware, middleware-IsAuthMiddleware, secured, visitor,
  os, service,
}
use acadock_monitoring.Main.Routing.Examples.{mux, mux-IsRouter}
use acadock_monitoring.Main.Serving.{respond, WebLibrary, HttpReply, ServedRequest, serve}
use acadock_monitoring.Main.Calls.{IsUrlText, IsConnected, IsQueryReader, IsWelcome, io_call, call}
use acadock_monitoring.Main.EndToEnd.{call-served}

-- The path of a URL and its query.
cut_query : Bytes → Bytes × Bytes
cut_query [] = ([], [])
cut_query (c ∷ s) =
    let (path, query) = cut_query s in if c == b'?' then ([], s) else (c ∷ path, query)

cut_query-path : (path : Bytes) → IsUrlText path → cut_query path ≡ (path, [])
unfolding cut_query
cut_query-path [] h = refl
cut_query-path (c ∷ path) h = ground (arith, cut_query-path path)

cut_query-query :
    (path query : Bytes) → IsUrlText path → cut_query (path ++ b'?' ∷ query) ≡ (path, query)
unfolding cut_query
cut_query-query [] query h = refl
cut_query-query (c ∷ path) query h = ground (arith, cut_query-query path query)

abbrev plain_reply : HttpReply
plain_reply = record { status = 404; content_type = []; body = [] }

-- Behind the key and the equals sign.
value_behind : Bytes → Bytes → Bytes
value_behind query key = drop (suc (length key)) query

drop-behind : (key s : Bytes) → drop (suc (length key)) (key ++ b'=' ∷ s) ≡ s
drop-behind [] s = refl
drop-behind (c ∷ key) s = drop-behind key s

value_behind-IsQueryReader : IsQueryReader value_behind
unfolding value_behind
value_behind-IsQueryReader = record {
  empty = λ key. refl;
  single = λ key value _. drop-behind key value;
}

abbrev web : WebLibrary ℕ
web = record {
  find_route = mux;
  query_get = value_behind;
  auth_middleware = middleware;
  encode = λ h a. codes "{}";
  encode_failure = λ e. [];
  no_route = plain_reply;
  unauthorized = plain_reply;
  error_reply = λ e. plain_reply;
  recovered = plain_reply;
}

abbrev controller : Controller ℕ
controller = record {
  resources = record { cgroup_stats_reader = record { get_stats = λ id. ok zero_stats } };
  cpu = new_cpu_usage_monitor 4;
  net = new_net_monitor;
  queue = service.queue_length;
  procfs_memory = new_mem_info_reader os;
}

abbrev server : ServedRequest → HttpReply
server = serve whole 1 web secured (ok []) controller

abbrev request_of : Bytes → Option Bytes → ServedRequest
request_of url authorization = record {
  path = (cut_query (drop 8 url)).0;
  query = (cut_query (drop 8 url)).1;
  authorization = authorization;
}

abbrev http : HttpLibrary
http = record {
  new_request = λ url. ok tt;
  do_default =
      λ req. ok (record { status = []; body = (server (request_of req.url (sent_by req))).body });
  has_user_info = names_user;
  sent_authorization = sent_by;
}

-- The endpoint of the client, "http://h", has eight bytes.
request_of-url :
    (path query : Bytes) (a : Option Bytes)
    → IsUrlText path
    → request_of (with_query (visitor.endpoint ++ path) query) a
      ≡ record { path = path; query = query; authorization = a }
unfolding bytes_eq
request_of-url path [] a h = rw (cut_query-path path h)
request_of-url path (c ∷ query) a h = rw (cut_query-query path (c ∷ query) h)

visitor-IsConnected : IsConnected http visitor server
unfolding prepare
visitor-IsConnected = record {
  accepts = λ path query _ _. refl;
  sender = sender-IsSender (λ url. ok tt) http.do_default;
  status_of = λ path query. [];
  delivers = λ path query h _.
      ap (λ (r : ServedRequest). ok (record { status = []; body = (server r).body }))
        (request_of-url path query _ h);
}

visitor-IsWelcome : IsWelcome visitor secured
unfolding bytes_eq Dict.get_or
visitor-IsWelcome = record {
  user_text = (((λ h. omega (arith, h)), (λ h. omega (arith, h))), tt);
  password_text = ((λ h. omega (arith, h)), tt);
  same_user = λ _. refl;
  same_password = λ _. refl;
}

abbrev no_devices : IoUsage
no_devices = record { devices = [] }

abbrev decoder : Decoder IoUsage
decoder = record { decode = λ z s. ok no_devices; decode_any = λ s. ok tt }

abbrev zero_host : HostUsage ℕ
zero_host = record {
  cpu = record { usage = 0; amount = 0; queue_length_exponentially_smoothed = 0 };
  memory = record {
    free = 0;
    total = 0;
    swap = 0;
    memory_usage = 0;
    memory_committed = 0;
    max_memory_usage = 0;
    swap_usage = 0;
    swap_committed = 0;
    max_swap_usage = 0;
  };
}

io_answer :
    respond whole 1 (ok []) controller Handler.container_io (codes "c1") []
    ≡ ok (success no_devices)
unfolding respond container_io_usage_handler container_io_usage get_io_usage io_usage_from_stats
io_answer = refl

call-served_example :
    call http visitor zero_host (io_call (codes "c1")) decoder ≡ ok (some no_devices)
call-served_example =
    call-served whole 1 web secured (ok []) controller visitor-IsConnected
      middleware-IsAuthMiddleware visitor-IsWelcome mux-IsRouter value_behind-IsQueryReader
      zero_host (io_call (codes "c1")) ((λ e. cc), (refl, (refl, tt))) no_devices decoder io_answer
      refl
