-- ===== src/Main/EndToEnd.antt =====
-- The client and the service together: what a call of the client returns is what the handler made.
mod Examples
use acadock_monitoring.Prelude.Dict
use acadock_monitoring.Prelude.{
  ℕ, Bool, true, false, ◌&&◌, ◌||◌, List, [], ◌∷◌, ◌++◌, Option, none, some, Bytes, bytes_eq,
  bytes_eq_refl, codes, StringMap, All, any, any-append, not, ◌==◌, if◌then◌else◌, Outcome, ok, err,
  panic, wrap, ◌>>=◌, ◌≡◌, ◌≢◌, refl, sym, ap, ap₂, ◌∙◌, arith, inl, inr, Bool-cases,
}
use acadock_monitoring.Float.{Float64}
use acadock_monitoring.Config.{value_of}
use acadock_monitoring.Docker.Containers.{ContainerSummary}
use acadock_monitoring.Client.Types.{HostUsage}
use acadock_monitoring.Client.Requests as Requests
use acadock_monitoring.Client.Requests.{
  Client, HttpLibrary, Decoder, prepare, with_query, resource_path, decode_into,
  get_path_with_query,
}
use acadock_monitoring.Webserver.Containers.{Reply, success}
use acadock_monitoring.Webserver.Controller.{Controller}
use acadock_monitoring.Main.{
  Handler, container_io, container_usage, containers_usage, host_resources, not_found, routes,
  requires_auth, admits,
}
use acadock_monitoring.Main.Access.{IsUser, IsText, IsAuthMiddleware, IsSender, admits-same}
use acadock_monitoring.Main.Routing.{is_plain, IsSegment, IsRouter}
use acadock_monitoring.Main.Routing.Client.{find-resource_path, find-no_container}
use acadock_monitoring.Main.Serving.{
  Payload, respond, WebLibrary, HttpReply, ServedRequest, json, written, serve,
}
use acadock_monitoring.Main.Calls.{
  IsUrlText, url-append, path-IsUrlText, IsConnected, IsQueryReader, IsWelcome, Call, io_call,
  usage_call, all_usages_call, host_call, handler_of, id_of, IsPlainCall, zero_of, label_of, call,
}

module _ (fl : Float64) (seconds : fl.F) (web : WebLibrary fl.F) (env : StringMap Bytes)
    (listed : Outcome (List ContainerSummary)) (ctrl : Controller fl.F) where
  welcome-admits :
      {http : HttpLibrary} {c : Client}
      → IsSender http
      → IsAuthMiddleware web.auth_middleware
      → IsWelcome c env
      → (url : Bytes)
      → admits web.auth_middleware env (http.sent_authorization (prepare c url)) ≡ true
  welcome-admits {http} {c} sender auth w url =
      admits-same auth env sender c url w.user_text w.password_text w.same_user w.same_password

  served :
      (req : ServedRequest)
      → admits web.auth_middleware env req.authorization ≡ true
      → (h : Handler) (params : StringMap Bytes) → web.find_route routes req.path ≡ some (h, params)
      → (a : Payload fl.F h) → written web h (ok (success a)) ≡ json web 200 (web.encode h a)
      → respond fl seconds listed ctrl h
          (Dict.get_or [] (codes "id") params)
          (web.query_get req.query (codes "include_container_if_label"))
        ≡ ok (success a)
      → serve fl seconds web env listed ctrl req ≡ json web 200 (web.encode h a)
  unfolding serve
  served req admitted h params found a w200 responded =
      rw (admitted, found) (ap (written web h) responded ∙ w200)

  -- A request that comes to a handler with a result.
  fetch :
      {http : HttpLibrary} {c : Client}
      → IsConnected http c (serve fl seconds web env listed ctrl)
      → IsAuthMiddleware web.auth_middleware
      → IsWelcome c env
      → (path query : Bytes) → IsUrlText path
      → IsUrlText query
      → (h : Handler) (params : StringMap Bytes) → web.find_route routes path ≡ some (h, params)
      → (a z : Payload fl.F h) (d : Decoder (Payload fl.F h))
      → written web h (ok (success a)) ≡ json web 200 (web.encode h a)
      → respond fl seconds listed ctrl h
          (Dict.get_or [] (codes "id") params)
          (web.query_get query (codes "include_container_if_label"))
        ≡ ok (success a)
      → d.decode z (web.encode h a) ≡ ok a
      → get_path_with_query http c d path query (some z) ≡ ok (some a)
  unfolding get_path_with_query decode_into json
  fetch {http} {c} conn auth w path query p q h params found a z d w200 responded decoded =
      let url = with_query (c.endpoint ++ path) query in
      let e =
        served
          (record {
            path = path;
            query = query;
            authorization = http.sent_authorization (prepare c url);
          })
          (welcome-admits conn.sender auth w url) h params found a w200 responded in
      rw (conn.accepts path query p q, conn.delivers path query p q, e, decoded)

  -- A client that is connected to the service, and welcome: a call for a container whose name is of
  -- digits and small letters, for all containers, or for the host with a label that needs no escape,
  -- returns the value with which the handler of this resource replied, if the JSON of this value
  -- decodes to it.
  pub call-served :
      {http : HttpLibrary} {c : Client}
      → IsConnected http c (serve fl seconds web env listed ctrl)
      → IsAuthMiddleware web.auth_middleware
      → IsWelcome c env
      → IsRouter web.find_route
      → IsQueryReader web.query_get
      → (z : HostUsage fl.F) (k : Call) → IsPlainCall k
      → (a : Payload fl.F (handler_of k)) (d : Decoder (Payload fl.F (handler_of k)))
      → respond fl seconds listed ctrl (handler_of k) (id_of k) (label_of k) ≡ ok (success a)
      → d.decode (zero_of z k) (web.encode (handler_of k) a) ≡ ok a
      → call http c z k d ≡ ok (some a)
  unfolding call Requests.io_usage Requests.usage Requests.all_containers_usage Requests.host_usage
      Requests.get_resource resource_path written respond Dict.get_or bytes_eq
  call-served conn auth w router query z (io_call id) plain a d responded decoded = ap (wrap _) (
      fetch conn auth w (resource_path id (codes "io")) []
        (path-IsUrlText id (codes "io") plain refl) refl container_io _
        (find-resource_path router id plain).1 a _ d refl responded decoded)
  call-served conn auth w router query z (usage_call id true) plain a d responded decoded =
      ap (wrap _) (
        fetch conn auth w (resource_path id (codes "usage")) (codes "net=true")
          (path-IsUrlText id (codes "usage") plain refl) refl container_usage _
          (find-resource_path router id plain).4 a _ d refl responded decoded)
  call-served conn auth w router query z (usage_call id false) plain a d responded decoded =
      ap (wrap _) (
        fetch conn auth w (resource_path id (codes "usage")) (codes "net=false")
          (path-IsUrlText id (codes "usage") plain refl) refl container_usage _
          (find-resource_path router id plain).4 a _ d refl responded decoded)
  call-served conn auth w router query z all_usages_call plain a d responded decoded = ap (wrap _) (
      fetch conn auth w (resource_path [] (codes "usage")) [] refl refl containers_usage _
        (find-no_container router).0 a _ d refl responded decoded)
  call-served conn auth w router query z (host_call []) plain a d responded decoded = ap (wrap _) (
      fetch conn auth w (codes "/host/usage") [] refl refl host_resources _
        (find-no_container router).1 a _ d refl
        (ap (λ l. respond fl seconds listed ctrl host_resources [] l)
            (query.empty (codes "include_container_if_label"))
          ∙ responded)
        decoded)
  call-served conn auth w router query z (host_call (x ∷ label)) plain a d responded decoded =
      let text = url-append (codes "include_container_if_label=") (x ∷ label) refl plain in
      ap (wrap _) (
        fetch conn auth w (codes "/host/usage") (codes "include_container_if_label=" ++ x ∷ label)
          refl text host_resources _ (find-no_container router).1 a _ d refl
          (ap (λ l. respond fl seconds listed ctrl host_resources [] l)
              (query.single (codes "include_container_if_label") (x ∷ label) text)
            ∙ responded)
          decoded)
