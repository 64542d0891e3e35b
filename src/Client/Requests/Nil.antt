-- ===== src/Client/Requests/Nil.antt =====
-- Three methods of the client pass a nil pointer to the decoder.
use acadock_monitoring.Prelude.{
  [], Option, none, Bytes, codes, Outcome, ok, err, panic, wrap, wrap-ne-panic, ◌>>=◌, ◌≡◌, ◌≢◌,
  ◌⊎◌, Error, refl, ap, inl, inr,
}
use acadock_monitoring.Client.Types.{MemoryUsage, CpuUsage, NetUsage}
use acadock_monitoring.Client.Requests.{
  Client, Request, HttpLibrary, Decoder, decode_into, resource_path, get_path_with_query,
  get_resource_with_query, get_resource, memory, cpu_usage, net_usage,
}

-- A nil pointer, or an error, and no panic.
abbrev pub HasNoValue : {A : Type 0} → Outcome (Option A) → Type 0
HasNoValue o = (o ≡ ok none) ⊎ ((e : Error) × (o ≡ err e))

HasNoValue-wrap :
    {A : Type 0} (text : Bytes) (o : Outcome (Option A)) → HasNoValue o → HasNoValue (wrap text o)
HasNoValue-wrap text o (inl h) = inl (ap (wrap text) h)
HasNoValue-wrap text o (inr (e, h)) = inr (_, ap (wrap text) h)

HasNoValue->>= :
    {A B : Type 0} (m : Outcome B) (f : B → Outcome (Option A))
    → m ≢ panic
    → ((b : B) → HasNoValue (f b))
    → HasNoValue (m >>= f)
HasNoValue->>= (ok b) f p h = h b
HasNoValue->>= (err e) f p h = inr (e, refl)
HasNoValue->>= panic f p h = absurd (p refl)

decode_into-HasNoValue :
    {A : Type 0} (d : Decoder A) (body : Bytes)
    → d.decode_any body ≢ panic
    → HasNoValue (decode_into d none body)
unfolding decode_into
decode_into-HasNoValue d body reads =
    HasNoValue->>= (d.decode_any body) (λ _. ok none) reads (λ _. inl refl)

module _ (http : HttpLibrary) (c : Client) (answers : (url : Bytes) → http.new_request url ≢ panic)
    (returns : (req : Request) → http.do_default req ≢ panic) where
  get_path-HasNoValue :
      {A : Type 0} (d : Decoder A) (path query : Bytes)
      → ((body : Bytes) → d.decode_any body ≢ panic)
      → HasNoValue (get_path_with_query http c d path query none)
  unfolding get_path_with_query
  get_path-HasNoValue d path query reads = HasNoValue->>= _ _ (wrap-ne-panic _ (answers _)) (λ _.
      HasNoValue->>= _ _ (wrap-ne-panic _ (returns _)) (λ res.
        HasNoValue-wrap (codes "decode response body payload") _
          (decode_into-HasNoValue d res.body (reads res.body))))

  get_resource-HasNoValue :
      {A : Type 0} (d : Decoder A) (id resource : Bytes)
      → ((body : Bytes) → d.decode_any body ≢ panic)
      → HasNoValue (get_resource http c d id resource none)
  unfolding get_resource get_resource_with_query
  get_resource-HasNoValue d id resource reads =
      get_path-HasNoValue d (resource_path id resource) [] reads

  -- If the HTTP library and the decoders do not panic, then whatever the service replies, `Memory`,
  -- `CpuUsage` and `NetUsage` return a nil pointer or an error: they do not panic, and never return a
  -- usage.
  pub memory-HasNoValue :
      (memory_decoder : Decoder MemoryUsage) (cpu_decoder : Decoder CpuUsage)
      (net_decoder : Decoder NetUsage) (id : Bytes)
      → ((body : Bytes) → memory_decoder.decode_any body ≢ panic)
      → ((body : Bytes) → cpu_decoder.decode_any body ≢ panic)
      → ((body : Bytes) → net_decoder.decode_any body ≢ panic)
      → HasNoValue (memory http c memory_decoder id)
        × HasNoValue (cpu_usage http c cpu_decoder id)
        × HasNoValue (net_usage http c net_decoder id)
  unfolding memory cpu_usage net_usage
  memory-HasNoValue memory_decoder cpu_decoder net_decoder id reads reads' reads'' = (
    HasNoValue-wrap (codes "get container memory usage") _
        (get_resource-HasNoValue memory_decoder id (codes "mem") reads),
    HasNoValue-wrap (codes "get container cpu usage") _
        (get_resource-HasNoValue cpu_decoder id (codes "cpu") reads'),
    HasNoValue-wrap (codes "get container network usage") _
        (get_resource-HasNoValue net_decoder id (codes "net") reads''),
  )
