-- ===== src/Main/Routing.antt =====
-- What the router does with the table of the routes.
pub mod Client
pub mod Examples
use acadock_monitoring.Prelude.{
  ℕ, Bool, true, false, List, [], ◌∷◌, ◌++◌, Option, some, Bytes, bytes_eq, bytes_eq_iff, codes,
  StringMap, All, any, leb, ◌==◌, ◌&&◌, ◌||◌, if◌then◌else◌, ◌≡◌, ◌≢◌, refl, ap, ◌∙◌, sym, arith,
}
use mathlib.Core.List.{append_cancel_left}
use acadock_monitoring.Client.Requests.{resource_path}
use acadock_monitoring.Client.Requests.Url.{
  HasNoSlash, before_slash, slash_inside, behind, containers,
}
use acadock_monitoring.Main.{
  Handler, container_mem, container_io, container_cpu, container_net, container_usage,
  containers_usage, host_resources, not_found, routes,
}

-- A digit or a small letter.
abbrev pub is_plain : ℕ → Bool
is_plain c = leb b'0' c && leb c b'9' || leb b'a' c && leb c b'z'

-- The name of a container, as Docker makes it.
abbrev pub IsSegment : Bytes → Type 0
IsSegment id = (id ≢ []) × All (λ c. is_plain c ≡ true) id

abbrev pub HasNoBrace : Bytes → Type 0
HasNoBrace s = any (λ c. c == b'{') s ≡ false

pub plain-HasNoSlash : (s : Bytes) → All (λ c. is_plain c ≡ true) s → HasNoSlash s
plain-HasNoSlash [] h = tt
plain-HasNoSlash (c ∷ s) (h, hs) = ((λ e. ground arith), plain-HasNoSlash s hs)

-- What mux documents: the first route whose pattern matches is taken; a pattern without a variable
-- matches the path that is the same, and a variable stands for one segment of a path.
pub record IsRouter (find : List (Bytes × Handler) → Bytes → Option (Handler × StringMap Bytes))
    : Type 0 where
  pub literal :
      (p : Bytes) (h : Handler) (rs : List (Bytes × Handler))
      → HasNoBrace p
      → find ((p, h) ∷ rs) p ≡ some (h, [])
  pub literal_skip :
      (p path : Bytes) (h : Handler) (rs : List (Bytes × Handler))
      → HasNoBrace p
      → p ≢ path
      → find ((p, h) ∷ rs) path ≡ find rs path
  pub variable :
      (before after id : Bytes) (h : Handler) (rs : List (Bytes × Handler))
      → HasNoBrace before
      → HasNoBrace after
      → IsSegment id
      → find ((before ++ (codes "{id}" ++ b'/' ∷ after), h) ∷ rs) (before ++ (id ++ b'/' ∷ after))
        ≡ some (h, (codes "id", id) ∷ [])
  pub variable_skip :
      (before after path : Bytes) (h : Handler) (rs : List (Bytes × Handler))
      → HasNoBrace before
      → HasNoBrace after
      → ((id : Bytes) → HasNoSlash id → path ≢ before ++ (id ++ b'/' ∷ after))
      → find ((before ++ (codes "{id}" ++ b'/' ∷ after), h) ∷ rs) path ≡ find rs path

module _ {find : List (Bytes × Handler) → Bytes → Option (Handler × StringMap Bytes)}
    (router : IsRouter find) where
  -- A route for another resource.
  pub other_resource :
      (id r s : Bytes) (h : Handler) (rs : List (Bytes × Handler))
      → IsSegment id
      → HasNoBrace s
      → bytes_eq r s ≡ false
      → find ((containers ++ (codes "{id}" ++ b'/' ∷ s), h) ∷ rs) (containers ++ (id ++ b'/' ∷ r))
        ≡ find rs (containers ++ (id ++ b'/' ∷ r))
  other_resource id r s h rs (_, plain) brace other =
      router.variable_skip containers s _ h rs refl brace λ j slash e.
        let (_, same) =
          before_slash id j r s (plain-HasNoSlash id plain) slash
            (append_cancel_left containers _ _ e) in
        ground (arith, bytes_eq_iff r s)

  pub own_resource :
      (id s : Bytes) (h : Handler) (rs : List (Bytes × Handler))
      → IsSegment id
      → HasNoBrace s
      → find ((containers ++ (codes "{id}" ++ b'/' ∷ s), h) ∷ rs) (containers ++ (id ++ b'/' ∷ s))
        ≡ some (h, (codes "id", id) ∷ [])
  own_resource id s h rs segment brace = router.variable containers s id h rs refl brace segment

  -- A path with no variable is not that of a container.
  pub no_container :
      (path s : Bytes) (h : Handler) (rs : List (Bytes × Handler))
      → HasNoBrace s
      → ((j : Bytes) → path ≢ containers ++ (j ++ b'/' ∷ s))
      → find ((containers ++ (codes "{id}" ++ b'/' ∷ s), h) ∷ rs) path ≡ find rs path
  no_container path s h rs brace other =
      router.variable_skip containers s path h rs refl brace (λ j _. other j)
