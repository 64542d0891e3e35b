-- ===== src/Main/Access.antt =====
-- Which clients the service lets in.
use acadock_monitoring.Prelude.{
  Bool, true, false, not, ◌&&◌, [], ◌∷◌, Option, none, some, Bytes, codes, bytes_eq, bytes_eq_refl,
  All, if◌then◌else◌, StringMap, ◌≡◌, ◌≢◌, refl, sym, ap, ◌∙◌, arith, inl, inr, Bool-cases,
}
use acadock_monitoring.Config.{value_of}
use acadock_monitoring.Client.Requests.{Client, Request, HttpLibrary, basic_auth, prepare}
use acadock_monitoring.Main.{requires_auth, check_credentials, admits}

-- Text with no NUL, behind which the middleware stops to read.
abbrev pub IsText : Bytes → Type 0
IsText s = All (λ c. c ≢ 0) s

-- Text with no colon, which separates the user from the password.
abbrev pub IsUser : Bytes → Type 0
IsUser s = All (λ c. (c ≢ 0) × (c ≢ b':')) s

-- What the library documents of its middleware: it checks the user and the password of a request, and
-- refuses one that has none.
pub record IsAuthMiddleware (auth_middleware : (Bytes → Bytes → Bool) → Option Bytes → Bool)
    : Type 0 where
  pub checks :
      (check : Bytes → Bytes → Bool) (user password : Bytes)
      → IsUser user
      → IsText password
      → auth_middleware check (some (basic_auth user password)) ≡ check user password
  pub refuses : (check : Bytes → Bytes → Bool) → auth_middleware check none ≡ false

-- What the library documents of the authorization of a request: it sends the request's own, if there is
-- one, and adds none if the URL names no user.
pub record IsSender (http : HttpLibrary) : Type 0 where
  pub keeps :
      (req : Request) (a : Bytes)
      → req.authorization ≡ some a
      → http.sent_authorization req ≡ some a
  pub adds_none :
      (req : Request)
      → http.has_user_info req.url ≡ false
      → http.sent_authorization req ≡ req.authorization

-- A text that is empty is not one that is not.
no_match :
    (u p v q : Bytes)
    → (not (bytes_eq u []) && not (bytes_eq p [])) ≡ false
    → (not (bytes_eq v []) && not (bytes_eq q [])) ≡ true
    → false ≡ (bytes_eq u v && bytes_eq p q)
unfolding bytes_eq
no_match [] p [] q h k = cc
no_match [] p (d ∷ v) q h k = refl
no_match (c ∷ u) [] v [] h k = ground (arith, h, k)
no_match (c ∷ u) [] v (d ∷ q) h k = ground arith
no_match (c ∷ u) (d ∷ p) v q h k = cc

module _ {auth_middleware : (Bytes → Bytes → Bool) → Option Bytes → Bool}
    (laws : IsAuthMiddleware auth_middleware) (env : StringMap Bytes) where
  admits-own :
      (c : Client) (url : Bytes)
      → IsUser c.username
      → IsText c.password
      → admits auth_middleware env (prepare c url).authorization ≡ (
          if requires_auth env
          then bytes_eq c.username (value_of (codes "HTTP_USERNAME") env)
            && bytes_eq c.password (value_of (codes "HTTP_PASSWORD") env)
          else true)
  unfolding admits prepare check_credentials requires_auth
  admits-own c url user text = elim (Bool-cases (requires_auth env)) [
    | inr public ↦ rw public refl
    | inl closed ↦
        rw closed
          (elim (Bool-cases (not (bytes_eq c.username []) && not (bytes_eq c.password []))) [
            | inl given ↦
                rw (given, laws.checks (check_credentials env) c.username c.password user text) refl
            | inr missing ↦
                rw (missing, laws.refuses (check_credentials env))
                  (no_match c.username c.password (value_of (codes "HTTP_USERNAME") env)
                    (value_of (codes "HTTP_PASSWORD") env) missing closed)
          ])
  ]

  -- A client's request to a URL that names no user comes to its handler exactly if the service has no
  -- user or no password of its own, or the client has the same two - for a client whose user has no
  -- colon, and with no NUL in either.
  pub admits-prepare :
      {http : HttpLibrary}
      → IsSender http
      → (c : Client) (url : Bytes) → http.has_user_info url ≡ false
      → IsUser c.username
      → IsText c.password
      → admits auth_middleware env (http.sent_authorization (prepare c url)) ≡ (
          if requires_auth env
          then bytes_eq c.username (value_of (codes "HTTP_USERNAME") env)
            && bytes_eq c.password (value_of (codes "HTTP_PASSWORD") env)
          else true)
  unfolding prepare
  admits-prepare {http} sender c url no_user user text =
      ap (admits auth_middleware env) (sender.adds_none (prepare c url) no_user)
      ∙ admits-own c url user text

  -- A client with the service's own user and password is let in, whatever its URL.
  pub admits-same :
      {http : HttpLibrary}
      → IsSender http
      → (c : Client) (url : Bytes) → IsUser c.username
      → IsText c.password
      → (requires_auth env ≡ true → c.username ≡ value_of (codes "HTTP_USERNAME") env)
      → (requires_auth env ≡ true → c.password ≡ value_of (codes "HTTP_PASSWORD") env)
      → admits auth_middleware env (http.sent_authorization (prepare c url)) ≡ true
  unfolding admits prepare requires_auth check_credentials
  admits-same {http} sender c url user text same_user same_password =
      elim (Bool-cases (requires_auth env)) [
        | inr public ↦ rw public refl
        | inl closed ↦
            let given : (not (bytes_eq c.username []) && not (bytes_eq c.password [])) ≡ true =
              rw (same_user closed, same_password closed) closed in
            rw
              (
                closed,
                sender.keeps (prepare c url) (basic_auth c.username c.password) (rw given refl),
                laws.checks (check_credentials env) c.username c.password user text,
                sym (same_user closed),
                sym (same_password closed),
                bytes_eq_refl c.username,
                bytes_eq_refl c.password,
              )
              refl
      ]
