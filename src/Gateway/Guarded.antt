-- ===== src/Gateway/Guarded.antt =====
-- gateway/src/index.ts: what passes to a service, against the guards of the services.
use Prim.Native.String.{◌++◌ as str_append}
use native.Mathlib.Decide.{ℕ_discrete}
use text.Mathlib.TextLemmas.{cons-append}
use tactix.Common.{
  String, ℕ, ◌≡◌, refl, ap, ◌∙◌, Bool, true, false, Option, none, some, strip_prefix,
  strip_prefix-append, eq_iff, arith, inl, inr, Option-cases, ◌↔◌, ◌⊎◌, if◌then◌else◌, ◌≢◌,
}
use tactix.Authz.{
  Claims, TactixUser, RoleMapper, Request, Flow, next, answer, require_auth, user_of,
}
use tactix.Authz
use tactix.Realtime.Server.{accepted, is_rt, path_of}
use tactix.Realtime.Server
use tactix.Gateway.{
  proxied, answered, starts_with, is_allowed, auth_middleware, gate, serve, extract_token, upgrade,
}

module _ (verify : String → Option Claims) (mapper : RoleMapper) where
  auth_middleware-require_auth :
      (req : Request) → auth_middleware verify mapper req ≡ require_auth verify mapper req
  unfolding auth_middleware require_auth
  auth_middleware-require_auth req = refl

-- The guard finds a user or answers 401.
require_auth-cases :
    (verify : String → Option Claims) (mapper : RoleMapper) (req : Request)
    → ((user : TactixUser) × (require_auth verify mapper req ≡ next user))
      ⊎ (require_auth verify mapper req ≡ answer 401 "unauthorized")
unfolding require_auth
require_auth-cases verify mapper req = elim (Option-cases req.authorization) [
  | inl missing ↦ inr (ground arith)
  | inr (header, here) ↦ elim (Option-cases (strip_prefix "Bearer " header)) [
    | inl other ↦ inr (ground arith)
    | inr (token, behind) ↦ elim (Option-cases (verify token)) [
      | inl refused ↦ inr (ground arith)
      | inr (payload, verified) ↦ inl (user_of mapper payload, ground arith)
    ]
  ]
]

pub starts_with-append : (p s : String) → starts_with p (str_append p s) ≡ true
starts_with-append p s = rw (starts_with, strip_prefix-append p s) refl

not_auth : (rest : String) → strip_prefix "/auth/" (str_append "/api/" rest) ≡ none
unfolding strip_prefix ℕ_discrete
not_auth rest = rw (cons-append, cons-append, cons-append) refl

not_docs : (rest : String) → strip_prefix "/api-docs/" (str_append "/api/" rest) ≡ none
unfolding strip_prefix ℕ_discrete
not_docs rest = rw (cons-append, cons-append, cons-append, cons-append, cons-append) refl

not_api : strip_prefix "/api/" "/health" ≡ none
unfolding strip_prefix ℕ_discrete
not_api = refl

not_health : (rest : String) → str_append "/api/" rest ≢ "/health"
not_health rest h =
    absurd (ground (arith, strip_prefix-append "/api/" rest, not_api, ap (strip_prefix "/api/") h))

not_allowed : (rest : String) → is_allowed (str_append "/api/" rest) ≡ false
not_allowed rest =
    rw (is_allowed, starts_with, not_auth rest, not_docs rest)
      (ground (arith, eq_iff (str_append "/api/" rest) "/health", not_health rest))

module _ (verify : String → Option Claims) (mapper : RoleMapper)
    (is_health mounted : String → Bool) where
  serve_next :
      (rest : String) (req : Request) (found : TactixUser)
      → is_health (str_append "/api/" rest) ≡ false
      → mounted (str_append "/api/" rest) ≡ true
      → auth_middleware verify mapper req ≡ next found
      → serve verify mapper is_health mounted (str_append "/api/" rest) req ≡ proxied (some found)
  unfolding serve gate
  serve_next rest req found other here e =
      rw (serve, other, gate, not_allowed rest, starts_with-append "/api/" rest, e, here) refl

  serve_answer :
      (rest : String) (req : Request) (status : ℕ) (error : String)
      → is_health (str_append "/api/" rest) ≡ false
      → mounted (str_append "/api/" rest) ≡ true
      → auth_middleware verify mapper req ≡ answer status error
      → serve verify mapper is_health mounted (str_append "/api/" rest) req ≡ answered status error
  unfolding serve gate
  serve_answer rest req status error other here e =
      rw (serve, other, gate, not_allowed rest, starts_with-append "/api/" rest, e) refl

  -- A request below /api/, which express takes for the proxy and not for the health check: it passes
  -- to the service with a user exactly when the guard of packages/authz finds this user, it never
  -- passes without one, and where the guard finds none, which it answers by 401, the answer of the
  -- gateway is this 401.
  pub serve-require_auth :
      (rest : String) (req : Request) (user : TactixUser)
      → is_health (str_append "/api/" rest) ≡ false
      → mounted (str_append "/api/" rest) ≡ true
      → ((serve verify mapper is_health mounted (str_append "/api/" rest) req ≡ proxied (some user))
          ↔ (require_auth verify mapper req ≡ next user))
        × (serve verify mapper is_health mounted (str_append "/api/" rest) req ≢ proxied none)
        × (((found : TactixUser) × (require_auth verify mapper req ≡ next found))
            ⊎ ((require_auth verify mapper req ≡ answer 401 "unauthorized")
                × (serve verify mapper is_health mounted (str_append "/api/" rest) req
                    ≡ answered 401 "unauthorized")))
  serve-require_auth rest req user other here =
      let guard = auth_middleware-require_auth verify mapper req in
      elim (require_auth-cases verify mapper req) [
        | inl (found, e) ↦
            let served = serve_next rest req found other here (guard ∙ e) in
            (((λ h. ground arith), (λ h. ground arith)), (λ h. ground arith), inl (found, e))
        | inr e ↦
            let served = serve_answer rest req 401 "unauthorized" other here (guard ∙ e) in
            (((λ h. ground arith), (λ h. ground arith)), (λ h. ground arith), inr (e, served))
      ]

extract_token-Authz :
    (search_param : String → Option String) (req : Request)
    → extract_token search_param req ≡ Authz.extract_token search_param req
unfolding extract_token Authz.extract_token
extract_token-Authz search_param req = ground arith

-- A WebSocket that the gateway passes on, with the user that it found: the realtime service, with the
-- same key and the same mapping, takes it for the same user if the path is its own, and destroys it
-- otherwise; it never refuses its token.
pub upgrade-relayed :
    (search_param : String → Option String) (verify : String → Option Claims) (mapper : RoleMapper)
    (req : Request) (user : TactixUser)
    → upgrade search_param verify mapper req ≡ proxied (some user)
    → Server.upgrade search_param verify mapper req
      ≡ (if is_rt (path_of req.url) then accepted user else Server.destroyed)
unfolding upgrade Server.upgrade
upgrade-relayed search_param verify mapper req user passed =
    ground (arith, extract_token-Authz search_param req)
