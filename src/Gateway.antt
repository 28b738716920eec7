-- ===== src/Gateway.antt =====
-- gateway/src/index.ts: which requests and WebSockets pass to the services behind it. The tokens and
-- roles are those of packages/authz/src/index.ts.
pub mod Guarded
pub mod Tests
use tactix.Common.{
  String, ℕ, ◌≡◌, Bool, true, false, ◌||◌, Option, none, some, List, truthy, strip_prefix, split_on,
  trim, map, ◌==◌, if◌then◌else◌,
}
use tactix.Authz.{Claims, TactixUser, RoleMapper, Request, Flow, next, answer, user_of, from_parts}

-- What the gateway does with a request or a socket: it goes to a service, or it ends here.
pub data Served : Type 0 where
  proxied : Option TactixUser → Served
  healthy : Served
  answered : (status : ℕ) → (error : String) → Served
  not_found : Served
  destroyed : Served

-- `path.startsWith(prefix)`
abbrev pub starts_with : (prefix path : String) → Bool
starts_with prefix path = elim (strip_prefix prefix path) [ none ↦ false | some rest ↦ true ]

-- the expressions of `allow`
abbrev pub is_allowed : String → Bool
is_allowed path = starts_with "/auth/" path || path == "/health" || starts_with "/api-docs/" path

-- `authMiddleware`; `verify` is `none` where it throws.
module _ (verify : String → Option Claims) (mapper : RoleMapper) where
  unfoldable pub auth_middleware : Request → Flow TactixUser
  auth_middleware req = elim req.authorization [
    | none ↦ answer 401 "unauthorized"
    | some header ↦ elim (strip_prefix "Bearer " header) [
      | none ↦ answer 401 "unauthorized"
      | some token ↦ elim (verify token) [
        | none ↦ answer 401 "unauthorized"
        | some payload ↦ next (user_of mapper payload)
      ]
    ]
  ]

  -- the middleware before the proxy; the path stands beside the request
  unfoldable pub gate : (path : String) → Request → Flow (Option TactixUser)
  unfolding auth_middleware
  gate path req =
      if is_allowed path
      then next none
      else if starts_with "/api/" path
      then elim (auth_middleware req) [
        | next user ↦ next (some user)
        | answer status error ↦ answer status error
      ]
      else next none

  -- `is_health` and `mounted` are the tests that express makes for `app.get('/health')` and for
  -- `app.use('/api')`.
  module _ (is_health mounted : String → Bool) where
    unfoldable pub serve : (path : String) → Request → Served
    unfolding gate
    serve path req = if is_health path then healthy else elim (gate path req) [
      | next user ↦ if mounted path then proxied user else not_found
      | answer status error ↦ answered status error
    ]

-- `if (q) return q`, or `return null`
abbrev some_truthy : Option String → Option String
some_truthy q = if truthy q then q else none

-- `search_param url` is the parameter `token` of the URL, `none` where it throws.
module _ (search_param : String → Option String) where
  unfoldable pub extract_token : Request → Option String
  unfolding split_on trim
  extract_token req =
      let from_url = some_truthy (search_param req.url) in
      elim req.protocol [
        | none ↦ from_url
        | some proto ↦ elim (from_parts (map trim (split_on 44 proto))) [
          | none ↦ from_url
          | some token ↦ some token
        ]
      ]

  -- the handler of `upgrade`
  unfoldable pub upgrade : (String → Option Claims) → RoleMapper → Request → Served
  unfolding extract_token
  upgrade verify mapper req =
      if starts_with "/rt" req.url
      then elim (extract_token req) [
        | none ↦ answered 401 "Unauthorized"
        | some token ↦ elim (verify token) [
          | none ↦ answered 401 "Unauthorized"
          | some payload ↦ proxied (some (user_of mapper payload))
        ]
      ]
      else destroyed
