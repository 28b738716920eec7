-- ===== src/Authz.antt =====
-- packages/authz/src/index.ts: tokens, role mapping, and the HTTP and WebSocket guards. The library
-- jsonwebtoken, regular expressions, JSON and URL parsing are parameters.
pub mod Mapping
pub mod Guards
pub mod Tests
use tactix.Common.{
  ℕ, String, ◌≡◌, Bool, true, false, ◌||◌, not, ◌&&◌, Option, none, some, List, [], ◌∷◌, ◌++◌, map,
  any, includes, strip_prefix, or_else, truthy, split_on, trim, ◌==◌, if◌then◌else◌,
}

-- What the code reads of the claims of a verified token; `none` for `ad_groups` is a claim that is
-- absent or no array.
pub record Claims : Type 0 where
  pub upn : Option String
  pub sub : Option String
  pub name : Option String
  pub ad_groups : Option (List String)

pub record TactixUser : Type 0 where
  pub upn : Option String
  pub name : Option String
  pub ad_groups : List String
  pub roles : List String

-- One entry of a `RoleMapper`; `test` is `regex.test`.
pub record Rule : Type 0 where
  pub test : String → Bool
  pub roles : List String

abbrev pub RoleMapper : Type 0
RoleMapper = List Rule

-- The headers and the URL that the guards read.
pub record Request : Type 0 where
  pub authorization : Option String
  pub protocol : Option String
  pub url : String

-- What a guard does: it calls `next` with the user it found, or it answers.
pub data Flow (A : Type 0) : Type 0 where
  next : A → Flow A
  answer : (status : ℕ) → (error : String) → Flow A

-- `acc.add(r)` on a `Set<string>`
abbrev pub add : List String → String → List String
add acc r = if includes r acc then acc else acc ++ (r ∷ [])

-- `for (const r of rule.roles) acc.add(r)`
unfoldable pub add_all : List String → List String → List String
add_all acc [] = acc
add_all acc (r ∷ rs) = add_all (add acc r) rs

-- the inner loop of `resolveRoles`
unfoldable pub apply_rules : String → RoleMapper → List String → List String
unfolding add_all
apply_rules g [] acc = acc
apply_rules g (rule ∷ rules) acc =
    apply_rules g rules (if rule.test g then add_all acc rule.roles else acc)

unfoldable pub resolve_from : RoleMapper → List String → List String → List String
unfolding apply_rules
resolve_from mapper [] acc = acc
resolve_from mapper (g ∷ groups) acc = resolve_from mapper groups (apply_rules g mapper acc)

unfoldable pub resolve_roles : List String → RoleMapper → List String
unfolding resolve_from
resolve_roles ad_groups mapper = resolve_from mapper ad_groups []

-- `payload.upn || payload.sub`
abbrev pub first_truthy : Option String → Option String → Option String
first_truthy a b = if truthy a then a else b

abbrev pub given : Option (List String) → List String
given none = []
given (some groups) = groups

-- the user that the guards attach to a request
unfoldable pub user_of : RoleMapper → Claims → TactixUser
unfolding resolve_roles
user_of mapper payload =
    let groups = given payload.ad_groups in
    record {
      upn = first_truthy payload.upn payload.sub;
      name = payload.name;
      ad_groups = groups;
      roles = resolve_roles groups mapper;
    }

module _ (regexp : String → Option (String → Bool)) where
  -- the callback of `map`, for every entry; `none` where `new RegExp` throws
  unfoldable pub rules_of : List (String × Option (List String)) → Option RoleMapper
  rules_of [] = some []
  rules_of ((pattern, roles) ∷ entries) = elim (regexp pattern) [
    | none ↦ none
    | some test ↦ elim (rules_of entries) [
      | none ↦ none
      | some rules ↦ some (record { test = test; roles = given roles } ∷ rules)
    ]
  ]

  -- `json_entries` is `Object.entries(JSON.parse(…))`, `none` where it throws.
  unfoldable pub role_mapper_from_env :
      (String → Option (List (String × Option (List String)))) → Option String → RoleMapper
  unfolding rules_of
  role_mapper_from_env json_entries env = elim (json_entries (or_else env "{}")) [
    | none ↦ []
    | some entries ↦ elim (rules_of entries) [ none ↦ [] | some rules ↦ rules ]
  ]

-- `verify` is `jwt.verify` with the public key: `none` where it throws.
module _ (verify : String → Option Claims) (mapper : RoleMapper) where
  -- the middleware that `requireAuth(opts)` returns
  unfoldable pub require_auth : Request → Flow TactixUser
  require_auth req = elim req.authorization [
    | none ↦ answer 401 "unauthorized"
    | some header ↦ elim (strip_prefix "Bearer " header) [
      | none ↦ answer 401 "unauthorized"
      | some token ↦ elim (verify token) [
        | none ↦ answer 401 "unauthorized"
        | some payload ↦ next (user_of mapper payload)
      ]
    ]
  ]

-- `requireRole(roles)`, on `req.user`
unfoldable pub require_role : List String → Option TactixUser → Flow TactixUser
require_role roles none = answer 403 "forbidden"
require_role roles (some user) =
    if any (λ r. includes r user.roles) roles then next user else answer 403 "forbidden"

-- `parts[0] === 'bearer' && parts[1]`
abbrev pub from_parts : List String → Option String
from_parts (scheme ∷ token ∷ rest) =
    if scheme == "bearer" && not (token == "") then some token else none
from_parts _ = none

-- `search_param url` is `new URL(url, …).searchParams.get('token')`, `none` where it throws.
module _ (search_param : String → Option String) where
  abbrev from_url : Request → Option String
  from_url req = let t = search_param req.url in if truthy t then t else none

  unfoldable pub extract_token : Request → Option String
  extract_token req = elim req.protocol [
    | none ↦ from_url req
    | some proto ↦ elim (from_parts (map trim (split_on 44 proto))) [
      | none ↦ from_url req
      | some token ↦ some token
    ]
  ]

  -- What the callback of `connection` does to the socket: `next` sets `ws.user`, and an answer is
  -- `ws.close`.
  unfoldable pub ws_auth : (String → Option Claims) → RoleMapper → Request → Flow TactixUser
  ws_auth verify mapper req = elim (extract_token req) [
    | none ↦ answer 1008 "unauthorized"
    | some token ↦ elim (verify token) [
      | none ↦ answer 1008 "unauthorized"
      | some payload ↦ next (user_of mapper payload)
    ]
  ]
