-- ===== src/Auth.antt =====
-- packages/auth/src/index.ts: the guards over callbacks. `verify` is `jwt.verify` with the public key.
pub mod Service
pub mod Login
pub mod Tests
use tactix.Common.{
  ℕ, String, Bool, true, false, Option, none, some, List, [], any, includes, strip_prefix,
  if◌then◌else◌,
}
use tactix.Authz.{Request, Flow, next, answer}

-- What the guard reads of the claims of a token; `none` is a claim that is absent.
pub record AccessClaims : Type 0 where
  pub sub : Option String
  pub roles : Option (List String)
  pub ad_groups : Option (List String)

-- `req.user`
pub record AuthPayload : Type 0 where
  pub sub : Option String
  pub roles : List String
  pub ad_groups : List String

-- `claim || []`
abbrev pub or_empty : Option (List String) → List String
or_empty none = []
or_empty (some claim) = claim

module _ (verify : String → Option AccessClaims) where
  unfoldable pub require_auth : Request → Flow AuthPayload
  require_auth req = elim req.authorization [
    | none ↦ answer 401 "unauthorized"
    | some header ↦ elim (strip_prefix "Bearer " header) [
      | none ↦ answer 401 "unauthorized"
      | some token ↦ elim (verify token) [
        | none ↦ answer 401 "unauthorized"
        | some payload ↦ next (record {
          sub = payload.sub;
          roles = or_empty payload.roles;
          ad_groups = or_empty payload.ad_groups;
        })
      ]
    ]
  ]

  -- the function that `requireRole(roles)` returns
  unfoldable pub require_role : List String → Request → Flow AuthPayload
  unfolding require_auth
  require_role roles req = elim (require_auth req) [
    | next user ↦
        if any (λ r. includes r user.roles) roles then next user else answer 403 "forbidden"
    | answer status error ↦ answer status error
  ]
