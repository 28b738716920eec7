-- ===== src/Authz/Guards.antt =====
-- The HTTP and WebSocket guards of packages/authz/src/index.ts.
use Prim.Native.String.{◌++◌ as str_append}
use text.Mathlib.TextLemmas.{cons-append, nil-append}
use mathlib.Core.Path.{subst}
use tactix.Common.{
  String, ◌≡◌, refl, sym, ap, Option, some, List, [], ◌∷◌, any, includes, strip_prefix,
  strip_prefix-append, strip_prefix_sound, arith, any_congr, if◌then◌else◌, split_on, trim, ◌⊎◌,
  none, ◌∙◌, Bool-cases, ◌==◌, map, Lacks, split_on_of_Lacks, ◌≢◌, eq_iff, Option-cases, inl, inr,
}
use tactix.Authz.{
  Claims, TactixUser, RoleMapper, Request, Flow, next, answer, given, user_of, require_auth,
  require_role, extract_token,
}
use tactix.Authz.Mapping.{gives, includes-resolve_roles, IsDistinct, resolve_roles-IsDistinct}

-- `upn` is the claim of this name, or `sub` where that is missing or empty.
abbrev pub IsName : Claims → (upn : Option String) → Type 0
IsName payload upn =
    ((s : String) × (payload.upn ≡ some s) × (s ≢ "") × (upn ≡ some s))
    ⊎ (((payload.upn ≡ none) ⊎ (payload.upn ≡ some "")) × (upn ≡ payload.sub))

-- What the claims of a token say of a user under a mapping: the roles are those that a rule lists
-- whose pattern matches one of the groups, each once.
pub record IsDescribed (mapper : RoleMapper) (payload : Claims) (user : TactixUser) : Type 0 where
  pub named : IsName payload user.upn
  pub name : user.name ≡ payload.name
  pub groups :
      (payload.ad_groups ≡ some user.ad_groups)
      ⊎ ((payload.ad_groups ≡ none) × (user.ad_groups ≡ []))
  pub roles :
      (role : String)
      → includes role user.roles ≡ any (λ g. any (gives role g) mapper) user.ad_groups
  pub distinct : IsDistinct user.roles

user_of-named :
    (mapper : RoleMapper) (payload : Claims) → IsName payload (user_of mapper payload).upn
unfolding user_of
user_of-named mapper payload = elim (Option-cases payload.upn) [
  | inl missing ↦ inr (inl missing, ground arith)
  | inr (s, here) ↦ elim (Bool-cases (s == "")) [
    | inl empty ↦
        let e : s ≡ "" = ground (arith, eq_iff s "") in inr (inr (here ∙ ap some e), ground arith)
    | inr other ↦ inl (s, here, (λ e. ground (arith, eq_iff s "")), ground arith)
  ]
]

user_of-groups :
    (mapper : RoleMapper) (payload : Claims)
    → (payload.ad_groups ≡ some (user_of mapper payload).ad_groups)
      ⊎ ((payload.ad_groups ≡ none) × ((user_of mapper payload).ad_groups ≡ []))
unfolding user_of
user_of-groups mapper payload = elim (Option-cases payload.ad_groups) [
  | inl missing ↦ inr (missing, rw missing refl)
  | inr (gs, here) ↦ inl (rw here refl)
]

user_of-IsDescribed :
    (mapper : RoleMapper) (payload : Claims) → IsDescribed mapper payload (user_of mapper payload)
unfolding user_of
user_of-IsDescribed mapper payload = record {
  named = user_of-named mapper payload;
  name = refl;
  groups = user_of-groups mapper payload;
  roles = λ role. includes-resolve_roles (given payload.ad_groups) mapper role;
  distinct = resolve_roles-IsDistinct (given payload.ad_groups) mapper;
}

module _ (verify : String → Option Claims) (mapper : RoleMapper) where
  -- What a guard may do with a request: it passes with the user that the claims of its token
  -- describe, or it is answered by 401 because there is no header, no "Bearer " or no valid token.
  pub data IsGuarded (req : Request) : Flow TactixUser → Type 0 where
    passes :
        (token : String) (payload : Claims) (user : TactixUser)
        → req.authorization ≡ some (str_append "Bearer " token)
        → verify token ≡ some payload
        → IsDescribed mapper payload user
        → IsGuarded req (next user)
    no_header : req.authorization ≡ none → IsGuarded req (answer 401 "unauthorized")
    no_bearer :
        (header : String)
        → req.authorization ≡ some header
        → ((token : String) → header ≢ str_append "Bearer " token)
        → IsGuarded req (answer 401 "unauthorized")
    no_claims :
        (token : String)
        → req.authorization ≡ some (str_append "Bearer " token)
        → verify token ≡ none
        → IsGuarded req (answer 401 "unauthorized")

  -- Every request passes with the user that the claims of the token behind "Bearer " describe, or
  -- is answered by 401, and then there is no such header or its token does not verify. The user has
  -- the claim upn, or sub where upn is missing or empty; its roles are those that a rule of the
  -- mapping lists for one of its groups, each once.
  pub require_auth-IsGuarded : (req : Request) → IsGuarded req (require_auth verify mapper req)
  unfolding require_auth
  require_auth-IsGuarded req = elim (Option-cases req.authorization) [
    | inl missing ↦ as_computed (no_header missing) (ground arith)
    | inr (header, here) ↦ elim (Option-cases (strip_prefix "Bearer " header)) [
      | inl other ↦
          as_computed
            (no_bearer header here
              λ token same. absurd (ground (arith, strip_prefix-append "Bearer " token)))
            (ground arith)
      | inr (token, behind) ↦
          let carried : req.authorization ≡ some (str_append "Bearer " token) =
            here ∙ ap some (strip_prefix_sound "Bearer " header token behind) in
          elim (Option-cases (verify token)) [
            | inl refused ↦ as_computed (no_claims token carried refused) (ground arith)
            | inr (payload, verified) ↦
                as_computed
                  (passes token payload (user_of mapper payload) carried verified
                    (user_of-IsDescribed mapper payload))
                  (ground arith)
          ]
    ]
  ]
    where
      as_computed :
          {f : Flow TactixUser}
          → IsGuarded req f
          → require_auth verify mapper req ≡ f
          → IsGuarded req (require_auth verify mapper req)
      as_computed g e = subst (IsGuarded req) (sym e) g

includes-user_of :
    (mapper : RoleMapper) (payload : Claims) (role : String)
    → includes role (user_of mapper payload).roles
      ≡ any (λ g. any (gives role g) mapper) (given payload.ad_groups)
unfolding user_of
includes-user_of mapper payload role = includes-resolve_roles (given payload.ad_groups) mapper role

-- A caller passes the guard of some roles exactly when, for one of these roles, a rule whose
-- pattern matches one of the groups of the token lists it; else the answer is 403.
pub require_role-user_of :
    (mapper : RoleMapper) (payload : Claims) (roles : List String)
    → require_role roles (some (user_of mapper payload)) ≡ (
        if any (λ r. any (λ g. any (gives r g) mapper) (given payload.ad_groups)) roles
        then next (user_of mapper payload)
        else answer 403 "forbidden")
unfolding require_role
require_role-user_of mapper payload roles =
    ground (arith, any_congr _ _ (includes-user_of mapper payload) roles)

split_on-bearer : (t : String) → split_on 44 (str_append "bearer," t) ≡ "bearer" ∷ split_on 44 t
unfolding split_on
split_on-bearer t = rw (
  cons-append, cons-append, cons-append, cons-append, cons-append, cons-append, cons-append,
  nil-append,
)

trim_bearer : trim "bearer" ≡ "bearer"
unfolding trim
trim_bearer = refl

offered_parts :
    (token : String)
    → Lacks 44 token
    → trim token ≡ token
    → map trim (split_on 44 (str_append "bearer," token)) ≡ "bearer" ∷ token ∷ []
offered_parts token one_part trimmed =
    rw (split_on-bearer token, split_on_of_Lacks 44 token one_part, trim_bearer, trimmed)

-- A WebSocket client that offers the protocols "bearer" and a token is taken at this token,
-- whatever its URL says, if the token is not empty, has no comma and no space at its ends.
pub extract_token_offered :
    (search_param : String → Option String) (req : Request) (token : String)
    → req.protocol ≡ some (str_append "bearer," token)
    → Lacks 44 token
    → trim token ≡ token
    → token ≢ ""
    → extract_token search_param req ≡ some token
unfolding extract_token
extract_token_offered search_param req token here one_part trimmed nonempty =
    ground (arith, offered_parts token one_part trimmed, eq_iff token "")
