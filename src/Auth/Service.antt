-- ===== src/Auth/Service.antt =====
-- services/auth-service/index.js: the login against a directory, and the tokens.
use tactix.Common.{
  ℕ, String, Bool, not, ◌&&◌, Option, none, some, List, [], ◌∷◌, find, first, ◌==◌, if◌then◌else◌,
}
use tactix.Json.{Json, text, member, truthy}
use tactix.Authz.{first_truthy}

-- An attribute that the directory returns, by its type.
pub record Attribute : Type 0 where
  pub type : String
  pub vals : List String

-- `entry.object.memberOf`, where the client library fills it.
pub data MemberOf : Type 0 where
  absent : MemberOf
  one : String → MemberOf
  many : List String → MemberOf

pub record Entry : Type 0 where
  pub object_name : Option String
  pub dn : Option String
  pub attributes : List Attribute
  pub member_of : MemberOf

-- The variables `userDn`, `groups` and `name` of a search.
pub record Found : Type 0 where
  pub user_dn : Option String
  pub groups : List String
  pub name : Json

abbrev pub attribute : String → Entry → Option Attribute
attribute type entry = find (λ a. a.type == type) entry.attributes

-- `entry.attributes.find((a) => a.type === 'cn')?.vals?.[0] || upn`
abbrev pub name_of : (upn : Json) → Entry → Json
name_of upn entry = elim (attribute "cn" entry) [
  | none ↦ upn
  | some a ↦ elim (first a.vals) [ none ↦ upn | some cn ↦ if cn == "" then upn else text cn ]
]

-- The groups after an entry that has some, or those from before it.
abbrev pub groups_of : Entry → List String → List String
groups_of entry before = elim (attribute "memberOf" entry) [
  | some a ↦ a.vals
  | none ↦ elim entry.member_of [
    | absent ↦ before
    | one group ↦ if group == "" then before else group ∷ []
    | many groups ↦ groups
  ]
]

-- the handler of `searchEntry`
abbrev pub take_entry : (upn : Json) → Entry → Found → Found
take_entry upn entry f = record {
  user_dn = first_truthy entry.object_name entry.dn;
  groups = groups_of entry f.groups;
  name = name_of upn entry;
}

unfoldable pub take_entries : (upn : Json) → List Entry → Found → Found
take_entries upn [] f = f
take_entries upn (entry ∷ rest) f = take_entries upn rest (take_entry upn entry f)

-- The claims that are signed.
pub record Payload : Type 0 where
  pub sub : Json
  pub name : Json
  pub ad_groups : List String
  pub iss : String
  pub aud : String

-- The claims of both tokens, but for their audience.
abbrev pub claims_for :
    (iss : String) (upn name : Json) (ad_groups : List String) (aud : String) → Payload
claims_for iss upn name ad_groups aud = record {
  sub = upn;
  name = name;
  ad_groups = ad_groups;
  iss = iss;
  aud = aud;
}

-- `expiresIn`
pub data Lifetime : Type 0 where
  minutes : ℕ → Lifetime
  days : ℕ → Lifetime

pub data Reply : Type 0 where
  session : (access refresh : String) (upn name : Json) (ad_groups : List String) → Reply
  renewed : (access : String) → Reply
  problem : (status : ℕ) → (error : String) → Reply

-- The directory: whether the service binds, what a filter finds (`none` where the search fails), and
-- whether a name binds with a password.
pub record Directory : Type 0 where
  pub serves : Bool
  pub search : String → Option (List Entry)
  pub bind : String → Json → Bool

-- `filter upn` is the template with the name put in.
module _ (directory : Directory) (filter : Json → String) where
  unfoldable pub ldap_authenticate : (upn password : Json) → Option (List String × Json)
  unfolding take_entries
  ldap_authenticate upn password =
      if not directory.serves then none else elim (directory.search (filter upn)) [
        | none ↦ none
        | some entries ↦
            let found =
              take_entries upn entries (record { user_dn = none; groups = []; name = upn }) in
            elim found.user_dn [
              | none ↦ none
              | some dn ↦
                  if not (dn == "") && directory.bind dn password
                  then some (found.groups, found.name)
                  else none
            ]
      ]

  -- `sign` is `jwt.sign` with the private key; the environment gives the rest.
  module _ (sign : Payload → Lifetime → String) (iss : String) (access_ttl refresh_ttl : ℕ) where
    -- The two tokens of a user whom the directory knows.
    abbrev pub session_for : (upn : Json) → List String × Json → Reply
    session_for upn (ad_groups, name) =
        session (sign (claims_for iss upn name ad_groups "tactix") (minutes access_ttl))
          (sign (claims_for iss upn name ad_groups "refresh") (days refresh_ttl)) upn name ad_groups

    -- `POST /login`
    unfoldable pub login : (body : Json) → Reply
    unfolding ldap_authenticate
    login body = elim (member "upn" body) [
      | none ↦ problem 400 "upn and password required"
      | some upn ↦ elim (member "password" body) [
        | none ↦ problem 400 "upn and password required"
        | some password ↦
            if truthy (some upn) && truthy (some password)
            then elim (ldap_authenticate upn password) [
              | none ↦ problem 401 "invalid credentials"
              | some user ↦ session_for upn user
            ]
            else problem 400 "upn and password required"
      ]
    ]

-- `verify audience issuer` is `jwt.verify` with these options, `none` where it throws.
module _ (sign : Payload → Lifetime → String) (verify : String → String → Json → Option Payload)
    (iss : String) (access_ttl : ℕ) where
  -- `POST /refresh`
  unfoldable pub refresh : (body : Json) → Reply
  refresh body = elim (member "refresh" body) [
    | none ↦ problem 400 "refresh required"
    | some token ↦
        if truthy (some token)
        then elim (verify "refresh" iss token) [
          | none ↦ problem 401 "invalid refresh token"
          | some p ↦ renewed (
              sign
                (record {
                  sub = p.sub;
                  name = p.name;
                  ad_groups = p.ad_groups;
                  iss = iss;
                  aud = "tactix";
                })
                (minutes access_ttl))
        ]
        else problem 400 "refresh required"
  ]
