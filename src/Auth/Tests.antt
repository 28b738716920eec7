-- ===== src/Auth/Tests.antt =====
-- The theorems on logins and tokens at a concrete directory.
use tactix.Common.{
  ◌≡◌, refl, String, Bool, true, false, Option, none, some, [], ◌∷◌, ◌==◌, arith, eq_iff,
  if◌then◌else◌, strip_prefix,
}
use tactix.Json.{Json, Members, object, with_member, text}
use tactix.Authz.{Claims, Request, next, answer, user_of, resolve_roles, resolve_from}
use tactix.Authz
use tactix.Auth.{require_auth, require_role}
use tactix.Auth.Service
use tactix.Auth.Service.{
  Attribute, Entry, absent, take_entries, Payload, Lifetime, minutes, session, renewed, problem,
  Directory, ldap_authenticate, claims_for, login, refresh,
}
use tactix.Auth.Login.{IsLogin, login-IsLogin, refresh-login}

auth : Unit {0}
unfolding require_auth require_role take_entries ldap_authenticate login refresh Authz.require_auth
    user_of resolve_roles resolve_from strip_prefix
auth = tt

abbrev ann : Entry
ann = record {
  object_name = some "cn=ann";
  dn = none;
  attributes =
      record { type = "cn"; vals = "Ann" ∷ [] }
      ∷ record { type = "memberOf"; vals = "G1" ∷ [] }
      ∷ [];
  member_of = absent;
}

abbrev is_secret : Json → Bool
is_secret (text s) = s == "secret"
is_secret _ = false

abbrev directory : Directory
directory = record {
  serves = true;
  search = λ filter. if filter == "ann" then some (ann ∷ []) else some [];
  bind = λ dn password. if dn == "cn=ann" then is_secret password else false;
}

abbrev filter : Json → String
filter (text s) = s
filter _ = ""

abbrev sign : Payload → Lifetime → String
sign p (minutes n) = "A"
sign p _ = "R"

abbrev body_of : String → Json
body_of password =
    object (with_member "upn" (text "ann") (with_member "password" (text password) Members.done))

abbrev renewal : Json
renewal = object (with_member "refresh" (text "R") Members.done)

abbrev ann_claims : Payload
ann_claims = claims_for "tactix-auth" (text "ann") (text "Ann") ("G1" ∷ []) "refresh"

abbrev verify : String → String → Json → Option Payload
verify audience issuer token =
    if filter token == "R" then (if audience == "refresh" then some ann_claims else none) else none

abbrev claims : Claims
claims = record { upn = none; sub = some "ann"; name = some "Ann"; ad_groups = some ("G1" ∷ []) }

abbrev log_in : String → Service.Reply
log_in password = login directory filter sign "tactix-auth" 15 7 (body_of password)

refused_tests :
    (log_in "wrong" ≡ problem 401 "invalid credentials")
    × (log_in "" ≡ problem 400 "upn and password required")
unfolding auth
refused_tests = (refl, refl)

logged : log_in "secret" ≡ session "A" "R" (text "ann") (text "Ann") ("G1" ∷ [])
unfolding auth
logged = refl

login-IsLogin_example :
    IsLogin directory filter sign "tactix-auth" 15 7
      (body_of "secret")
      (text "ann")
      (text "Ann")
      "A"
      "R"
      ("G1" ∷ [])
login-IsLogin_example =
    login-IsLogin directory filter sign "tactix-auth" 15 7 (body_of "secret") (text "ann")
      (text "Ann") "A" "R" ("G1" ∷ []) logged

refresh-login_example : refresh sign verify "tactix-auth" 15 renewal ≡ renewed "A"
refresh-login_example =
    refresh-login directory filter sign "tactix-auth" 15 7 verify (body_of "secret") (text "ann")
      (text "Ann") "A" "R" ("G1" ∷ []) renewal logged refl (λ h. ground (arith, eq_iff "R" "")) refl

abbrev request : Request
request = record { authorization = none; protocol = none; url = "" }

-- The tokens of this service have no claim `roles`.
no_roles_test :
    require_role
      (λ token. some (record { sub = some "ann"; roles = none; ad_groups = some ("G1" ∷ []) }))
      ("ADMIN" ∷ "G1" ∷ [])
      (record request { authorization = some "Bearer A" })
    ≡ answer 403 "forbidden"
unfolding auth
no_roles_test = refl
