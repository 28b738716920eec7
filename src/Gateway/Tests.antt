-- ===== src/Gateway/Tests.antt =====
-- The theorems on the gateway at concrete requests.
use Prim.Native.String.{◌++◌ as str_append}
use tactix.Common.{
  ◌≡◌, ◌≢◌, ◌↔◌, ◌⊎◌, refl, String, Bool, ◌||◌, Option, none, some, [], ◌==◌, if◌then◌else◌,
  strip_prefix, split_on, trim,
}
use tactix.Authz.{
  Claims, Request, TactixUser, next, answer, user_of, resolve_roles, resolve_from, require_auth,
}
use tactix.Authz
use tactix.Realtime.Server.{accepted, is_rt, path_of}
use tactix.Realtime.Server
use tactix.Gateway.{proxied, answered, auth_middleware, gate, serve, extract_token, upgrade}
use tactix.Gateway.Guarded.{serve-require_auth, upgrade-relayed}

gateway : Unit {0}
unfolding auth_middleware gate serve extract_token upgrade Server.upgrade path_of
    Authz.extract_token split_on trim require_auth user_of resolve_roles resolve_from strip_prefix
gateway = tt

abbrev is_health : String → Bool
is_health path = path == "/health"

abbrev mounted : String → Bool
mounted path = path == "/api/incidents" || path == "/API/incidents"

abbrev claims : Claims
claims = record { upn = none; sub = some "ann"; name = none; ad_groups = none }

abbrev verify : String → Option Claims
verify token = if token == "t1" then some claims else none

abbrev request : Request
request = record { authorization = some "Bearer t1"; protocol = some "bearer, t1"; url = "/rt?x=1" }

abbrev anonymous : Request
anonymous = record { authorization = none; protocol = none; url = "/API/incidents" }

abbrev no_token : String → Option String
no_token url = none

serve-require_auth_example :
    ((serve verify [] is_health mounted (str_append "/api/" "incidents") request
        ≡ proxied (some (user_of [] claims)))
      ↔ (require_auth verify [] request ≡ next (user_of [] claims)))
    × (serve verify [] is_health mounted (str_append "/api/" "incidents") request ≢ proxied none)
    × (((found : TactixUser) × (require_auth verify [] request ≡ next found))
        ⊎ ((require_auth verify [] request ≡ answer 401 "unauthorized")
            × (serve verify [] is_health mounted (str_append "/api/" "incidents") request
                ≡ answered 401 "unauthorized")))
serve-require_auth_example =
    serve-require_auth verify [] is_health mounted "incidents" request (user_of [] claims) refl refl

unguarded_test : serve verify [] is_health mounted "/API/incidents" anonymous ≡ proxied none
unfolding gateway
unguarded_test = refl

upgrade-relayed_example : Server.upgrade no_token verify [] request ≡ accepted (user_of [] claims)
unfolding gateway
upgrade-relayed_example = upgrade-relayed no_token verify [] request (user_of [] claims) refl
