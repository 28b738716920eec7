-- ===== src/Authz/Tests.antt =====
-- The theorems on packages/authz/src/index.ts at concrete tokens, and runs of its guards.
use Prim.Native.String.{◌++◌ as str_append}
use tactix.Common.{
  String, ◌≡◌, ◌≢◌, refl, true, Option, none, some, [], ◌∷◌, any, includes, strip_prefix, trim,
  split_on, arith, eq_iff, ◌==◌, if◌then◌else◌,
}
use tactix.Authz.{
  Claims, RoleMapper, Request, next, answer, given, user_of, resolve_roles, require_auth,
  require_role, extract_token, ws_auth,
}
use tactix.Authz.Mapping.{gives, includes-resolve_roles, IsDistinct, resolve_roles-IsDistinct}
use tactix.Authz.Guards.{
  IsGuarded, require_auth-IsGuarded, require_role-user_of, extract_token_offered,
}

guards : Unit {0}
unfolding require_auth require_role ws_auth extract_token user_of resolve_roles strip_prefix trim
    split_on
guards = tt

abbrev mapper : RoleMapper
mapper =
    record { test = λ g. g == "OPX_DO"; roles = "DO" ∷ "EDITOR" ∷ [] }
    ∷ record { test = λ g. true; roles = "EDITOR" ∷ [] }
    ∷ []

abbrev alice : Claims
alice = record {
  upn = some "alice";
  sub = none;
  name = none;
  ad_groups = some ("OPX_DO" ∷ "X" ∷ []);
}

abbrev verify : String → Option Claims
verify token = if token == "good" then some alice else none

abbrev ask : Option String → Option String → Request
ask header proto = record { authorization = header; protocol = proto; url = "/rt" }

abbrev no_param : String → Option String
no_param url = none

alice_user : user_of mapper alice ≡ record {
  upn = some "alice";
  name = none;
  ad_groups = "OPX_DO" ∷ "X" ∷ [];
  roles = "DO" ∷ "EDITOR" ∷ [];
}
unfolding guards
alice_user = refl

require_auth_tests :
    (require_auth verify mapper (ask none none) ≡ answer 401 "unauthorized")
    × (require_auth verify mapper (ask (some "Basic good") none) ≡ answer 401 "unauthorized")
    × (require_auth verify mapper (ask (some "Bearer bad") none) ≡ answer 401 "unauthorized")
    × (require_auth verify mapper (ask (some "Bearer good") none) ≡ next (user_of mapper alice))
    × (ws_auth no_param verify mapper (ask none (some "bearer, good"))
        ≡ next (user_of mapper alice))
    × (ws_auth no_param verify mapper (ask none none) ≡ answer 1008 "unauthorized")
unfolding guards
require_auth_tests = (refl, refl, refl, refl, refl, refl)

includes-resolve_roles_test :
    includes "DO" (resolve_roles ("OPX_DO" ∷ []) mapper)
    ≡ any (λ g. any (gives "DO" g) mapper) ("OPX_DO" ∷ [])
includes-resolve_roles_test = includes-resolve_roles ("OPX_DO" ∷ []) mapper "DO"

resolve_roles-IsDistinct_test : IsDistinct (resolve_roles ("OPX_DO" ∷ "X" ∷ []) mapper)
resolve_roles-IsDistinct_test = resolve_roles-IsDistinct ("OPX_DO" ∷ "X" ∷ []) mapper

require_auth-IsGuarded_example :
    IsGuarded verify mapper
      (ask (some "Bearer good") none)
      (require_auth verify mapper (ask (some "Bearer good") none))
require_auth-IsGuarded_example =
    require_auth-IsGuarded verify mapper (ask (some "Bearer good") none)

require_role-user_of_test : require_role ("DO" ∷ []) (some (user_of mapper alice)) ≡ (
    if any (λ r. any (λ g. any (gives r g) mapper) (given alice.ad_groups)) ("DO" ∷ [])
    then next (user_of mapper alice)
    else answer 403 "forbidden")
require_role-user_of_test = require_role-user_of mapper alice ("DO" ∷ [])

trim_good : trim "good" ≡ "good"
unfolding guards
trim_good = refl

good_nonempty : ◌≢◌ {A = String} "good" ""
good_nonempty = ground (arith, eq_iff "good" "")

extract_token_offered_test :
    extract_token no_param (ask none (some (str_append "bearer," "good"))) ≡ some "good"
extract_token_offered_test =
    extract_token_offered no_param (ask none (some (str_append "bearer," "good"))) "good" refl
      (refl, (refl, (refl, (refl, tt)))) trim_good good_nonempty
