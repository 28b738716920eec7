-- ===== src/Authz/Mapping.antt =====
-- `resolveRoles` of packages/authz/src/index.ts: which roles it yields, and that it yields each once.
use tactix.Common.{
  String, ◌≡◌, refl, Bool, false, ◌||◌, ◌&&◌, List, [], ◌∷◌, ◌++◌, any, includes, arith, any-append,
  eq_iff, ◌==◌, Bool-cases, inl, inr,
}
use tactix.Authz.{Rule, RoleMapper, add, add_all, apply_rules, resolve_from, resolve_roles}

includes-add :
    (acc : List String) (r s : String)
    → includes s (add acc r) ≡ (includes s acc || includes s (r ∷ []))
includes-add acc r s = ground (arith, any-append (λ x. x == s) acc (r ∷ []), eq_iff r s)

includes-add_all :
    (acc rs : List String) (s : String)
    → includes s (add_all acc rs) ≡ (includes s acc || includes s rs)
unfolding add_all
includes-add_all acc [] s = ground arith
includes-add_all acc (r ∷ rs) s =
    ground (arith, includes-add_all (add acc r) rs s, includes-add acc r s)

-- A rule gives a role to a group.
abbrev pub gives : String → String → Rule → Bool
gives s g rule = rule.test g && includes s rule.roles

includes-apply_rules :
    (g : String) (rules : RoleMapper) (acc : List String) (s : String)
    → includes s (apply_rules g rules acc) ≡ (includes s acc || any (gives s g) rules)
unfolding apply_rules
includes-apply_rules g [] acc s = ground arith
includes-apply_rules g (rule ∷ rules) acc s = elim (Bool-cases (rule.test g)) [
  | inl fits ↦ rw fits (
      ground (
        arith,
        includes-apply_rules g rules (add_all acc rule.roles) s,
        includes-add_all acc rule.roles s,
      ))
  | inr misses ↦ rw misses (ground (arith, includes-apply_rules g rules acc s))
]

includes-resolve_from :
    (mapper : RoleMapper) (groups acc : List String) (s : String)
    → includes s (resolve_from mapper groups acc)
      ≡ (includes s acc || any (λ g. any (gives s g) mapper) groups)
unfolding resolve_from
includes-resolve_from mapper [] acc s = ground arith
includes-resolve_from mapper (g ∷ groups) acc s = ground (
  arith,
  includes-resolve_from mapper groups (apply_rules g mapper acc) s,
  includes-apply_rules g mapper acc s,
)

-- A user has a role exactly when some rule whose pattern matches one of the groups lists it.
pub includes-resolve_roles :
    (ad_groups : List String) (mapper : RoleMapper) (role : String)
    → includes role (resolve_roles ad_groups mapper)
      ≡ any (λ g. any (gives role g) mapper) ad_groups
unfolding resolve_roles
includes-resolve_roles ad_groups mapper role = includes-resolve_from mapper ad_groups [] role

-- No text occurs twice.
abbrev pub IsDistinct : List String → Type 0
IsDistinct [] = Unit
IsDistinct (x ∷ xs) = (includes x xs ≡ false) × IsDistinct xs

IsDistinct-concat :
    (xs : List String) (r : String)
    → IsDistinct xs
    → includes r xs ≡ false
    → IsDistinct (xs ++ r ∷ [])
IsDistinct-concat [] r d h = (refl, tt)
IsDistinct-concat (x ∷ xs) r d h =
    ground
      (arith, any-append (λ y. y == x) xs (r ∷ []), eq_iff r x, eq_iff x r, IsDistinct-concat xs r)

add-IsDistinct : (acc : List String) (r : String) → IsDistinct acc → IsDistinct (add acc r)
add-IsDistinct acc r d = ground (arith, IsDistinct-concat acc r)

add_all-IsDistinct : (acc rs : List String) → IsDistinct acc → IsDistinct (add_all acc rs)
unfolding add_all
add_all-IsDistinct acc [] d = d
add_all-IsDistinct acc (r ∷ rs) d = add_all-IsDistinct (add acc r) rs (add-IsDistinct acc r d)

apply_rules-IsDistinct :
    (g : String) (rules : RoleMapper) (acc : List String)
    → IsDistinct acc
    → IsDistinct (apply_rules g rules acc)
unfolding apply_rules
apply_rules-IsDistinct g [] acc d = d
apply_rules-IsDistinct g (rule ∷ rules) acc d = elim (Bool-cases (rule.test g)) [
  | inl fits ↦ rw fits (
      apply_rules-IsDistinct g rules (add_all acc rule.roles) (add_all-IsDistinct acc rule.roles d))
  | inr misses ↦ rw misses (apply_rules-IsDistinct g rules acc d)
]

resolve_from-IsDistinct :
    (mapper : RoleMapper) (groups acc : List String)
    → IsDistinct acc
    → IsDistinct (resolve_from mapper groups acc)
unfolding resolve_from
resolve_from-IsDistinct mapper [] acc d = d
resolve_from-IsDistinct mapper (g ∷ groups) acc d =
    resolve_from-IsDistinct mapper groups (apply_rules g mapper acc)
      (apply_rules-IsDistinct g mapper acc d)

-- Whatever the groups and the rules, no role is listed twice.
pub resolve_roles-IsDistinct :
    (ad_groups : List String) (mapper : RoleMapper) → IsDistinct (resolve_roles ad_groups mapper)
unfolding resolve_roles
resolve_roles-IsDistinct ad_groups mapper = resolve_from-IsDistinct mapper ad_groups [] tt
