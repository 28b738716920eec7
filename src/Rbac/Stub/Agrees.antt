-- ===== src/Rbac/Stub/Agrees.antt =====
-- services/rbac/src/index.ts against services/incident-svc/src/rbac/effective.ts: the same users may
-- take the same actions.
use Prim.Native.Nat.{max}
use Prim.Native.String.{◌++◌ as str_append}
use text.Mathlib.TextLemmas.{append_assoc, append_cancel_left}
use tactix.Common.{
  ℕ, String, ◌≡◌, refl, sym, ◌∙◌, ap, Bool, true, false, Option, none, some, List, [], ◌∷◌, any,
  includes, strip_prefix, strip_prefix-append, strip_prefix_sound, leb, ◌==◌, eq_iff, eq_refl,
  arith, Option-cases, inl, inr, any_congr, any-false, any_swap,
}
use tactix.Rbac.{
  Role, viewer, editor, imo, Action, read, write, assign, same_role, has, add, RoleGrantRow,
  role_name, group_name, Caller, effective,
}
use tactix.Rbac
use tactix.Rbac.Level.{rank, level, required, group_level, grants_level, can-effective}
use tactix.Rbac.Stub.{
  EffectiveInput, suffixes_of, is_read_group, has_read_group, overlay, highest_from,
  compute_effective, can,
}

is_read_group_lem :
    (p : String) (suffixes : List String) (g : String)
    → is_read_group p suffixes g ≡ any (λ s. g == str_append p s) suffixes
unfolding is_read_group
is_read_group_lem p suffixes g = elim (Option-cases (strip_prefix p g)) [
  | inl no_prefix ↦
      rw (no_prefix, is_read_group)
        (sym (
          any_congr _ (λ s. false)
            (λ s. ground (arith, eq_iff g (str_append p s), strip_prefix-append p s)) suffixes
          ∙ any-false suffixes))
  | inr (t, found) ↦
      rw (found, is_read_group)
        (any_congr _ _
          (λ s. ground (
            arith,
            eq_iff g (str_append p s),
            eq_iff s t,
            append_cancel_left p t s,
            strip_prefix_sound p g t found,
          ))
          suffixes)
]

-- The test on the groups is that of the incident service.
has_read_group_lem :
    (input : EffectiveInput)
    → has_read_group input
      ≡ any
          (λ suffix. includes (group_name input.operation_code suffix) input.ad_groups)
          (suffixes_of input.read_suffixes)
unfolding has_read_group
has_read_group_lem input =
    let p = str_append input.operation_code "_" in
    let suffixes = suffixes_of input.read_suffixes in
    any_congr _ _ (is_read_group_lem p suffixes) input.ad_groups
    ∙ any_swap (λ g s. g == str_append p s) input.ad_groups suffixes
    ∙ any_congr _ _
        (λ s. ap (λ n. includes n input.ad_groups) (append_assoc input.operation_code "_" s))
        suffixes

-- The level of the grant that the caller passes in.
abbrev pub given_rank : Option Role → ℕ
given_rank none = 0
given_rank (some r) = rank r

abbrev pub group_rank : Bool → ℕ
group_rank true = 1
group_rank false = 0

-- The roles that `compute_effective` collects, from the outcome of its two tests.
abbrev collected : Bool → Option Role → List Role
collected true grant = overlay (add [] viewer) grant
collected false grant = overlay [] grant

can-collected :
    (b : Bool) (grant : Option Role) (a : Action)
    → can (collected b grant) a ≡ leb (required a) (max (group_rank b) (given_rank grant))
unfolding can add has
can-collected true none read = refl
can-collected true none _ = refl
can-collected false none read = refl
can-collected false none _ = refl
can-collected true (some g) a = ground arith
can-collected false (some g) a = ground arith

highest-collected :
    (b : Bool) (grant : Option Role)
    → rank (highest_from viewer (collected b grant)) ≡ max 1 (max (group_rank b) (given_rank grant))
unfolding highest_from add has
highest-collected true none = refl
highest-collected false none = refl
highest-collected true (some g) = ground arith
highest-collected false (some g) = ground arith

-- The caller and the grants as the incident service takes them.
abbrev pub caller_of : EffectiveInput → Caller
caller_of input = record { upn = input.upn; ad_groups = input.ad_groups }

abbrev pub rows_of : String → Option Role → List RoleGrantRow
rows_of upn none = []
rows_of upn (some r) = record { user_upn = upn; role = some (role_name r) } ∷ []

grants_level-rows_of :
    (upn : String) (grant : Option Role) → grants_level upn (rows_of upn grant) ≡ given_rank grant
unfolding grants_level
grants_level-rows_of upn none = refl
grants_level-rows_of upn (some viewer) = rw (eq_refl upn)
grants_level-rows_of upn (some _) = rw (eq_refl upn)

level-rows_of :
    (input : EffectiveInput)
    → level
        (suffixes_of input.read_suffixes)
        (caller_of input)
        input.operation_code
        (rows_of input.upn input.db_grant_role)
      ≡ max (group_rank (has_read_group input)) (given_rank input.db_grant_role)
unfolding level group_level grants_level
level-rows_of input =
    ground (arith, has_read_group_lem input, grants_level-rows_of input.upn input.db_grant_role)

-- For the same user, read groups and grant, the stub and the incident service allow the same
-- actions, though one keeps only the granted role and the other adds every role below it.
pub can-compute_effective :
    (input : EffectiveInput) (a : Action)
    → can (compute_effective input).roles a
      ≡ Rbac.can
          (effective
            (suffixes_of input.read_suffixes)
            (caller_of input)
            input.operation_code
            (rows_of input.upn input.db_grant_role))
          a
unfolding compute_effective
can-compute_effective input a = ground (
  arith,
  can-collected (has_read_group input) input.db_grant_role a,
  level-rows_of input,
  (can-effective (suffixes_of input.read_suffixes) (caller_of input) input.operation_code
      (rows_of input.upn input.db_grant_role) a).0,
)

-- The highest role is that of the user's level; a user with no authority at all is reported as
-- VIEWER too.
pub highest-compute_effective :
    (input : EffectiveInput)
    → rank (compute_effective input).highest
      ≡ max 1 (
          level
            (suffixes_of input.read_suffixes)
            (caller_of input)
            input.operation_code
            (rows_of input.upn input.db_grant_role))
unfolding compute_effective
highest-compute_effective input =
    ground
      (arith, highest-collected (has_read_group input) input.db_grant_role, level-rows_of input)
