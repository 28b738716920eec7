-- ===== src/Rbac/Level.antt =====
-- services/incident-svc/src/rbac/effective.ts against docs/RBAC.md: one level per user, the highest
-- of the sources of authority, decides every action.
use Prim.Native.Nat.{max}
use tactix.Common.{
  ℕ, String, ◌≡◌, ◌∙◌, refl, true, false, ◌||◌, Option, none, some, List, [], ◌∷◌, any, includes,
  leb, ◌==◌, arith, if◌then◌else◌, any-append, Bool-cases, inl, inr,
}
use tactix.Rbac.{
  Role, viewer, editor, imo, Action, read, write, assign, same_role, has, add, RoleGrantRow,
  escalate, group_name, Caller, from_groups, from_grants, effective, can,
}

-- ADMIN > IMO > EDITOR > VIEWER; 0 is no authority.
abbrev pub rank : Role → ℕ
rank viewer = 1
rank editor = 2
rank imo = 3
rank Role.admin = 4

-- The level of a grant's text.
unfoldable pub grant_level : Option String → ℕ
grant_level none = 0
grant_level (some role) =
    if role == "ADMIN"
    then 4
    else if role == "IMO"
    then 3
    else if role == "EDITOR"
    then 2
    else if role == "VIEWER"
    then 1
    else 0

-- VIEWER for a member of a read group of the operation.
unfoldable pub group_level : List String → String → List String → ℕ
group_level groups op suffixes =
    if any (λ suffix. includes (group_name op suffix) groups) suffixes then 1 else 0

-- The highest grant of the user.
unfoldable pub grants_level : String → List RoleGrantRow → ℕ
unfolding grant_level
grants_level upn [] = 0
grants_level upn (g ∷ gs) =
    max (if g.user_upn == upn then grant_level g.role else 0) (grants_level upn gs)

-- The level that the document asks of an action.
abbrev pub required : Action → ℕ
required read = 1
required write = 2
required assign = 3
required Action.admin = 4

-- The set holds exactly the roles up to a level.
abbrev pub UpTo : List Role → ℕ → Type 0
UpTo roles level = (r : Role) → has roles r ≡ leb (rank r) level

same_role_sound : (x r : Role) → same_role x r ≡ true → x ≡ r
same_role_sound viewer viewer h = refl
same_role_sound editor editor h = refl
same_role_sound imo imo h = refl
same_role_sound Role.admin Role.admin h = refl
same_role_sound _ _ h = cc

pub has-add :
    (roles : List Role) (x r : Role) → has (add roles x) r ≡ (has roles r || same_role x r)
unfolding has add
has-add roles x r =
    ground (arith, any-append (λ y. same_role y r) roles (x ∷ []), same_role_sound x r)

has-escalate :
    (roles : List Role) (role : Option String) (r : Role)
    → has (escalate roles role) r ≡ (has roles r || leb (rank r) (grant_level role))
unfolding escalate grant_level
has-escalate roles none r = ground arith
has-escalate roles (some role) r = ground (
  arith,
  has-add roles Role.admin r,
  has-add (add roles Role.admin) imo r,
  has-add (add (add roles Role.admin) imo) editor r,
  has-add (add (add (add roles Role.admin) imo) editor) viewer r,
  has-add roles imo r,
  has-add (add roles imo) editor r,
  has-add (add (add roles imo) editor) viewer r,
  has-add roles editor r,
  has-add (add roles editor) viewer r,
  has-add roles viewer r,
)

escalate-UpTo :
    (roles : List Role) (role : Option String) (level : ℕ)
    → UpTo roles level
    → UpTo (escalate roles role) (max level (grant_level role))
escalate-UpTo roles role level h r = ground (arith, h r, has-escalate roles role r)

pub empty-UpTo : UpTo [] 0
unfolding has
empty-UpTo viewer = refl
empty-UpTo _ = refl

from_groups-UpTo :
    (groups : List String) (op : String) (suffixes : List String) (roles : List Role) (level : ℕ)
    → UpTo roles level
    → UpTo (from_groups groups op suffixes roles) (max level (group_level groups op suffixes))
unfolding from_groups group_level grant_level
from_groups-UpTo groups op [] roles level h r = ground (arith, h r)
from_groups-UpTo groups op (suffix ∷ rest) roles level h r = ground (
  arith,
  from_groups-UpTo groups op rest roles level h r,
  escalate-UpTo roles (some "VIEWER") level h r,
)

from_grants-UpTo :
    (upn : String) (gs : List RoleGrantRow) (roles : List Role) (level : ℕ)
    → UpTo roles level
    → UpTo (from_grants upn gs roles) (max level (grants_level upn gs))
unfolding from_grants grants_level
from_grants-UpTo upn [] roles level h r = ground (arith, h r)
from_grants-UpTo upn (g ∷ gs) roles level h r = elim (Bool-cases (g.user_upn == upn)) [
  | inl mine ↦ rw mine (
      ground (
        arith,
        from_grants-UpTo upn gs (escalate roles g.role) (max level (grant_level g.role))
            (escalate-UpTo roles g.role level h) r,
      ))
  | inr other ↦ rw other (ground (arith, from_grants-UpTo upn gs roles level h r))
]

-- The level of a caller in an operation: the highest of the read groups and the grants.
unfoldable pub level : List String → Caller → String → List RoleGrantRow → ℕ
unfolding group_level grants_level
level suffixes user op gs = max (group_level user.ad_groups op suffixes) (grants_level user.upn gs)

pub effective-UpTo :
    (suffixes : List String) (user : Caller) (op : String) (gs : List RoleGrantRow)
    → UpTo (effective suffixes user op gs) (level suffixes user op gs)
unfolding effective level
effective-UpTo suffixes user op gs r =
    let base = from_groups user.ad_groups op suffixes [] in
    let start = from_groups-UpTo user.ad_groups op suffixes [] 0 empty-UpTo in
    ground (
      arith,
      from_grants-UpTo user.upn gs base (max 0 (group_level user.ad_groups op suffixes)) start r,
    )

pub can-UpTo :
    (roles : List Role) (n : ℕ) (action : Action)
    → UpTo roles n
    → can roles action ≡ leb (required action) n
unfolding can
can-UpTo roles n read h = ground (arith, h viewer, h editor, h imo, h Role.admin)
can-UpTo roles n _ h = ground (arith, h viewer, h editor, h imo, h Role.admin)

group_level_bound :
    (groups : List String) (op : String) (suffixes : List String)
    → leb 3 (group_level groups op suffixes) ≡ false
unfolding group_level
group_level_bound groups op suffixes = ground arith

level-assign :
    (suffixes : List String) (user : Caller) (op : String) (gs : List RoleGrantRow)
    → leb 3 (level suffixes user op gs) ≡ leb 3 (grants_level user.upn gs)
unfolding level
level-assign suffixes user op gs = ground (arith, group_level_bound user.ad_groups op suffixes)

-- An action is allowed exactly when the level of the caller, the highest of the read groups and the
-- grants, reaches the level that docs/RBAC.md asks of the action under "Effective permission
-- evaluation". In particular assigning asks for a grant of IMO or ADMIN: no group of the token, the
-- group `<operation>_IMO` of the same document included, gives it without one.
pub can-effective :
    (suffixes : List String) (user : Caller) (op : String) (gs : List RoleGrantRow)
    (action : Action)
    → (can (effective suffixes user op gs) action
        ≡ leb (required action) (level suffixes user op gs))
      × (can (effective suffixes user op gs) assign ≡ leb 3 (grants_level user.upn gs))
can-effective suffixes user op gs action =
    let roles = effective suffixes user op gs in
    let at_level = effective-UpTo suffixes user op gs in
    (
      can-UpTo roles (level suffixes user op gs) action at_level,
      can-UpTo roles (level suffixes user op gs) assign at_level ∙ level-assign suffixes user op gs,
    )
