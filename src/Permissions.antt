-- ===== src/Permissions.antt =====
-- services/incident-svc/src/index.ts: the requests on the permissions, assignments and roles of an
-- operation. Each is a call of `requireAuth` with a callback; the callbacks are functions of their
-- own. `sub` and `ad_groups` are those of `req.user`; `id` is the drawn UUID, and `column` is
-- the text that a value of a body has in a column.
pub mod Requests
pub mod Refused
pub mod Checked
pub mod Tests
use tactix.Common.{
  String, ◌≡◌, Bool, true, false, not, ◌&&◌, ◌||◌, Option, none, some, List, [], ◌∷◌, ◌++◌, map,
  keep, find, first, any, ◌==◌, truthy, if◌then◌else◌, ℕ,
}
use tactix.Json
use tactix.Json.{Json, member}
use tactix.Action.{Action, Db, query, pure, ◌>>=◌, ◌>>◌}
use tactix.Rbac.{Role, RoleGrantRow, role_name, effective}

pub record Operation : Type 0 where
  pub operation_id : String
  pub code : String
  pub title : String

pub record Assignment : Type 0 where
  pub assignment_id : String
  pub operation_id : String
  pub user_upn : String
  pub position_id : Option String
  pub alt_display_name : Option String
  pub active : Bool
  pub created_by_upn : String

pub record Grant : Type 0 where
  pub grant_id : String
  pub operation_id : String
  pub user_upn : String
  pub role : String
  pub created_by_upn : String

pub record OrgUnit : Type 0 where
  pub org_unit_id : String
  pub operation_id : Option String
  pub scope : String
  pub unit_name : String
  pub xmpp_jid : Option String

pub record Tables : Type 0 where
  pub operations : List Operation
  pub assignments : List Assignment
  pub role_grants : List Grant
  pub org_units : List OrgUnit

-- A rejected query: the request gets no answer.
pub data Rejected : Type 0 where
  rejected : Rejected

-- The answers. `role_grants` is `none` where the body has no such member.
pub data Reply : Type 0 where
  problem : (status : ℕ) → (error : String) → Reply
  blank : (status : ℕ) → Reply
  roles : (status : ℕ) → List Role → Reply
  permissions :
      (operation : Operation) (assignments : List Assignment) (can_assign : Bool)
      (role_grants : Option (List Grant))
      → Reply
  assignment : (status : ℕ) → Option Assignment → Reply
  grant : (status : ℕ) → Option Grant → Reply
  units : (status : ℕ) → List OrgUnit → Reply
  -- nothing, while the client waits
  unanswered : Reply

abbrev pub Handler : Type 0 → Type 0
Handler A = Action (Db Tables (Unit {0})) Rejected A

-- A SELECT.
abbrev pub select : {A : Type 0} → (Tables → A) → Handler A
select f = query rejected (λ t. (f t, t))

abbrev pub user_assignments : (op user : String) → Tables → List Assignment
user_assignments op user t = keep (λ a. a.operation_id == op && a.user_upn == user) t.assignments

abbrev pub user_grants : (op user : String) → Tables → List Grant
user_grants op user t = keep (λ g. g.operation_id == op && g.user_upn == user) t.role_grants

-- A row of assignments where `effective` reads grants: it has no column `role`.
abbrev pub as_grant : Assignment → RoleGrantRow
as_grant a = record { user_upn = a.user_upn; role = none }

-- `perms.roles.has(name)`
abbrev pub has_name : String → List Role → Bool
has_name name granted = any (λ r. role_name r == name) granted

-- `body.key || null`
abbrev pub or_null : (Json → String) → Option Json → Option String
or_null column none = none
or_null column (some v) = if Json.truthy (some v) then some (column v) else none

-- `body.key`, of a body that was read
abbrev pub property_of : String → Option Json → Option Json
property_of key none = none
property_of key (some body) = member key body

-- A member of the body that the handler requires.
abbrev pub required : String → Option Json → Option Json
required key none = none
required key (some body) =
    let v = member key body in if Json.truthy (some body) && Json.truthy v then v else none

-- The statement that revives an assignment.
abbrev pub revive :
    (id : String) (position name : Option String) → List Assignment → List Assignment
revive id position name rows =
    map
      (λ a.
        if a.assignment_id == id
        then record a { position_id = position; alt_display_name = name; active = true }
        else a)
      rows

abbrev pub retire : (id op : String) → List Assignment → List Assignment
retire id op rows =
    map
      (λ a.
        if a.assignment_id == id && a.operation_id == op then record a { active = false } else a)
      rows

-- The conflict that the INSERT of a grant looks for.
abbrev pub same_grant : (op user role : String) → Grant → Bool
same_grant op user role g = g.operation_id == op && g.user_upn == user && g.role == role

-- INSERT … ON CONFLICT (operation_id, user_upn, role) DO UPDATE
abbrev pub upsert : Grant → List Grant → List Grant
upsert g rows =
    if any (same_grant g.operation_id g.user_upn g.role) rows
    then map
        (λ r.
          if same_grant g.operation_id g.user_upn g.role r
          then record r { created_by_upn = g.created_by_upn }
          else r)
        rows
    else rows ++ (g ∷ [])
