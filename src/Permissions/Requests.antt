-- ===== src/Permissions/Requests.antt =====
-- services/incident-svc/src/index.ts: the requests themselves, one function each.
use tactix.Common.{
  String, Bool, true, false, not, ◌||◌, Option, none, some, List, [], ◌∷◌, ◌++◌, map, keep, find,
  first, ◌==◌, if◌then◌else◌,
}
use tactix.Json.{Json}
use tactix.Action.{query, pure, ◌>>=◌}
use tactix.Rbac.{Role, effective}
use tactix.Permissions.{
  Operation, Assignment, Grant, rejected, Reply, problem, blank, roles, permissions, assignment,
  grant, units, unanswered, Handler, select, user_assignments, user_grants, as_grant, has_name,
  or_null, property_of, required, revive, retire, same_grant, upsert,
}

module _ (suffixes : List String) (sub : String) (ad_groups : List String) where
  -- The two queries for the caller's rows, and `effective` over the first of them.
  unfoldable pub load_roles : (op code : String) → Handler (List Role)
  unfolding effective
  load_roles op code = do
    mine ← select (user_assignments op sub)
    granted ← select (user_grants op sub)
    pure (effective suffixes (record { upn = sub; ad_groups = ad_groups }) code (map as_grant mine))

  -- What `/me/effective-permissions` does with the operation.
  unfoldable pub my_roles : (code : String) → Option Operation → Handler Reply
  unfolding load_roles
  my_roles code none = pure (roles 200 [])
  my_roles code (some o) = load_roles o.operation_id code >>= (λ granted. pure (roles 200 granted))

  -- The callback of `/me/effective-permissions`; `client` is `dbClient`.
  unfoldable pub me_permissions_callback :
      (client : Bool) (operation_code : Option String) → Handler Reply
  unfolding my_roles
  me_permissions_callback client operation_code = elim operation_code [
    | none ↦ pure (problem 400 "operationCode required")
    | some code ↦
        if code == "" || not client
        then pure (problem 400 "operationCode required")
        else select (λ t. find (λ o. o.code == code) t.operations) >>= my_roles code
  ]

  -- The body of the answer, once the caller may read.
  unfoldable pub read_permissions : Operation → List Role → Handler Reply
  read_permissions o granted = do
    rows ← select (λ t. keep (λ a. a.operation_id == o.operation_id) t.assignments)
    grants ← select (λ t. keep (λ g. g.operation_id == o.operation_id) t.role_grants)
    pure (
        if has_name "ASSIGN" granted
        then permissions o rows true (some grants)
        else permissions o (keep (λ a. a.user_upn == sub) rows) false none)

  -- What four requests do with the operation: 404 without it, 403 without the named permission.
  unfoldable pub when_allowed :
      (name op : String)
      → (Operation → List Role → Handler Reply)
      → Option Operation
      → Handler Reply
  unfolding load_roles
  when_allowed name op rest none = pure (blank 404)
  when_allowed name op rest (some o) = do
    granted ← load_roles op o.code
    (if has_name name granted then rest o granted else pure (problem 403 "forbidden"))

  -- The callback of `GET /operations/:id/permissions`
  unfoldable pub get_permissions_callback : (op : String) → Handler Reply
  unfolding when_allowed read_permissions
  get_permissions_callback op =
      select (λ t. find (λ o. o.operation_id == op) t.operations)
      >>= when_allowed "READ" op read_permissions

  -- The beginning of the three requests that need ASSIGN.
  unfoldable pub with_assign : (op : String) → Handler Reply → Handler Reply
  unfolding when_allowed
  with_assign op rest =
      select (λ t. find (λ o. o.operation_id == op) t.operations)
      >>= when_allowed "ASSIGN" op (λ o granted. rest)

  -- The callback of `DELETE /operations/:id/assignments/:assignment`
  unfoldable pub delete_assignment_callback : (op assignment_id : String) → Handler Reply
  unfolding with_assign
  delete_assignment_callback op assignment_id = with_assign op (do
    done ←
        query rejected (λ t. (tt, record t { assignments = retire assignment_id op t.assignments }))
    pure (blank 204))

  module _ (column : Json → String) where
    -- What follows the search for an assignment of the user.
    unfoldable pub store_assignment :
        (id op user : String) (position name : Option String) → Option Assignment → Handler Reply
    store_assignment id op user position name (some existing) = do
      done ← query rejected (λ t. (
        tt,
        record t { assignments = revive existing.assignment_id position name t.assignments },
      ))
      row ← select (λ t. find (λ a. a.assignment_id == existing.assignment_id) t.assignments)
      pure (assignment 201 row)
    store_assignment id op user position name none = do
      let row : Assignment = record {
        assignment_id = id;
        operation_id = op;
        user_upn = user;
        position_id = position;
        alt_display_name = name;
        active = true;
        created_by_upn = sub;
      }
      done ← query rejected (λ t. (tt, record t { assignments = t.assignments ++ (row ∷ []) }))
      pure (assignment 201 (some row))

    -- `POST /operations/:id/assignments`, after the guard; a body of `none` is no JSON.
    unfoldable pub write_assignment : (id op : String) (body : Option Json) → Handler Reply
    unfolding store_assignment
    write_assignment id op body = elim (required "userUpn" body) [
      | none ↦ pure (problem 400 "userUpn required")
      | some upn ↦ do
        let user = column upn
        existing ← select (λ t. first (user_assignments op user t))
        store_assignment id op user (or_null column (property_of "positionId" body))
            (or_null column (property_of "altDisplayName" body)) existing
    ]

    -- the callback of this request
    unfoldable pub post_assignment_callback : (id op : String) (body : Option Json) → Handler Reply
    unfolding with_assign write_assignment
    post_assignment_callback id op body = with_assign op (write_assignment id op body)

    -- `POST /operations/:id/roles`, after the guard
    unfoldable pub write_role : (id op : String) (body : Option Json) → Handler Reply
    write_role id op body = elim (required "userUpn" body) [
      | none ↦ pure (problem 400 "userUpn and role required")
      | some upn ↦ elim (required "role" body) [
        | none ↦ pure (problem 400 "userUpn and role required")
        | some role ↦ do
          let user = column upn
          let row : Grant = record {
            grant_id = id;
            operation_id = op;
            user_upn = user;
            role = column role;
            created_by_upn = sub;
          }
          stored ← query rejected (λ t.
              let rows = upsert row t.role_grants in
              (find (same_grant op user (column role)) rows, record t { role_grants = rows }))
          pure (grant 201 stored)
      ]
    ]

    -- the callback of this request
    unfoldable pub post_role_callback : (id op : String) (body : Option Json) → Handler Reply
    unfolding with_assign write_role
    post_role_callback id op body = with_assign op (write_role id op body)

-- `requireAuth(req, res, callback)`: the function of packages/authz takes options and returns a
-- middleware, which nobody calls, so that the callback does not run and nothing is answered.
abbrev pub require_auth_with : (callback : Handler Reply) → Handler Reply
require_auth_with callback = pure unanswered

module _ (suffixes : List String) (sub : String) (ad_groups : List String) where
  -- `GET /me/effective-permissions`
  unfoldable pub me_permissions : (client : Bool) (operation_code : Option String) → Handler Reply
  me_permissions client operation_code =
      require_auth_with (me_permissions_callback suffixes sub ad_groups client operation_code)

  -- `GET /operations/:id/permissions`
  unfoldable pub get_permissions : (op : String) → Handler Reply
  get_permissions op = require_auth_with (get_permissions_callback suffixes sub ad_groups op)

  -- `DELETE /operations/:id/assignments/:assignment`
  unfoldable pub delete_assignment : (op assignment_id : String) → Handler Reply
  delete_assignment op assignment_id =
      require_auth_with (delete_assignment_callback suffixes sub ad_groups op assignment_id)

  module _ (column : Json → String) where
    -- `POST /operations/:id/assignments`
    unfoldable pub post_assignment : (id op : String) (body : Option Json) → Handler Reply
    post_assignment id op body =
        require_auth_with (post_assignment_callback suffixes sub ad_groups column id op body)

    -- `POST /operations/:id/roles`
    unfoldable pub post_role : (id op : String) (body : Option Json) → Handler Reply
    post_role id op body =
        require_auth_with (post_role_callback suffixes sub ad_groups column id op body)

-- `GET /operations/:id/org-units`, which no guard protects
unfoldable pub get_org_units : (op : String) → Handler Reply
get_org_units op = do
  rows ←
      select (λ t. keep (λ u. elim u.operation_id [ none ↦ false | some o ↦ o == op ]) t.org_units)
  pure (units 200 rows)
