-- ===== src/Schedule/Service/Active.antt =====
-- services/schedule.service.ts: listActiveAt, which groups the active shifts by role. An object with
-- the roles as keys is a list of pairs, in the order of insertion; `inherited` says which names every
-- object inherits, for which `roles[r.role]` is a function without a push.
use tactix.Common.{
  ℕ, String, ◌≡◌, refl, sym, ◌∙◌, ap, Bool, not, Option, some, List, [], ◌∷◌, ◌++◌, map, any, keep,
  ◌==◌, eq_iff, if◌then◌else◌, Bool-cases, inl, inr, arith,
}
use tactix.Action.{query, pure, ◌>>=◌, ◌>>◌, require, ok}
use tactix.Action.Yields.{Yields, Yields-query, Yields-require, Yields-pure}
use tactix.Schedule.{Tables}
use tactix.Schedule.Repo.{ActiveRow, list_active_at}
use tactix.Schedule.Service.{Schedule, rejected, Handler, select, or_rejected, type_error}

-- What `listActiveAt` shows of a shift.
pub record ActiveEntry : Type 0 where
  pub user_upn : String
  pub display_name : Option String
  pub shift_id : String
  pub ends_at : ℕ

abbrev pub entry_of : ActiveRow → ActiveEntry
entry_of r = record {
  user_upn = r.user_upn;
  display_name = r.display_name;
  shift_id = r.shift_id;
  ends_at = r.ends_at;
}

abbrev pub Roles : Type 0
Roles = List (String × List ActiveEntry)

-- `if (!roles[r.role]) roles[r.role] = []; roles[r.role].push(…)`
unfoldable pub push : String → ActiveEntry → Roles → Roles
push role e [] = (role, e ∷ []) ∷ []
push role e ((name, es) ∷ rest) =
    let later = push role e rest in
    if name == role then (name, es ++ (e ∷ [])) ∷ rest else (name, es) ∷ later

unfoldable pub group : List ActiveRow → Roles → Roles
unfolding push
group [] roles = roles
group (r ∷ rs) roles = group rs (push r.role (entry_of r) roles)

unfoldable pub list_active_at_of :
    (inherited : String → Bool) (op : String) (at : Option ℕ) → Handler Roles
unfolding group
list_active_at_of inherited op at = do
  time ← or_rejected at
  rows ← query rejected (select (list_active_at op time))
  require (not (any (λ r. inherited r.role) rows)) type_error
  pure (group rows [])

-- The entries under a role; none if the role has no key.
abbrev pub entries : String → Roles → List ActiveEntry
entries role [] = []
entries role ((name, es) ∷ rest) = if name == role then es else entries role rest

entries-push :
    (role name : String) (e : ActiveEntry) (roles : Roles)
    → entries role (push name e roles)
      ≡ (if name == role then entries role roles ++ (e ∷ []) else entries role roles)
unfolding push
entries-push role name e [] = ground arith
entries-push role name e ((key, es) ∷ rest) =
    ground
      (arith, entries-push role name e rest, eq_iff key name, eq_iff key role, eq_iff name role)

-- The rows of a role, as entries.
abbrev pub of_role : String → List ActiveRow → List ActiveEntry
of_role role rows = map entry_of (keep (λ r. r.role == role) rows)

append-assoc_one :
    {A : Type 0} (xs : List A) (x : A) (ys : List A) → (xs ++ (x ∷ [])) ++ ys ≡ xs ++ (x ∷ ys)
append-assoc_one [] x ys = refl
append-assoc_one (z ∷ xs) x ys = ap (◌∷◌ z) (append-assoc_one xs x ys)

append-nil : {A : Type 0} (xs : List A) → xs ++ [] ≡ xs
append-nil [] = refl
append-nil (x ∷ xs) = ap (◌∷◌ x) (append-nil xs)

entries-group :
    (role : String) (rows : List ActiveRow) (roles : Roles)
    → entries role (group rows roles) ≡ entries role roles ++ of_role role rows
unfolding group
entries-group role [] roles = sym (append-nil (entries role roles))
entries-group role (r ∷ rs) roles =
    entries-group role rs (push r.role (entry_of r) roles) ∙ elim (Bool-cases (r.role == role)) [
      | inl same ↦
          rw (entries-push role r.role (entry_of r) roles, same)
            (append-assoc_one (entries role roles) (entry_of r) (of_role role rs))
      | inr other ↦ rw (entries-push role r.role (entry_of r) roles, other) refl
    ]

Yields-time :
    {B : Type 0} (t : Tables) (at : ℕ) (g : ℕ → Handler B) (Q : B → Tables → Type 0)
    → Yields t (g at) Q
    → Yields t (or_rejected (some at) >>= g) Q
unfolding ◌>>=◌ pure
Yields-time t at g Q y = record { at = y.at }

-- A listActiveAt that succeeds shows under each role one entry for every shift of this role that is
-- active at the time and every roster row of its user in this role (one entry with no name if there
-- is no such row), and nothing else.
pub list_active_at_of-entries :
    (inherited : String → Bool) (op : String) (at : ℕ) (s : Schedule) (roles : Roles)
    → (list_active_at_of inherited op (some at) s).0 ≡ ok roles
    → (role : String) → entries role roles ≡ of_role role (list_active_at op at s.tables)
unfolding list_active_at_of
list_active_at_of-entries inherited op at s roles h = (grouped s.tables).at s roles refl h
  where
    grouped :
        (t : Tables)
        → Yields t (list_active_at_of inherited op (some at)) (λ roles left.
          (role : String) → entries role roles ≡ of_role role (list_active_at op at t))
    grouped t =
        let Q : Roles → Tables → Type 0 = λ roles left.
          (role : String) → entries role roles ≡ of_role role (list_active_at op at t) in
        Yields-time t at _ Q (
          Yields-query t _ _ _ Q (
            Yields-require t _ _ _ Q
              λ plain. Yields-pure t _ Q λ role. entries-group role (list_active_at op at t) []))
