-- ===== src/Permissions/Checked.antt =====
-- services/incident-svc/src/index.ts: what the requests on assignments do once they are let through.
use tactix.Common.{
  ◌+◌, ◌≤◌, String, ◌≡◌, refl, sym, ◌∙◌, Bool, true, ◌&&◌, Option, none, some, List, [], ◌∷◌, ◌++◌,
  keep, first, ◌==◌, eq_iff, arith, Bool-cases, Option-cases, inl, inr, if◌then◌else◌,
}
use tactix.Json.{Json}
use tactix.Feed.Order.{count}
use tactix.Action.{Db}
use tactix.Action.Outcome.{Outcome, Outcome-query, Outcome-pure}
use tactix.Permissions.{Assignment, Tables, rejected, user_assignments, revive, required}
use tactix.Permissions.Requests.{store_assignment, write_assignment}

-- The rows of a user in an operation.
abbrev pub is_of : (op user : String) → Assignment → Bool
is_of op user a = a.operation_id == op && a.user_upn == user

-- No user has two assignments in one operation.
pub record IsSingle (rows : List Assignment) : Type 0 where
  pub at : (op user : String) → count (is_of op user) rows ≤ 1

count-revive :
    (op user id : String) (position name : Option String) (rows : List Assignment)
    → count (is_of op user) (revive id position name rows) ≡ count (is_of op user) rows
count-revive op user id position name [] = refl
count-revive op user id position name (a ∷ rows) =
    ground (arith, count-revive op user id position name rows)

count-append :
    (p : Assignment → Bool) (xs : List Assignment) (x : Assignment)
    → count p (xs ++ (x ∷ [])) ≡ count p xs + (if p x then 1 else 0)
count-append p [] x = omega arith
count-append p (y ∷ xs) x = omega (arith, count-append p xs x)

count_of_first :
    (p : Assignment → Bool) (rows : List Assignment) → first (keep p rows) ≡ none → count p rows ≡ 0
count_of_first p [] h = refl
count_of_first p (a ∷ rows) h = elim (Bool-cases (p a)) [
  | inl hit ↦ absurd (ground arith)
  | inr miss ↦ ground (arith, count_of_first p rows (ground arith))
]

is_of_unique :
    (op user op' user' : String) (a : Assignment)
    → a.operation_id ≡ op
    → a.user_upn ≡ user
    → is_of op' user' a ≡ true
    → (rows : List Assignment) → count (is_of op' user') rows ≡ count (is_of op user) rows
is_of_unique op user op' user' a o u h rows =
    let p : op ≡ op' = ground (arith, eq_iff a.operation_id op') in
    let q : user ≡ user' = ground (arith, eq_iff a.user_upn user', eq_iff a.operation_id op') in
    λ i. count (is_of (sym p i) (sym q i)) rows

append-IsSingle :
    (rows : List Assignment) (a : Assignment)
    → first (keep (is_of a.operation_id a.user_upn) rows) ≡ none
    → IsSingle rows
    → IsSingle (rows ++ (a ∷ []))
append-IsSingle rows a free s = record {
  at = λ op user. elim (Bool-cases (is_of op user a)) [
    | inl same ↦
        let nothing =
          is_of_unique a.operation_id a.user_upn op user a refl refl same rows
          ∙ count_of_first (is_of a.operation_id a.user_upn) rows free in
        rw (count-append (is_of op user) rows a) (ground arith)
    | inr other ↦ rw (count-append (is_of op user) rows a) (let h = s.at op user in ground arith)
  ];
}

revive-IsSingle :
    (id : String) (position name : Option String) (rows : List Assignment)
    → IsSingle rows
    → IsSingle (revive id position name rows)
revive-IsSingle id position name rows s = record {
  at = λ op user. rw (count-revive op user id position name rows) (s.at op user);
}

-- The invariant, of the tables.
abbrev pub IsSingleIn : Tables → Type 0
IsSingleIn t = IsSingle t.assignments

module _ (suffixes : List String) (sub : String) (groups : List String)
    (column : Json → String) where
  store_assignment-Outcome :
      (id op user : String) (position name : Option String) (t : Tables) (found : Option Assignment)
      → first (user_assignments op user t) ≡ found
      → IsSingleIn t
      → Outcome t
          (store_assignment suffixes sub groups column id op user position name found)
          (λ r. IsSingleIn)
  unfolding store_assignment
  store_assignment-Outcome id op user position name t (some existing) here s =
      let revived = revive-IsSingle existing.assignment_id position name t.assignments s in
      Outcome-query t rejected _ _ _ s
        (Outcome-query _ rejected _ _ _ revived (Outcome-pure _ _ _ revived))
  store_assignment-Outcome id op user position name t none here s =
      Outcome-query t rejected _ _ _ s (Outcome-pure _ _ _ (append-IsSingle t.assignments _ here s))

  write_assignment-Outcome :
      (id op : String) (body : Option Json) (t : Tables)
      → IsSingleIn t
      → Outcome t (write_assignment suffixes sub groups column id op body) (λ r. IsSingleIn)
  unfolding write_assignment
  write_assignment-Outcome id op body t s = elim (Option-cases (required "userUpn" body)) [
    | inl missing ↦ rw (write_assignment, missing) (Outcome-pure t _ _ s)
    | inr (upn, here) ↦
        rw (write_assignment, here)
          (Outcome-query t rejected _ _ _ s
            (store_assignment-Outcome id op (column upn) _ _ t _ refl s))
  ]

  -- Past the guard, an assignment that is written, and a query that is rejected on the way, leave no
  -- user with two assignments in one operation if none had two before.
  pub write_assignment-IsSingle :
      (id op : String) (body : Option Json) (s : Db Tables (Unit {0}))
      → IsSingle s.tables.assignments
      → IsSingle (write_assignment suffixes sub groups column id op body s).1.tables.assignments
  write_assignment-IsSingle id op body s single =
      (write_assignment-Outcome id op body s.tables single).at s refl
