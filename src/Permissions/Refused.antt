-- ===== src/Permissions/Refused.antt =====
-- services/incident-svc/src/index.ts: the permission requests, and what their callbacks would answer.
use tactix.Common.{
  String, ◌≡◌, refl, ap, ◌∙◌, false, Option, none, some, List, [], ◌∷◌, find, ◌==◌, inl, inr, ◌⊎◌,
}
use tactix.Json.{Json}
use tactix.Action.{pure, Result, ok, err, Db, ◌>>=◌}
use tactix.Action.Rules.{Keeps, Keeps-bind, Keeps-query, Keeps-pure}
use tactix.Action.Yields.{Yields, Yields-query, Yields-pure, Yields-bind}
use tactix.Rbac.{Role, viewer, editor, imo}
use tactix.Permissions.{
  Operation, Tables, Rejected, rejected, Reply, problem, blank, unanswered, Handler, select,
  user_assignments, user_grants, has_name,
}
use tactix.Permissions.Requests.{
  get_permissions, post_assignment, delete_assignment, post_role, load_roles,
  get_permissions_callback, with_assign, when_allowed, post_assignment_callback,
  delete_assignment_callback, post_role_callback,
}

has_name-read : (granted : List Role) → has_name "READ" granted ≡ false
has_name-read [] = refl
has_name-read (viewer ∷ rest) = has_name-read rest
has_name-read (editor ∷ rest) = has_name-read rest
has_name-read (imo ∷ rest) = has_name-read rest
has_name-read (Role.admin ∷ rest) = has_name-read rest

has_name-assign : (granted : List Role) → has_name "ASSIGN" granted ≡ false
has_name-assign [] = refl
has_name-assign (viewer ∷ rest) = has_name-assign rest
has_name-assign (editor ∷ rest) = has_name-assign rest
has_name-assign (imo ∷ rest) = has_name-assign rest
has_name-assign (Role.admin ∷ rest) = has_name-assign rest

-- 404 without the operation, and 403 with it.
abbrev pub refusal : (op : String) → Tables → Reply
refusal op t = elim (find (λ o. o.operation_id == op) t.operations) [
  | none ↦ blank 404
  | some o ↦ problem 403 "forbidden"
]

result-cases : {A : Type 0} (r : Result Rejected A) → (r ≡ err rejected) ⊎ ((a : A) × (r ≡ ok a))
result-cases (ok a) = inr (a, refl)
result-cases (err rejected) = inl refl

-- What an answer must be, if the database rejects no query.
abbrev pub Answers : Handler Reply → Reply → Db Tables (Unit {0}) → Type 0
Answers m a s = ((m s).0 ≡ ok a) ⊎ ((m s).0 ≡ err rejected)

Answers-of_Yields :
    (m : Handler Reply) (a : Reply) (s : Db Tables (Unit {0}))
    → Yields s.tables m (λ b u. b ≡ a)
    → Answers m a s
Answers-of_Yields m a s y = elim (result-cases (m s).0) [
  | inl failed ↦ inr failed
  | inr (b, here) ↦ inl (here ∙ ap ok (y.at s b refl here))
]

-- A request that changes nothing and answers by a refusal if it answers at all.
pub record IsRefused (op : String) (m : Handler Reply) : Type 0 where
  pub keeps : Keeps m
  pub answers : (s : Db Tables (Unit {0})) → Answers m (refusal op s.tables) s

-- A request that changes nothing and gets no answer.
pub record IsDropped (m : Handler Reply) : Type 0 where
  pub at : (s : Db Tables (Unit {0})) → m s ≡ (ok unanswered, s)

pure-IsDropped : IsDropped (pure unanswered)
unfolding pure
pure-IsDropped = record { at = λ s. refl }

module _ (suffixes : List String) (sub : String) (ad_groups : List String) where
  load_roles-Keeps : (op code : String) → Keeps (load_roles suffixes sub ad_groups op code)
  unfolding load_roles
  load_roles-Keeps op code =
      Keeps-bind _ _ (Keeps-query rejected (user_assignments op sub)) (λ mine.
        Keeps-bind _ _ (Keeps-query rejected (user_grants op sub)) (λ granted. Keeps-pure _))

  load_roles-Yields :
      (op code : String) (t : Tables)
      → Yields t (load_roles suffixes sub ad_groups op code) (λ granted u. u ≡ t)
  unfolding load_roles
  load_roles-Yields op code t =
      Yields-query t rejected _ _ _ (Yields-query t rejected _ _ _ (Yields-pure t _ _ refl))

  when_allowed-Keeps :
      (name op : String) (rest : Operation → List Role → Handler Reply) (found : Option Operation)
      → ((granted : List Role) → has_name name granted ≡ false)
      → Keeps (when_allowed suffixes sub ad_groups name op rest found)
  unfolding when_allowed
  when_allowed-Keeps name op rest none unknown = Keeps-pure _
  when_allowed-Keeps name op rest (some o) unknown =
      Keeps-bind _ _ (load_roles-Keeps op o.code) (λ granted. rw (unknown granted) (Keeps-pure _))

  when_allowed-Yields :
      (name op : String) (rest : Operation → List Role → Handler Reply) (found : Option Operation)
      (t : Tables)
      → ((granted : List Role) → has_name name granted ≡ false)
      → Yields t
          (when_allowed suffixes sub ad_groups name op rest found)
          (λ a u. a ≡ elim found [ none ↦ blank 404 | some o ↦ problem 403 "forbidden" ])
  unfolding when_allowed
  when_allowed-Yields name op rest none t unknown = Yields-pure t _ _ refl
  when_allowed-Yields name op rest (some o) t unknown =
      Yields-bind t _ _ (λ granted u. u ≡ t) _ (load_roles-Yields op o.code t)
        (λ granted u same. rw (unknown granted) (Yields-pure u _ _ refl))

  guarded-IsRefused :
      (name op : String) (rest : Operation → List Role → Handler Reply)
      → ((granted : List Role) → has_name name granted ≡ false)
      → IsRefused op (
          select (λ t. find (λ o. o.operation_id == op) t.operations)
          >>= when_allowed suffixes sub ad_groups name op rest)
  guarded-IsRefused name op rest unknown = record {
    keeps =
        Keeps-bind _ _ (Keeps-query rejected _)
          (λ found. when_allowed-Keeps name op rest found unknown);
    answers = λ s. Answers-of_Yields _ _ s (
        Yields-query s.tables rejected _ _ _ (when_allowed-Yields name op rest _ s.tables unknown));
  }

  -- The requests on the permissions, assignments and roles of an operation get no answer and change
  -- nothing, since `requireAuth` does not run the callbacks that they hand it. And if the callbacks ran,
  -- they would refuse whoever makes the request, whatever roles the caller has been granted, and
  -- whatever is asked: they change no table, and answer 403 if the operation exists and 404 if it does
  -- not, or fail with the database.
  pub requests-IsRefused :
      (column : Json → String) (id op other : String) (body : Option Json)
      → (IsDropped (get_permissions suffixes sub ad_groups op)
          × IsDropped (post_assignment suffixes sub ad_groups column id op body)
          × IsDropped (delete_assignment suffixes sub ad_groups op other)
          × IsDropped (post_role suffixes sub ad_groups column id op body))
        × IsRefused op (get_permissions_callback suffixes sub ad_groups op)
        × IsRefused op (post_assignment_callback suffixes sub ad_groups column id op body)
        × IsRefused op (delete_assignment_callback suffixes sub ad_groups op other)
        × IsRefused op (post_role_callback suffixes sub ad_groups column id op body)
  unfolding get_permissions_callback post_assignment_callback delete_assignment_callback
      post_role_callback with_assign get_permissions post_assignment delete_assignment post_role
  requests-IsRefused column id op other body = (
    (pure-IsDropped, pure-IsDropped, pure-IsDropped, pure-IsDropped),
    guarded-IsRefused "READ" op _ has_name-read,
    guarded-IsRefused "ASSIGN" op _ has_name-assign,
    guarded-IsRefused "ASSIGN" op _ has_name-assign,
    guarded-IsRefused "ASSIGN" op _ has_name-assign,
  )
