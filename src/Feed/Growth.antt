-- ===== src/Feed/Growth.antt =====
-- How the tables of an incident may change: rows are added at the end, and of a row only some columns
-- change. The rules run through a handler, whether its queries are rejected or not.
pub mod Handlers
pub mod Steps
use tactix.Common.{
  ℕ, String, ◌≡◌, refl, sym, ◌∙◌, Bool, true, false, List, [], ◌∷◌, ◌++◌, Option, none, some,
  Bool-cases, inl, inr, if◌then◌else◌, ap,
}
use tactix.Action.{
  Action, Result, ok, err, query, notify, decided, announced, pure, throw, ◌>>=◌, continue,
}
use tactix.Feed.{
  MessageRow, ChatRow, TaskRow, Tables, Feed, Handler, Note, Rejection, submitted, update_where,
  select,
}

module _ {A : Type 0} (R : A → A → Type 0) where
  -- Every row is still there, changed as `R` allows; new rows stand behind.
  abbrev pub Extends : List A → List A → Type 0
  Extends [] ys = Unit
  Extends (x ∷ xs) [] = ⊥
  Extends (x ∷ xs) (y ∷ ys) = R x y × Extends xs ys

  pub Extends-refl : ((x : A) → R x x) → (xs : List A) → Extends xs xs
  Extends-refl r [] = tt
  Extends-refl r (x ∷ xs) = (r x, Extends-refl r xs)

  pub Extends-trans :
      ((x y z : A) → R x y → R y z → R x z)
      → (xs ys zs : List A) → Extends xs ys
      → Extends ys zs
      → Extends xs zs
  Extends-trans t [] ys zs h k = tt
  Extends-trans t (x ∷ xs) [] zs h k = absurd h
  Extends-trans t (x ∷ xs) (y ∷ ys) [] h k = absurd k
  Extends-trans t (x ∷ xs) (y ∷ ys) (z ∷ zs) (p, h) (q, k) =
      (t x y z p q, Extends-trans t xs ys zs h k)

  pub Extends-append : ((x : A) → R x x) → (xs ys : List A) → Extends xs (xs ++ ys)
  Extends-append r [] ys = tt
  Extends-append r (x ∷ xs) ys = (r x, Extends-append r xs ys)

  pub Extends-update :
      (test : A → Bool) (change : A → A)
      → ((x : A) → R x x)
      → ((x : A) → R x (change x))
      → (xs : List A) → Extends xs (update_where test change xs)
  unfolding update_where
  Extends-update test change r c [] = tt
  Extends-update test change r c (x ∷ xs) = elim (Bool-cases (test x)) [
    | inl hit ↦ rw (hit, update_where) (c x, Extends-update test change r c xs)
    | inr miss ↦ rw (miss, update_where) (r x, Extends-update test change r c xs)
  ]

-- A message keeps its author and its text, and stays submitted once it is.
pub record MessageEvolves (x y : MessageRow) : Type 0 where
  pub id : y.id ≡ x.id
  pub incident : y.incident_id ≡ x.incident_id
  pub author : y.author ≡ x.author
  pub content : y.content ≡ x.content
  pub since : y.created_at ≡ x.created_at
  pub status : x.status ≡ submitted → y.status ≡ submitted

-- A task keeps its role, its creator and its time of creation.
pub record TaskEvolves (x y : TaskRow) : Type 0 where
  pub id : y.task_id ≡ x.task_id
  pub incident : y.incident_id ≡ x.incident_id
  pub role : y.role ≡ x.role
  pub creator : y.created_by ≡ x.created_by
  pub since : y.created_at ≡ x.created_at

pub record Evolves (t u : Tables) : Type 0 where
  pub messages : Extends MessageEvolves t.messages u.messages
  pub chat : Extends (λ x y. y ≡ x) t.chat u.chat
  pub tasks : Extends TaskEvolves t.tasks u.tasks
  pub warlog : u.warlog ≡ t.warlog

pub MessageEvolves-refl : (x : MessageRow) → MessageEvolves x x
MessageEvolves-refl x = record {
  id = refl;
  incident = refl;
  author = refl;
  content = refl;
  since = refl;
  status = λ h. h;
}

MessageEvolves-trans :
    (x y z : MessageRow) → MessageEvolves x y → MessageEvolves y z → MessageEvolves x z
MessageEvolves-trans x y z p q = record {
  id = q.id ∙ p.id;
  incident = q.incident ∙ p.incident;
  author = q.author ∙ p.author;
  content = q.content ∙ p.content;
  since = q.since ∙ p.since;
  status = λ h. q.status (p.status h);
}

pub TaskEvolves-refl : (x : TaskRow) → TaskEvolves x x
TaskEvolves-refl x = record {
  id = refl;
  incident = refl;
  role = refl;
  creator = refl;
  since = refl;
}

TaskEvolves-trans : (x y z : TaskRow) → TaskEvolves x y → TaskEvolves y z → TaskEvolves x z
TaskEvolves-trans x y z p q = record {
  id = q.id ∙ p.id;
  incident = q.incident ∙ p.incident;
  role = q.role ∙ p.role;
  creator = q.creator ∙ p.creator;
  since = q.since ∙ p.since;
}

pub Evolves-refl : (t : Tables) → Evolves t t
Evolves-refl t = record {
  messages = Extends-refl MessageEvolves MessageEvolves-refl t.messages;
  chat = Extends-refl (λ x y. y ≡ x) (λ x. refl) t.chat;
  tasks = Extends-refl TaskEvolves TaskEvolves-refl t.tasks;
  warlog = refl;
}

pub Evolves-trans : (t u v : Tables) → Evolves t u → Evolves u v → Evolves t v
Evolves-trans t u v p q = record {
  messages =
      Extends-trans MessageEvolves MessageEvolves-trans t.messages u.messages v.messages p.messages
        q.messages;
  chat = Extends-trans (λ x y. y ≡ x) (λ x y z h k. k ∙ h) t.chat u.chat v.chat p.chat q.chat;
  tasks = Extends-trans TaskEvolves TaskEvolves-trans t.tasks u.tasks v.tasks p.tasks q.tasks;
  warlog = q.warlog ∙ p.warlog;
}

-- Whatever the handler answers, and also when it is rejected, its tables evolve.
pub record Grows {A : Type 0} (m : Handler A) : Type 0 where
  pub at : (s : Feed) → Evolves s.tables (m s).1.tables

module _ {A : Type 0} where
  pub Grows-pure : (a : A) → Grows (pure a)
  unfolding pure
  Grows-pure a = record { at = λ s. Evolves-refl s.tables }

  pub Grows-throw : (e : Rejection) → Grows {A = A} (throw e)
  unfolding throw
  Grows-throw e = record { at = λ s. Evolves-refl s.tables }

  pub Grows-query :
      (e : Rejection) (f : Tables → A × Tables)
      → ((t : Tables) → Evolves t (f t).1)
      → Grows (query e f)
  unfolding query
  Grows-query e f g = record { at = λ s. go s.faults s }
    where
      go : (l : List Bool) (s : Feed) → Evolves s.tables (decided l e f s).1.tables
      go [] s = g s.tables
      go (false ∷ l) s = g s.tables
      go (true ∷ l) s = Evolves-refl s.tables

pub Grows-notify : (note : Note) → Grows (notify note)
unfolding notify
Grows-notify note = record { at = λ s. go s.faults s }
  where
    go : (l : List Bool) (s : Feed) → Evolves s.tables (announced {E = Rejection} l note s).1.tables
    go [] s = Evolves-refl s.tables
    go (false ∷ l) s = Evolves-refl s.tables
    go (true ∷ l) s = Evolves-refl s.tables

module _ {A B : Type 0} where
  pub Grows-bind :
      (m : Handler A) (f : A → Handler B) → Grows m → ((a : A) → Grows (f a)) → Grows (m >>= f)
  unfolding ◌>>=◌
  Grows-bind m f g k = record {
    at = λ s. Evolves-trans s.tables (m s).1.tables _ (g.at s) (rest (m s).0 (m s).1);
  }
    where
      rest : (r : Result Rejection A) (s : Feed) → Evolves s.tables (continue r f s).1.tables
      rest (ok a) s = (k a).at s
      rest (err e) s = Evolves-refl s.tables

pub ruleset growth_rules = (Grows-pure, Grows-throw, Grows-notify, Grows-bind)
