-- ===== src/Action.antt =====
-- Asynchronous handlers as state passing: a step ends with a value or an error, and what was written
-- before an error stays written. `Db` is a database connection as the services see it: tables, the
-- notifications that went out, and an oracle of the queries that are rejected; for a service that
-- keeps its state in variables, the tables are these variables.
pub mod Rules
pub mod Yields
pub mod Outcome
use tactix.Common.{Bool, true, false, Option, none, some, List, [], ◌∷◌, ◌++◌}

pub data Result {ℓ} (E A : Type ℓ) : Type ℓ where
  ok : A → Result E A
  err : E → Result E A

abbrev pub Action {ℓ} : Type ℓ → Type ℓ → Type ℓ → Type ℓ
Action S E A = S → Result E A × S

module _ {ℓ} {S E A : Type ℓ} where
  unfoldable pub pure : A → Action S E A
  pure a s = (ok a, s)

  unfoldable pub throw : E → Action S E A
  throw e s = (err e, s)

-- `if (!test) throw …`
unfoldable pub require : {S E : Type 0} → Bool → E → Action S E (Unit {0})
require true e s = (ok tt, s)
require false e s = (err e, s)

module _ {ℓ} {S E A B : Type ℓ} where
  abbrev pub continue : Result E A → (A → Action S E B) → Action S E B
  continue (ok a) f s = f a s
  continue (err e) f s = (err e, s)

  infixl 5 ◌>>=◌ ◌>>◌
  unfoldable pub ◌>>=◌ : Action S E A → (A → Action S E B) → Action S E B
  unfolding pure throw require
  ◌>>=◌ m f s = let (r, s') = m s in continue r f s'

  abbrev pub ◌>>◌ : Action S E A → Action S E B → Action S E B
  m >> n = m >>= λ _. n

-- `faults` says of each query to come whether it is rejected; past its end none is.
pub record Db (T N : Type 0) : Type 0 where
  pub tables : T
  pub sent : List N
  pub faults : List Bool

-- `tick db later` has used one entry of the oracle.
abbrev pub tick : {T N : Type 0} → Db T N → List Bool → Db T N
tick db later = record db { faults = later }

module _ {T N E A : Type 0} where
  abbrev pub run : (T → A × T) → Db T N → List Bool → Result E A × Db T N
  run statement db later =
      (ok (statement db.tables).0, record db { tables = (statement db.tables).1; faults = later })

  abbrev pub decided : List Bool → E → (T → A × T) → Db T N → Result E A × Db T N
  decided [] rejection statement db = run statement db []
  decided (false ∷ later) rejection statement db = run statement db later
  decided (true ∷ later) rejection statement db = (err rejection, tick db later)

  -- `client.query` of a statement; a rejected query has no effect, and `rejection` is its error.
  unfoldable pub query : E → (T → A × T) → Action (Db T N) E A
  query rejection statement db = decided db.faults rejection statement db

module _ {S E A : Type 0} where
  abbrev pub caught : Result E A × S → Result E (Option A) × S
  caught (ok a, s) = (ok (some a), s)
  caught (err e, s) = (ok none, s)

  -- `try { … } catch {}`, with the value if there is one
  unfoldable pub attempt : Action S E A → Action S E (Option A)
  attempt m s = caught (m s)

module _ {T N E A : Type 0} where
  -- A change of the variables of the process, which cannot fail.
  unfoldable pub modify : (T → A × T) → Action (Db T N) E A
  modify change db = (ok (change db.tables).0, record db { tables = (change db.tables).1 })

module _ {T N E : Type 0} where
  abbrev pub announced : List Bool → N → Db T N → Result E (Unit {0}) × Db T N
  announced [] note db = (ok tt, record db { sent = db.sent ++ (note ∷ []) })
  announced (false ∷ later) note db =
      (ok tt, record db { sent = db.sent ++ (note ∷ []); faults = later })
  announced (true ∷ later) note db = (ok tt, tick db later)

  -- `try { await client.query('NOTIFY tactix_events, …') } catch (_) {}`
  unfoldable pub notify : N → Action (Db T N) E (Unit {0})
  notify note db = announced db.faults note db
