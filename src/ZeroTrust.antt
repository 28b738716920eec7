-- ===== src/ZeroTrust.antt =====
-- The zero-trust switch: packages/feature-flags/src/zeroTrustFlag.ts, packages/settings/src,
-- apps/api/src/routes/admin/security.ts and apps/api/src/middleware/zeroTrustGate.ts. The variables are
-- the cache, the row of security_settings and the audit events that were emitted; `locked` and
-- `by_default` are the tests of TACTIX_ZT_LOCKED and TACTIX_ZT_DEFAULT, which stay as they are while
-- the process runs. A query may be rejected; a time is a number of milliseconds.
pub mod Lock
pub mod Toggle
mod Tests
use tactix.Common.{
  ℕ, ◌+◌, String, Bool, true, false, ◌||◌, Option, none, some, List, [], ◌∷◌, ◌++◌, ltb, includes,
  or_else, if◌then◌else◌,
}
use tactix.Json.{Json, member}
use tactix.Json
use tactix.Action.{Action, Db, query, modify, attempt, pure, ◌>>=◌, ◌>>◌}

pub data Source : Type 0 where
  locked_source db_source default_source : Source

-- `Cache`
pub record Cache : Type 0 where
  pub val : Bool
  pub ts : ℕ
  pub source : Source

-- `SecuritySettings`, the row with id 1
pub record Settings : Type 0 where
  pub zero_trust_enabled : Option Bool
  pub updated_at : ℕ
  pub updated_by : String

-- `SecuritySettingChanged`
pub record Audit : Type 0 where
  pub actor : String
  pub enabled : Bool

pub record Switch : Type 0 where
  pub cache : Option Cache
  pub row : Option Settings
  pub audit : List Audit

-- A query that the database rejects.
pub data Rejection : Type 0 where
  rejected : Rejection

abbrev pub Process : Type 0
Process = Db Switch (Unit {0})

abbrev pub Handler : Type 0 → Type 0
Handler A = Action Process Rejection A

-- `getSecuritySettings`
unfoldable pub get_security_settings : Handler (Option Settings)
get_security_settings = query rejected (λ v. (v.row, v))

abbrev pub upsert : Bool → String → (now : ℕ) → Switch → Unit {0} × Switch
upsert enabled actor now v = (
  tt,
  record v {
    row = some (record { zero_trust_enabled = some enabled; updated_at = now; updated_by = actor });
  },
)

-- `updateZeroTrustEnabled`
unfoldable pub update_zero_trust_enabled :
    (enabled : Bool) (actor : String) (now : ℕ) → Handler (Unit {0})
update_zero_trust_enabled enabled actor now = query rejected (upsert enabled actor now)

abbrev pub store : Cache → Switch → Cache × Switch
store c v = (c, record v { cache = some c })

-- `bustZeroTrustCache`
unfoldable pub bust_zero_trust_cache : Handler (Unit {0})
bust_zero_trust_cache = modify (λ v. let done : Unit {0} = tt in (done, record v { cache = none }))

-- `cache && now - cache.ts < TTL_MS`
abbrev pub fresh : (now : ℕ) → Option Cache → Option Cache
fresh now none = none
fresh now (some c) = if ltb now (c.ts + 5000) then some c else none

-- What a lookup decides; outer `none` is a lookup that threw.
abbrev pub decide : (by_default : Bool) (now : ℕ) → Option (Option Settings) → Cache
decide by_default now none = record { val = by_default; ts = now; source = default_source }
decide by_default now (some none) = record { val = by_default; ts = now; source = default_source }
decide by_default now (some (some row)) = elim row.zero_trust_enabled [
  | none ↦ record { val = by_default; ts = now; source = default_source }
  | some enabled ↦ record { val = enabled; ts = now; source = db_source }
]

module _ (locked by_default : Bool) where
  -- The rest of `resolveZeroTrust`, without a fresh cache.
  abbrev pub refresh : Bool → (now : ℕ) → Handler Cache
  refresh true now = modify (store (record { val = true; ts = now; source = locked_source }))
  refresh false now = do
    row ← attempt get_security_settings
    modify (store (decide by_default now row))

  abbrev pub serve : Option Cache → (now : ℕ) → Handler Cache
  serve (some c) now = pure c
  serve none now = refresh locked now

  -- `resolveZeroTrust`
  unfoldable pub resolve_zero_trust : (now : ℕ) → Handler Cache
  unfolding get_security_settings
  resolve_zero_trust now = do cached ← modify (λ v. (fresh now v.cache, v)); serve cached now

  -- `getZeroTrustEnabled`
  unfoldable pub get_zero_trust_enabled : (now : ℕ) → Handler Bool
  unfolding resolve_zero_trust
  get_zero_trust_enabled now = do res ← resolve_zero_trust now; pure res.val

-- `requireRole` of the admin routes
abbrev pub may_administer : List String → Bool
may_administer roles = includes "Admin" roles || includes "SecurityOfficer" roles

pub data Reply : Type 0 where
  forbidden : Reply
  toggle_locked : Reply
  shown :
      (enabled locked : Bool)
      → Source
      → (updated_at : Option ℕ) (updated_by : Option String) → Reply

abbrev pub updated_at_of : Option (Option Settings) → Option ℕ
updated_at_of (some (some row)) = some row.updated_at
updated_at_of _ = none

abbrev pub updated_by_of : Option (Option Settings) → Option String
updated_by_of (some (some row)) = some row.updated_by
updated_by_of _ = none

abbrev pub enabled_of : Option Json → Bool
enabled_of none = false
enabled_of (some body) = tactix.Json.truthy (member "enabled" body)

-- `(req.app.get(…) as any) || …`
abbrev pub or_chain : {Chain : Type 0} → Option Chain → Chain → Chain
or_chain none d = d
or_chain (some c) d = c

-- The chains that the gate calls, one after another; `throws` says of a chain whether calling it throws
-- at once, which the gate catches like a flag that it cannot read, and then calls the standard chain.
abbrev pub called :
    {Chain : Type 0} → (throws : Chain → Bool) → (first standard : Chain) → List Chain
called throws first standard = first ∷ (if throws first then standard ∷ [] else [])

-- The last argument is none if the flag could not be read.
abbrev pub chosen :
    {Chain : Type 0}
    → (throws : Chain → Bool) → Chain
    → Option Chain
    → Option Chain
    → Option Bool
    → List Chain
chosen throws next standard strict none = or_chain standard next ∷ []
chosen throws next standard strict (some true) =
    called throws (or_chain strict (or_chain standard next)) (or_chain standard next)
chosen throws next standard strict (some false) =
    called throws (or_chain standard next) (or_chain standard next)

module _ (locked by_default : Bool) where
  -- GET /zero-trust
  unfoldable pub get_zero_trust : (roles : List String) (now : ℕ) → Handler Reply
  unfolding resolve_zero_trust get_security_settings
  get_zero_trust roles now =
      if may_administer roles
      then (do
        c ← resolve_zero_trust locked by_default now
        row ← attempt get_security_settings
        pure (shown c.val locked c.source (updated_at_of row) (updated_by_of row)))
      else pure forbidden

  -- PUT /zero-trust; `written` is the time of the database, `now` the time behind the update.
  unfoldable pub put_zero_trust :
      (roles : List String) (username : Option String)
      → Option Json
      → (written now : ℕ) → Handler Reply
  unfolding resolve_zero_trust update_zero_trust_enabled bust_zero_trust_cache
  put_zero_trust roles username body written now =
      if may_administer roles
      then if locked then pure toggle_locked else (do
        let enabled = enabled_of body
        let actor = or_else username "system"
        update_zero_trust_enabled enabled actor written
        bust_zero_trust_cache
        modify (λ v.
            let done : Unit {0} = tt in
            (
              done,
              record v { audit = v.audit ++ (record { actor = actor; enabled = enabled } ∷ []) },
            ))
        c ← resolve_zero_trust locked by_default now
        pure (shown c.val false c.source (some now) (some actor)))
      else pure forbidden

  -- `zeroTrustGate` over the chains that the app has set, with the chains that it calls
  unfoldable pub zero_trust_gate :
      {Chain : Type 0} (throws : Chain → Bool) (next : Chain) (standard strict : Option Chain)
      (now : ℕ)
      → Handler (List Chain)
  zero_trust_gate throws next standard strict now = do
    zt ← attempt (get_zero_trust_enabled locked by_default now)
    pure (chosen throws next standard strict zt)
