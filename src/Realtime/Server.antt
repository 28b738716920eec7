-- ===== src/Realtime/Server.antt =====
-- services/realtime-svc/index.js: the upgrade of a request, and the map of the clients. The tokens
-- are those of packages/authz/src/index.ts, whose functions this service calls.
use tactix.Common.{
  ℕ, String, ◌≡◌, Bool, true, ◌||◌, Option, none, some, List, [], ◌∷◌, ◌++◌, arith, first, any,
  false, ◌&&◌, split_on, eqb, if◌then◌else◌, ◌==◌, ◌↔◌,
}
use tactix.Json.{Json}
use tactix.Authz.{Claims, TactixUser, RoleMapper, Request, next, user_of, extract_token, ws_auth}
use tactix.Realtime.{Client, Input, connected, is_null, offer, offered, react, received}

-- What the handler of `upgrade` does with the socket: `handleUpgrade` for a user, a status line and
-- `destroy`, or `destroy` alone.
pub data Upgrade : Type 0 where
  accepted : TactixUser → Upgrade
  refused : (status : ℕ) → Upgrade
  destroyed : Upgrade

-- `req.url.split('?')[0]`
unfoldable pub path_of : String → String
path_of url = elim (first (split_on 63 url)) [ none ↦ "" | some path ↦ path ]

abbrev pub is_rt : String → Bool
is_rt path = path == "/rt" || path == "/"

-- `search_param` reads `token` of the query; `verify` is `none` where it throws.
module _ (search_param : String → Option String) where
  unfoldable pub upgrade : (String → Option Claims) → RoleMapper → Request → Upgrade
  upgrade verify mapper req =
      if is_rt (path_of req.url)
      then elim (extract_token search_param req) [
        | none ↦ refused 401
        | some token ↦ elim (verify token) [
          | none ↦ refused 401
          | some payload ↦ accepted (user_of mapper payload)
        ]
      ]
      else destroyed

  -- A request becomes a connection exactly when it is for the path of this service and the guard of
  -- packages/authz lets its token pass, and then with the user that this guard finds.
  pub upgrade-ws_auth :
      (verify : String → Option Claims) (mapper : RoleMapper) (req : Request) (user : TactixUser)
      → (upgrade verify mapper req ≡ accepted user)
        ↔ ((is_rt (path_of req.url) ≡ true) × (ws_auth search_param verify mapper req ≡ next user))
  unfolding upgrade ws_auth
  upgrade-ws_auth verify mapper req user = (
    (λ (h : upgrade verify mapper req ≡ accepted user). ground arith),
    (λ (h : (is_rt (path_of req.url) ≡ true)
          × (ws_auth search_param verify mapper req ≡ next user)).
        ground arith),
  )

-- One entry of the map `clients`.
pub record Connection : Type 0 where
  pub key : ℕ
  pub client : Client

-- What happens to the service. Each socket is a new key of the map.
pub data Event : Type 0 where
  connection : (key : ℕ) → Event
  notification : (payload : String) → Event
  at : (key : ℕ) → Input → Event
  close : (key : ℕ) → Event

-- `clients.delete(ws)`
abbrev pub delete : ℕ → List Connection → List Connection
delete k [] = []
delete k (c ∷ cs) = let rest = delete k cs in if eqb k c.key then rest else c ∷ rest

-- The state of the client under a key.
abbrev pub state_of : ℕ → List Connection → Option Client
state_of k [] = none
state_of k (c ∷ cs) = if eqb k c.key then some c.client else state_of k cs

-- A callback of one client.
abbrev pub react_at : ℕ → Input → List Connection → List Connection
react_at k i [] = []
react_at k i (c ∷ cs) =
    (if eqb k c.key then record c { client = react c.client i } else c) ∷ react_at k i cs

unfoldable pub broadcast : Json → List Connection → List Connection
broadcast event [] = []
broadcast event (c ∷ cs) = record c { client = offer event c.client } ∷ broadcast event cs

-- A message that is a JSON null: its handler throws outside its `try`, and the error ends the process.
abbrev pub is_fatal : Input → Bool
is_fatal (received (some msg)) = is_null msg
is_fatal _ = false

abbrev pub has_key : ℕ → List Connection → Bool
has_key k cs = any (λ c. eqb k c.key) cs

-- `clients` in a process that runs; `ended` is a process that an error has ended.
pub data Service : Type 0 where
  ended : Service
  running : List Connection → Service

-- `parse` is `JSON.parse`, `none` where it throws.
module _ (parse : String → Option Json) where
  unfoldable pub notify : String → List Connection → List Connection
  unfolding broadcast
  notify payload cs = elim (parse payload) [ none ↦ cs | some event ↦ broadcast event cs ]

  unfoldable pub happen : Service → Event → Service
  unfolding notify
  happen ended e = ended
  happen (running cs) (connection key) =
      running (cs ++ (record { key = key; client = connected } ∷ []))
  happen (running cs) (notification payload) = running (notify payload cs)
  happen (running cs) (at key input) =
      if is_fatal input && has_key key cs then ended else running (react_at key input cs)
  happen (running cs) (close key) = running (delete key cs)

  unfoldable pub serve : Service → List Event → Service
  unfolding happen
  serve s [] = s
  serve s (e ∷ es) = serve (happen s e) es

  -- The inputs of the client under a key.
  unfoldable pub seen : ℕ → List Event → List Input
  seen k [] = []
  seen k (connection key ∷ es) = seen k es
  seen k (notification payload ∷ es) =
      let rest = seen k es in
      elim (parse payload) [ none ↦ rest | some event ↦ offered event ∷ rest ]
  seen k (at key input ∷ es) = let rest = seen k es in if eqb k key then input ∷ rest else rest
  seen k (close key ∷ es) = seen k es
