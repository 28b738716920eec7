-- ===== src/Discovery.antt =====
-- services/discovery-svc/src/index.ts: the servers that were seen, the announcement, and the invites.
-- The Map of servers is the list of its values in the order of their first insertion, each under the
-- key `serverId`; a time is a number of milliseconds.
pub mod Servers
pub mod Invites
mod Tests
use tactix.Common.{
  ℕ, ◌+◌, ◌*◌, ◌-◌, String, Bool, true, false, not, Option, none, some, List, [], ◌∷◌, ◌++◌, keep,
  ltb, ◌==◌, truthy, if◌then◌else◌,
}

-- `ServerInfo`; its source is always mdns
pub record ServerInfo : Type 0 where
  pub server_id : String
  pub name : String
  pub url : String
  pub tls : Bool
  pub fingerprint : String
  pub last_seen : ℕ

-- `discovered`, and whether `ad` is set
pub record Directory : Type 0 where
  pub discovered : List ServerInfo
  pub announced : Bool

-- The names and keys of this server, from its environment and `initKeys`.
pub record Self : Type 0 where
  pub server_id : String
  pub name : String
  pub url : String
  pub fingerprint : String
  pub invite_ttl_hours : ℕ

-- `discovered.set(info.serverId, info)`
unfoldable pub set_server : ServerInfo → List ServerInfo → List ServerInfo
set_server info [] = info ∷ []
set_server info (x ∷ xs) =
    let rest = set_server info xs in if x.server_id == info.server_id then info ∷ xs else x ∷ rest

-- `now - info.lastSeen > 60_000`
abbrev pub is_stale : (now : ℕ) → ServerInfo → Bool
is_stale now info = ltb 60_000 (now - info.last_seen)

-- `prune`
unfoldable pub prune : (now : ℕ) → Directory → Directory
prune now d = record d { discovered = keep (λ x. not (is_stale now x)) d.discovered }

-- The callback of `startBrowse` on a service that was read as `info`.
unfoldable pub seen : ServerInfo → Directory → Directory
seen info d = record d { discovered = set_server info d.discovered }

-- `announce`
unfoldable pub announce : Self → (now : ℕ) → Directory → Directory
announce self now d = if d.announced then d else record {
  discovered =
      set_server
        (record {
          server_id = self.server_id;
          name = self.name;
          url = self.url;
          tls = false;
          fingerprint = self.fingerprint;
          last_seen = now;
        })
        d.discovered;
  announced = true;
}

-- `stopAnnounce`
unfoldable pub stop_announce : Directory → Directory
stop_announce d = record d { announced = false }

-- GET /discovery/servers
unfoldable pub get_servers : (now : ℕ) → Directory → List ServerInfo × Directory
unfolding prune
get_servers now d = let left = prune now d in (left.discovered, left)

-- What is signed; a field that an invite leaves out is `none`.
pub record Payload : Type 0 where
  pub server_id : Option String
  pub url : Option String
  pub fingerprint : Option String
  pub exp : Option ℕ

pub data VerifyReply : Type 0 where
  invite_required : VerifyReply
  invalid_signature : VerifyReply
  expired : VerifyReply
  invalid_invite : VerifyReply
  accepted : Payload → VerifyReply

-- `Date.now() > decoded.exp`; false for what is no number
abbrev pub is_expired : (now : ℕ) → Option ℕ → Bool
is_expired now none = false
is_expired now (some exp) = ltb exp now

abbrev pub payload_of : Self → (exp : ℕ) → Payload
payload_of self exp = record {
  server_id = some self.server_id;
  url = some self.url;
  fingerprint = some self.fingerprint;
  exp = some exp;
}

-- `customExp ?? Date.now() + INVITE_TTL_HOURS * 3_600_000`
abbrev pub expiry : Self → Option ℕ → (now : ℕ) → ℕ
expiry self none now = now + self.invite_ttl_hours * 3_600_000
expiry self (some exp) now = exp

-- The answer on a payload, by the outcome of `verify`.
abbrev pub judge : (now : ℕ) → Payload → Option Bool → VerifyReply
judge now payload none = invalid_invite
judge now payload (some false) = invalid_signature
judge now payload (some true) = if is_expired now payload.exp then expired else accepted payload

-- `sign` and `verify` are those of node:crypto with the keys of the server, `encode` and `decode` the
-- JSON in base64; `none` is an exception.
module _ (sign : Payload → String) (verify : Payload → String → Option Bool)
    (encode : Payload → String → String) (decode : String → Option (Payload × String)) where
  -- `createInvite`, without its QR code
  unfoldable pub create_invite : Self → (custom_exp : Option ℕ) → (now : ℕ) → String
  create_invite self custom_exp now =
      let payload = payload_of self (expiry self custom_exp now) in encode payload (sign payload)

  -- POST /discovery/verify-invite, on `req.body.invite`
  unfoldable pub verify_invite : (now : ℕ) → Option String → VerifyReply
  verify_invite now none = invite_required
  verify_invite now (some invite) =
      if truthy (some invite)
      then (elim (decode invite) [
        | none ↦ invalid_invite
        | some (payload, sig) ↦ judge now payload (verify payload sig)
      ])
      else invite_required
