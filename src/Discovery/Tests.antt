-- ===== src/Discovery/Tests.antt =====
-- The theorems on discovery at concrete servers and invites, and runs. The test signature of a payload
-- is one fixed text, and an invite is encoded as one.
use tactix.Common.{
  String, ◌≡◌, refl, Bool, true, false, Option, none, some, [], ◌∷◌, ◌==◌, if◌then◌else◌,
}
use tactix.Discovery.{
  ServerInfo, Directory, Self, Payload, accepted, expired, invite_required, invalid_invite,
  payload_of, is_expired, create_invite, verify_invite, get_servers, seen, announce, prune,
  set_server, stop_announce,
}
use tactix.Discovery.Servers.{lookup, advertise, stop, more, get_servers-seen}
use tactix.Discovery.Invites.{verify_invite_sound}

discovery : Unit {0}
unfolding create_invite verify_invite get_servers seen announce prune set_server stop_announce
discovery = tt

abbrev self : Self
self = record {
  server_id = "me";
  name = "hq";
  url = "http://hq";
  fingerprint = "f0";
  invite_ttl_hours = 1;
}

abbrev other : ServerInfo
other = record {
  server_id = "b";
  name = "b";
  url = "http://b";
  tls = false;
  fingerprint = "f1";
  last_seen = 1000;
}

abbrev nobody : Directory
nobody = record { discovered = []; announced = false }

directory_tests :
    ((get_servers 61_000 (seen other (announce self 500 nobody))).0 ≡ other ∷ [])
    × ((get_servers 61_001 (seen other nobody)).0 ≡ [])
    × ((stop_announce (announce self 500 nobody)).announced ≡ false)
unfolding discovery
directory_tests = (refl, refl, refl)

get_servers-seen_test :
    lookup "b" (get_servers 61_000 (seen other (announce self 500 nobody))).0 ≡ some other
get_servers-seen_test =
    get_servers-seen other 61_000 "b" (more {d = nobody} (advertise self 500) stop) refl

abbrev sign : Payload → String
sign p = "sig"

abbrev verify : Payload → String → Option Bool
verify p s = some (s == "sig")

abbrev encode : Payload → String → String
encode p s = "invite"

abbrev decode : String → Option (Payload × String)
decode s = if s == "invite" then some (payload_of self 3_600_100, "sig") else none

invite_tests :
    (verify_invite sign verify encode decode 3_600_101 (some "invite") ≡ expired)
    × (verify_invite sign verify encode decode 100 none ≡ invite_required)
    × (verify_invite sign verify encode decode 100 (some "junk") ≡ invalid_invite)
    × (verify_invite sign verify encode decode 100 (some "invite")
        ≡ accepted (payload_of self 3_600_100))
unfolding discovery
invite_tests = (refl, refl, refl, refl)

round_trip_test :
    verify_invite sign verify encode decode 200
      (some (create_invite sign verify encode decode self none 100))
    ≡ accepted (payload_of self 3_600_100)
unfolding discovery
round_trip_test = refl

verify_invite_sound_example :
    (text : String) × (sig : String) × (some "invite" ≡ some text)
    × (decode text ≡ some (payload_of self 3_600_100, sig))
    × (verify (payload_of self 3_600_100) sig ≡ some true)
    × (is_expired 100 (some 3_600_100) ≡ false)
verify_invite_sound_example =
    verify_invite_sound sign verify encode decode 100 (some "invite") (payload_of self 3_600_100)
      (invite_tests.3)
