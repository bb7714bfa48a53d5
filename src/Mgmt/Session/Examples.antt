-- ===== src/Mgmt/Session/Examples.antt =====
-- Runs of the monitor of mgmt/session, and its theorems at concrete inputs.
use Prim.Native.String.{String}
use text.Mathlib.TextEquality.{eq_iff}
use wgservermgr.Prelude.{◌≡◌, refl, ◌≢◌, subst, Bool, true, false, some, List, [], ◌∷◌, arith}
use wgservermgr.Prelude.Int.{pos}
use wgservermgr.Prelude.Maps.{string_key, lookup}
use wgservermgr.Mgmt.Time.{Time, Duration, is_zero, sub}
use wgservermgr.Mgmt.Peers.{PeerInfo}
use wgservermgr.Mgmt.Store.{User}
use wgservermgr.Mgmt.Session.Locks.{Transition, handle_user-Transition}
use wgservermgr.Mgmt.Session.Takeover.{Sight, watch, watch-keeps_endpoint}
use wgservermgr.Mgmt.Session.Ticks.{IsNamed, WellFormed, watched, tick-WellFormed, tick-unwatched}
use wgservermgr.Mgmt.Session.{
  LockState, Registry, Clock, handle_user, tick, lock_active, set_peer_endpoint, blocked, get_lock,
  other_endpoint,
}

abbrev alice : User
alice = record {
  id = "u1";
  name = "alice";
  public_key = "pk1";
  private_key = "sk1";
  assigned_ip = "10.8.0.2";
  bandwidth_mbps = pos 0;
  tc_class_id = pos 2;
  enabled = true;
  created_at = pos 1;
  updated_at = pos 1;
}

-- 100 seconds after the start of Unix time.
abbrev handshake : Time
handshake = pos 62_135_596_900_000_000_000

abbrev now : Time
now = pos 62_135_596_950_000_000_000

abbrev clock : Clock
clock = record { at_handshake = now; at_lock = now; at_set = now }

abbrev three_minutes : Duration
three_minutes = pos 180_000_000_000

-- The peer shows up at a second device's endpoint.
abbrev second_device : PeerInfo
second_device = record {
  public_key = "pk1";
  endpoint = "198.51.100.7:4000";
  tx_bytes = 0;
  rx_bytes = 0;
  last_handshake_sec = pos 120;
  last_handshake_nsec = pos 0;
}

abbrev first_lock : LockState
first_lock = record { endpoint = "203.0.113.5:4000"; last_active = handshake }

abbrev registry : Registry
registry = ("u1", first_lock) ∷ []

abbrev device_ok : String → String → Bool
device_ok k e = true

-- The device is told to go back to the first endpoint.
second_device_blocked :
    handle_user device_ok three_minutes clock alice second_device registry
    ≡ (registry, set_peer_endpoint "pk1" "203.0.113.5:4000" ∷ blocked "alice" ∷ [])
unfolding handle_user get_lock other_endpoint lock_active is_zero sub
second_device_blocked = refl

handle_user-Transition_example :
    Transition three_minutes clock second_device
      (some first_lock)
      (lookup "u1" (handle_user device_ok three_minutes clock alice second_device registry).0)
handle_user-Transition_example =
    handle_user-Transition device_ok three_minutes clock alice second_device registry

abbrev sights : List Sight
sights = record { info = second_device; clock = clock; device_ok = device_ok } ∷ []

still_active : lock_active three_minutes now handshake ≡ true
unfolding lock_active is_zero sub
still_active = refl

named_first : first_lock.endpoint ≢ ""
named_first h = ground (arith, eq_iff "203.0.113.5:4000" "")

watch-keeps_endpoint_example :
    (l' : LockState) × (lookup "u1" (watch three_minutes alice sights registry) ≡ some l')
    × (l'.endpoint ≡ "203.0.113.5:4000")
watch-keeps_endpoint_example =
    watch-keeps_endpoint three_minutes alice sights registry first_lock refl named_first
      (still_active, tt)

registry-WellFormed : WellFormed registry
unfolding is_zero
registry-WellFormed id l h =
    subst IsNamed (lock_at id l h) (record { named = named_first; stamped = refl })
  where
    lock_at : (id : String) (l : LockState) → lookup id registry ≡ some l → first_lock ≡ l
    lock_at id l h = ground arith

tick-WellFormed_example :
    WellFormed
      (tick device_ok three_minutes
        (λ id. clock)
        (some (alice ∷ []))
        (some (("pk1", second_device) ∷ []))
        registry).0
tick-WellFormed_example =
    tick-WellFormed device_ok three_minutes (λ id. clock) (some (alice ∷ []))
      (some (("pk1", second_device) ∷ [])) registry registry-WellFormed

unwatched :
    watched (("pk1", second_device) ∷ []) (record alice { enabled = false } ∷ []) "u1" ≡ false
unfolding watched
unwatched = refl

tick-unwatched_example :
    lookup "u1"
      (tick device_ok three_minutes
        (λ id. clock)
        (some (record alice { enabled = false } ∷ []))
        (some (("pk1", second_device) ∷ []))
        registry).0
    ≡ some first_lock
tick-unwatched_example =
    tick-unwatched device_ok three_minutes (λ id. clock) (record alice { enabled = false } ∷ [])
      (("pk1", second_device) ∷ []) "u1" registry unwatched
