-- ===== src/Mgmt/Session.antt =====
-- mgmt/session: one active client endpoint for each user. registry.go keeps the locks, monitor.go
-- moves them every three seconds by what the device says of the peers.
pub mod Locks
pub mod Takeover
pub mod Ticks
mod Examples
use Prim.Native.String.{String}
use text.Mathlib.Text.{◌==◌ as str_eq}
use wgservermgr.Prelude.{
  ℕ, Bool, true, false, ◌&&◌, ◌||◌, not, if◌then◌else◌, Option, none, some, List, [], ◌∷◌, ◌++◌,
}
use wgservermgr.Prelude.Int.{ℤ, pos, leb_ℤ}
use wgservermgr.Prelude.Maps.{string_key, lookup, insert, delete}
use wgservermgr.Mgmt.Time.{Time, Duration, zero_time, is_zero, after, sub, seconds}
use wgservermgr.Mgmt.Peers.{PeerInfo, last_handshake, has_recent_handshake}
use wgservermgr.Mgmt.Store.{User}

pub record LockState : Type 0 where
  pub endpoint : String
  pub last_active : Time

abbrev pub Registry : Type 0
Registry = List (String × LockState)

abbrev pub new_registry : Registry
new_registry = []

-- `now` is the clock's reading, which stands in for a zero time.
pub set_lock : String → String → Time → Time → Registry → Registry
set_lock user_id endpoint active_at now r =
    insert user_id
      (record { endpoint = endpoint; last_active = if is_zero active_at then now else active_at }) r

pub get_lock : Registry → String → String × Time × Bool
get_lock r user_id = elim (lookup user_id r) [
  | none ↦ ("", zero_time, false)
  | some state ↦ (state.endpoint, state.last_active, true)
]

pub clear_lock : String → Registry → Registry
clear_lock user_id r = delete user_id r

-- What `handleUser` does besides: it calls the device, and it logs.
pub data Effect : Type 0 where
  set_peer_endpoint : String → String → Effect
  locked moved blocked revert_failed : String → Effect
  list_users_failed list_peers_failed : Effect

-- The readings of the clock, in `HasRecentHandshake`, in `time.Since` of the lock, and in `Set`.
pub record Clock : Type 0 where
  pub at_handshake : Time
  pub at_lock : Time
  pub at_set : Time

abbrev pub endpoints_equal : String → String → Bool
endpoints_equal a b = str_eq a b

-- The part of `handleUser` below its first return, for a lock `locked` that is held.
pub lock_active : Duration → Time → Time → Bool
lock_active idle now last_active = not (is_zero last_active) && leb_ℤ (sub now last_active) idle

-- `device_ok` says whether the device takes the endpoint that `SetPeerEndpoint` gives it.
module _ (device_ok : String → String → Bool) (idle : Duration) (clock : Clock) where
  -- The endpoint is the locked one.
  pub same_endpoint : User → PeerInfo → LockState → Registry → Registry × List Effect
  same_endpoint user info lock r =
      if has_recent_handshake info idle clock.at_handshake
      then (
        (if is_zero lock.last_active || after (last_handshake info) lock.last_active
            then set_lock user.id lock.endpoint (last_handshake info) clock.at_set r
            else r),
        [],
      )
      else (
        (if not (lock_active idle clock.at_lock lock.last_active) then clear_lock user.id r else r),
        [],
      )

  -- It is another one.
  pub other_endpoint : User → PeerInfo → LockState → Registry → Registry × List Effect
  other_endpoint user info lock r =
      let active = lock_active idle clock.at_lock lock.last_active in
      if active && not (str_eq info.endpoint "")
      then (
        r,
        set_peer_endpoint user.public_key lock.endpoint
            ∷ (if device_ok user.public_key lock.endpoint
                then blocked user.name
                else revert_failed user.name)
            ∷ [],
      )
      else if has_recent_handshake info idle clock.at_handshake && not (str_eq info.endpoint "")
      then (
        set_lock user.id info.endpoint (last_handshake info) clock.at_set r,
        moved user.name ∷ [],
      )
      else ((if not active then clear_lock user.id r else r), [])

  -- No lock, or one with no endpoint.
  pub no_lock : User → PeerInfo → Registry → Registry × List Effect
  no_lock user info r =
      if has_recent_handshake info idle clock.at_handshake && not (str_eq info.endpoint "")
      then (
        set_lock user.id info.endpoint (last_handshake info) clock.at_set r,
        locked user.name ∷ [],
      )
      else (r, [])

  pub handle_user : User → PeerInfo → Registry → Registry × List Effect
  handle_user user info r =
      let (locked_endpoint, locked_last_active, has_lock) = get_lock r user.id in
      let lock : LockState = record {
        endpoint = locked_endpoint;
        last_active = locked_last_active;
      } in
      if not has_lock || str_eq locked_endpoint ""
      then no_lock user info r
      else if endpoints_equal info.endpoint locked_endpoint
      then same_endpoint user info lock r
      else other_endpoint user info lock r

-- `Start`: an idle time that is not positive becomes three minutes.
pub idle_timeout : ℤ → Duration
idle_timeout idle_seconds = seconds (if leb_ℤ idle_seconds (pos 0) then pos 180 else idle_seconds)

-- `tick`. `none` is an error of the call; each user's round has its own readings of the clock.
module _ (device_ok : String → String → Bool) (idle : Duration) (clock : String → Clock) where
  pub tick_user : List (String × PeerInfo) → User → Registry → Registry × List Effect
  tick_user peer_map user r =
      if not user.enabled then (r, []) else elim (lookup user.public_key peer_map) [
        | none ↦ (r, [])
        | some info ↦ handle_user device_ok idle (clock user.id) user info r
      ]

  pub tick_users : List (String × PeerInfo) → List User → Registry → Registry × List Effect
  tick_users peer_map [] r = (r, [])
  tick_users peer_map (user ∷ users) r =
      let (r', effects) = tick_user peer_map user r in
      let (r'', effects') = tick_users peer_map users r' in (r'', effects ++ effects')

  pub tick :
      Option (List User) → Option (List (String × PeerInfo)) → Registry → Registry × List Effect
  tick none peer_map r = (r, list_users_failed ∷ [])
  tick (some users) none r = (r, list_peers_failed ∷ [])
  tick (some users) (some peer_map) r = tick_users peer_map users r
