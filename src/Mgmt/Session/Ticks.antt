-- ===== src/Mgmt/Session/Ticks.antt =====
-- mgmt/session/monitor.go: what a whole tick keeps.
use Prim.Native.String.{String}
use wgservermgr.Prelude.{
  ◌≡◌, refl, sym, ◌∙◌, subst, ◌≢◌, Bool, true, false, ◌&&◌, ◌||◌, not, Option, none, some, List, [],
  ◌∷◌, inl, inr, Bool-cases, Option-cases, arith,
}
use wgservermgr.Prelude.Maps.{string_key, lookup}
use wgservermgr.Mgmt.Time.{Duration, is_zero}
use wgservermgr.Mgmt.Peers.{PeerInfo}
use wgservermgr.Mgmt.Store.{User}
use wgservermgr.Mgmt.Session.Locks.{
  Transition, kept, released, renewed, taken, handle_user-Transition, handle_user-other,
  has_recent_handshake-nonzero,
}
use wgservermgr.Mgmt.Session.{LockState, Registry, Clock, handle_user, tick_user, tick_users, tick}

-- A lock names an endpoint and has been active.
pub record IsNamed (l : LockState) : Type 0 where
  pub named : l.endpoint ≢ ""
  pub stamped : is_zero l.last_active ≡ false

abbrev pub IsNamedAt : Registry → String → Type 0
IsNamedAt r id = (l : LockState) → lookup id r ≡ some l → IsNamed l

abbrev pub WellFormed : Registry → Type 0
WellFormed r = (id : String) → IsNamedAt r id

lock_eq : (x y : LockState) → some x ≡ some y → x ≡ y
lock_eq x y h = cc

Transition-IsNamed :
    (idle : Duration) (clock : Clock) (info : PeerInfo) {o o' : Option LockState}
    → Transition idle clock info o o'
    → ((l : LockState) → o ≡ some l → IsNamed l)
    → (l : LockState) → o' ≡ some l
    → IsNamed l
Transition-IsNamed idle clock info (kept e) v l h = v l (sym e ∙ h)
Transition-IsNamed idle clock info (released m e gone e') v l h = absurd (cc)
Transition-IsNamed idle clock info (renewed m l' e e' same at recent stamp later) v l h =
    subst IsNamed (lock_eq l' l (sym e' ∙ h)) (record {
      named = λ empty. (v m e).named (sym same ∙ empty);
      stamped = rw stamp (has_recent_handshake-nonzero info idle clock.at_handshake recent);
    })
Transition-IsNamed idle clock info (taken l' e at ne recent stamp free) v l h =
    subst IsNamed (lock_eq l' l (sym e ∙ h)) (record {
      named = ne;
      stamped = rw stamp (has_recent_handshake-nonzero info idle clock.at_handshake recent);
    })

module _ (device_ok : String → String → Bool) (idle : Duration) where
  handle_user-WellFormed :
      (clock : Clock) (user : User) (info : PeerInfo) (r : Registry)
      → WellFormed r
      → WellFormed (handle_user device_ok idle clock user info r).0
  handle_user-WellFormed clock user info r v id = elim (Bool-cases (string_key.same user.id id)) [
    | inl same ↦
        subst (IsNamedAt (handle_user device_ok idle clock user info r).0)
          ((string_key.same_iff user.id id).0 same)
          (Transition-IsNamed idle clock info
            (handle_user-Transition device_ok idle clock user info r) (v user.id))
    | inr other ↦
        λ l h. v id l (sym (handle_user-other device_ok idle clock user info r id other) ∙ h)
  ]

  module _ (clock : String → Clock) where
    tick_user-WellFormed :
        (peer_map : List (String × PeerInfo)) (user : User) (r : Registry)
        → WellFormed r
        → WellFormed (tick_user device_ok idle clock peer_map user r).0
    unfolding tick_user
    tick_user-WellFormed peer_map user r v = elim (Bool-cases (not user.enabled)) [
      | inl off ↦ rw off v
      | inr on_ ↦ elim (Option-cases (lookup user.public_key peer_map)) [
        | inl e ↦ rw (on_, e, tick_user) v
        | inr (info, e) ↦
            rw (on_, e, tick_user) (handle_user-WellFormed (clock user.id) user info r v)
      ]
    ]

    tick_users-WellFormed :
        (peer_map : List (String × PeerInfo)) (users : List User) (r : Registry)
        → WellFormed r
        → WellFormed (tick_users device_ok idle clock peer_map users r).0
    unfolding tick_users
    tick_users-WellFormed peer_map [] r v = v
    tick_users-WellFormed peer_map (user ∷ users) r v =
        tick_users-WellFormed peer_map users (tick_user device_ok idle clock peer_map user r).0
          (tick_user-WellFormed peer_map user r v)

-- Each lock of the registry names an endpoint that is not empty and a time that is not zero: a
-- tick keeps that, whatever users and peers it finds, and whether or not its calls fail.
pub tick-WellFormed :
    (device_ok : String → String → Bool) (idle : Duration) (clock : String → Clock)
    (users : Option (List User)) (peer_map : Option (List (String × PeerInfo))) (r : Registry)
    → WellFormed r
    → WellFormed (tick device_ok idle clock users peer_map r).0
unfolding tick
tick-WellFormed device_ok idle clock none peer_map r v = v
tick-WellFormed device_ok idle clock (some users) none r v = v
tick-WellFormed device_ok idle clock (some users) (some peer_map) r v =
    tick_users-WellFormed device_ok idle clock peer_map users r v

-- Whether a tick looks at the lock of a user.
unfoldable pub watched : List (String × PeerInfo) → List User → String → Bool
watched peer_map [] id = false
watched peer_map (user ∷ users) id =
    (user.enabled
      && string_key.same user.id id
      && (elim (lookup user.public_key peer_map) [ none ↦ false | some info ↦ true ]))
    || watched peer_map users id

module _ (device_ok : String → String → Bool) (idle : Duration) (clock : String → Clock)
    (peer_map : List (String × PeerInfo)) (id : String) where
  tick_user-unwatched :
      (user : User) (r : Registry)
      → watched peer_map (user ∷ []) id ≡ false
      → lookup id (tick_user device_ok idle clock peer_map user r).0 ≡ lookup id r
  unfolding tick_user watched
  tick_user-unwatched user r h = elim (Bool-cases user.enabled) [
    | inr off ↦ rw off refl
    | inl on_ ↦ elim (Option-cases (lookup user.public_key peer_map)) [
      | inl e ↦ rw (on_, e, tick_user) refl
      | inr (info, e) ↦
          rw (on_, e, tick_user)
            (handle_user-other device_ok idle (clock user.id) user info r id (another info on_ e))
    ]
  ]
    where
      another :
          (info : PeerInfo)
          → user.enabled ≡ true
          → lookup user.public_key peer_map ≡ some info
          → string_key.same user.id id ≡ false
      another info on_ e = ground arith

  tick_users-unwatched :
      (users : List User) (r : Registry)
      → watched peer_map users id ≡ false
      → lookup id (tick_users device_ok idle clock peer_map users r).0 ≡ lookup id r
  unfolding tick_users watched
  tick_users-unwatched [] r h = refl
  tick_users-unwatched (user ∷ users) r h =
      tick_users-unwatched users (tick_user device_ok idle clock peer_map user r).0 (rest h)
      ∙ tick_user-unwatched user r (first h)
    where
      rest : watched peer_map (user ∷ users) id ≡ false → watched peer_map users id ≡ false
      rest h = ground arith

      first : watched peer_map (user ∷ users) id ≡ false → watched peer_map (user ∷ []) id ≡ false
      first h = ground arith

-- A tick that reads its users and peers leaves the lock of every user id alone that no enabled
-- user with a peer on the device has.
pub tick-unwatched :
    (device_ok : String → String → Bool) (idle : Duration) (clock : String → Clock)
    (users : List User) (peer_map : List (String × PeerInfo)) (id : String) (r : Registry)
    → watched peer_map users id ≡ false
    → lookup id (tick device_ok idle clock (some users) (some peer_map) r).0 ≡ lookup id r
unfolding tick
tick-unwatched device_ok idle clock users peer_map id r h =
    tick_users-unwatched device_ok idle clock peer_map id users r h
