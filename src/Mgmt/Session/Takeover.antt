-- ===== src/Mgmt/Session/Takeover.antt =====
-- mgmt/session: a second device cannot take over an active session.
use Prim.Native.String.{String}
use wgservermgr.Prelude.{
  ◌≡◌, refl, sym, ◌∙◌, ◌≢◌, Bool, true, false, Option, some, List, [], ◌∷◌, ◌⊎◌, inl, inr, arith,
}
use wgservermgr.Prelude.Maps.{string_key, lookup}
use wgservermgr.Mgmt.Time.{Time, Duration, is_zero, after}
use wgservermgr.Mgmt.Time.Order.{sub-after}
use wgservermgr.Mgmt.Peers.{PeerInfo, last_handshake}
use wgservermgr.Mgmt.Store.{User}
use wgservermgr.Mgmt.Session.Locks.{
  Transition, kept, released, renewed, taken, handle_user-Transition, has_recent_handshake-nonzero,
}
use wgservermgr.Mgmt.Session.{LockState, Registry, Clock, lock_active, handle_user}

-- A later activity is active wherever an earlier one is.
lock_active-later :
    (idle : Duration) (now u v : Time)
    → lock_active idle now u ≡ true
    → is_zero v ≡ false
    → after v u ≡ true
    → lock_active idle now v ≡ true
unfolding lock_active
lock_active-later idle now u v a z h = ground (arith, sub-after now u v h)

lock_active-nonzero :
    (idle : Duration) (now u : Time) → lock_active idle now u ≡ true → is_zero u ≡ false
unfolding lock_active
lock_active-nonzero idle now u h = ground arith

lock_eq : (x y : LockState) → some x ≡ some y → x ≡ y
lock_eq x y h = cc

-- The monitor sees the peer of one user again and again.
pub record Sight : Type 0 where
  pub info : PeerInfo
  pub clock : Clock
  -- Whether the device takes an endpoint at that time.
  pub device_ok : String → String → Bool

pub watch : Duration → User → List Sight → Registry → Registry
watch idle user [] r = r
watch idle user (s ∷ ss) r =
    watch idle user ss (handle_user s.device_ok idle s.clock user s.info r).0

-- In each round the lock that was last active at `t` counts as active.
abbrev pub AllActive : Duration → Time → List Sight → Type 0
AllActive idle t [] = Unit {0}
AllActive idle t (s ∷ ss) = (lock_active idle s.clock.at_lock t ≡ true) × AllActive idle t ss

-- The lock names the endpoint, and is active whenever one that was last active at `t` is.
record HoldsFrom (idle : Duration) (endpoint : String) (t : Time) (o : Option LockState)
    : Type 0 where
  lock : LockState
  is : o ≡ some lock
  names : lock.endpoint ≡ endpoint
  lives :
      (now : Time) → lock_active idle now t ≡ true → lock_active idle now lock.last_active ≡ true

module _ (idle : Duration) (endpoint : String) (t : Time) (named : endpoint ≢ "") where
  Transition-HoldsFrom :
      (clock : Clock) (info : PeerInfo) {o o' : Option LockState}
      → Transition idle clock info o o'
      → lock_active idle clock.at_lock t ≡ true
      → HoldsFrom idle endpoint t o
      → HoldsFrom idle endpoint t o'
  Transition-HoldsFrom clock info (kept e) a h = record {
    lock = h.lock;
    is = e ∙ h.is;
    names = h.names;
    lives = h.lives;
  }
  Transition-HoldsFrom clock info (released l e gone e') a h = absurd (cc (h.lives clock.at_lock a))
  Transition-HoldsFrom clock info (renewed l l' e e' same at recent stamp later) a h = record {
    lock = l';
    is = e';
    names = cc (h.is, h.names);
    lives = λ now act. rw stamp (
        lock_active-later idle now h.lock.last_active (last_handshake info) (h.lives now act)
          (has_recent_handshake-nonzero info idle clock.at_handshake recent) is_later);
  }
    where
      is_later : after (last_handshake info) h.lock.last_active ≡ true
      is_later = ground (
        arith,
        lock_active-nonzero idle clock.at_lock h.lock.last_active (h.lives clock.at_lock a),
        lock_eq l h.lock (sym e ∙ h.is),
        later,
      )
  Transition-HoldsFrom clock info (taken l' e at ne recent stamp free) a h =
      absurd (go (free h.lock h.is))
    where
      go : (h.lock.endpoint ≡ "") ⊎ (lock_active idle clock.at_lock h.lock.last_active ≡ false) → ⊥
      go (inl empty) = named (sym h.names ∙ empty)
      go (inr gone) = cc (h.lives clock.at_lock a)

  watch-HoldsFrom :
      (user : User) (ss : List Sight) (r : Registry)
      → AllActive idle t ss
      → HoldsFrom idle endpoint t (lookup user.id r)
      → HoldsFrom idle endpoint t (lookup user.id (watch idle user ss r))
  unfolding watch
  watch-HoldsFrom user [] r a h = h
  watch-HoldsFrom user (s ∷ ss) r a h =
      watch-HoldsFrom user ss (handle_user s.device_ok idle s.clock user s.info r).0 a.1 (
        Transition-HoldsFrom s.clock s.info
          (handle_user-Transition s.device_ok idle s.clock user s.info r) a.0 h)

-- While a user's lock, with an endpoint that is not empty, is active by the time of its last
-- activity, no sequence of sights of the peer gives the session to another endpoint.
pub watch-keeps_endpoint :
    (idle : Duration) (user : User) (ss : List Sight) (r : Registry) (l : LockState)
    → lookup user.id r ≡ some l
    → l.endpoint ≢ ""
    → AllActive idle l.last_active ss
    → (l' : LockState) × (lookup user.id (watch idle user ss r) ≡ some l')
      × (l'.endpoint ≡ l.endpoint)
watch-keeps_endpoint idle user ss r l e named a =
    let h =
      watch-HoldsFrom idle l.endpoint l.last_active named user ss r a
        (record { lock = l; is = e; names = refl; lives = λ now act. act }) in
    (h.lock, h.is, h.names)
