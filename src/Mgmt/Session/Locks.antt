-- ===== src/Mgmt/Session/Locks.antt =====
-- mgmt/session/monitor.go: how one observation of a peer moves the lock of its user.
use Prim.Native.String.{String}
use text.Mathlib.Text.{◌==◌ as str_eq}
use text.Mathlib.TextEquality.{eq_iff}
use wgservermgr.Prelude.{
  ◌≡◌, refl, sym, ◌∙◌, subst, ◌≢◌, Bool, true, false, ◌&&◌, ◌||◌, not, if◌then◌else◌, Option, none,
  some, List, ◌⊎◌, inl, inr, Bool-cases, Option-cases, arith,
}
use wgservermgr.Prelude.Maps.{string_key, lookup, lookup-insert, lookup-delete, same_refl}
use wgservermgr.Mgmt.Time.{Time, Duration, zero_time, is_zero, after}
use wgservermgr.Mgmt.Peers.{PeerInfo, last_handshake, has_recent_handshake}
use wgservermgr.Mgmt.Store.{User}
use wgservermgr.Mgmt.Session.{
  LockState, Registry, Clock, Effect, set_lock, get_lock, clear_lock, lock_active, no_lock,
  same_endpoint, other_endpoint, handle_user,
}

pub clear_lock-own : (id : String) (r : Registry) → lookup id (clear_lock id r) ≡ none
unfolding clear_lock
clear_lock-own id r = lookup-delete id id r ∙ rw (same_refl id)

pub has_recent_handshake-nonzero :
    (info : PeerInfo) (idle : Duration) (now : Time)
    → has_recent_handshake info idle now ≡ true
    → is_zero (last_handshake info) ≡ false
unfolding has_recent_handshake
has_recent_handshake-nonzero info idle now h = ground arith

some_injective : {x y : LockState} → some x ≡ some y → x ≡ y
some_injective h = cc

module _ (idle : Duration) (clock : Clock) (info : PeerInfo) where
  -- What the monitor may do with a lock, `o` before and `o'` after it sees the peer at `info`.
  pub data Transition (o o' : Option LockState) : Type 0 where
    kept : o' ≡ o → Transition o o'
    -- A lock goes when it was idle for too long.
    released :
        (l : LockState)
        → o ≡ some l
        → lock_active idle clock.at_lock l.last_active ≡ false
        → o' ≡ none
        → Transition o o'
    -- A later handshake from the locked endpoint keeps it alive.
    renewed :
        (l l' : LockState)
        → o ≡ some l
        → o' ≡ some l'
        → l'.endpoint ≡ l.endpoint
        → info.endpoint ≡ l.endpoint
        → has_recent_handshake info idle clock.at_handshake ≡ true
        → l'.last_active ≡ last_handshake info
        → (is_zero l.last_active || after (last_handshake info) l.last_active) ≡ true
        → Transition o o'
    -- An endpoint with a recent handshake takes the session, unless an active lock is in the way.
    taken :
        (l' : LockState)
        → o' ≡ some l'
        → l'.endpoint ≡ info.endpoint
        → l'.endpoint ≢ ""
        → has_recent_handshake info idle clock.at_handshake ≡ true
        → l'.last_active ≡ last_handshake info
        → ((l : LockState)
            → o ≡ some l
            → (l.endpoint ≡ "") ⊎ (lock_active idle clock.at_lock l.last_active ≡ false))
        → Transition o o'

module _ (device_ok : String → String → Bool) (idle : Duration) (clock : Clock) (user : User)
    (info : PeerInfo) (r : Registry) where
  own-set :
      (endpoint : String)
      → has_recent_handshake info idle clock.at_handshake ≡ true
      → lookup user.id (set_lock user.id endpoint (last_handshake info) clock.at_set r)
        ≡ some (record { endpoint = endpoint; last_active = last_handshake info })
  unfolding set_lock
  own-set endpoint h =
      lookup-insert user.id user.id _ r
      ∙ rw (same_refl user.id, has_recent_handshake-nonzero info idle clock.at_handshake h)

  own-clear : lookup user.id (clear_lock user.id r) ≡ none
  own-clear = clear_lock-own user.id r

  -- An endpoint takes the session.
  take_over :
      (l : Registry)
      → l ≡ set_lock user.id info.endpoint (last_handshake info) clock.at_set r
      → (has_recent_handshake info idle clock.at_handshake && not (str_eq info.endpoint "")) ≡ true
      → ((l : LockState)
          → lookup user.id r ≡ some l
          → (l.endpoint ≡ "") ⊎ (lock_active idle clock.at_lock l.last_active ≡ false))
      → Transition idle clock info (lookup user.id r) (lookup user.id l)
  take_over l e h free =
      taken (record { endpoint = info.endpoint; last_active = last_handshake info })
        (rw e (own-set info.endpoint (ground arith))) refl
        (λ empty. ground (arith, eq_iff info.endpoint "")) (ground arith) refl free

  abbrev Moves : Registry × List Effect → Type 0
  Moves out = Transition idle clock info (lookup user.id r) (lookup user.id out.0)

  no_lock-Transition :
      ((l : LockState) → lookup user.id r ≡ some l → l.endpoint ≡ "")
      → Moves (no_lock device_ok idle clock user info r)
  unfolding no_lock
  no_lock-Transition unheld =
      elim (Bool-cases
        (has_recent_handshake info idle clock.at_handshake && not (str_eq info.endpoint ""))) [
          | inl new ↦ rw new (take_over _ refl new (λ l e. inl (unheld l e)))
          | inr idle' ↦ rw idle' (kept refl)
        ]

  module _ (lock : LockState) (held : lookup user.id r ≡ some lock) where
    forget :
        (b : Bool)
        → b ≡ lock_active idle clock.at_lock lock.last_active
        → Transition idle clock info
            (lookup user.id r)
            (lookup user.id (if not b then clear_lock user.id r else r))
    forget true e = kept refl
    forget false e = released lock held (sym e) own-clear

    refresh :
        (b : Bool)
        → b ≡ is_zero lock.last_active || after (last_handshake info) lock.last_active
        → info.endpoint ≡ lock.endpoint
        → has_recent_handshake info idle clock.at_handshake ≡ true
        → Transition idle clock info (lookup user.id r) (
            lookup user.id (
              if b then set_lock user.id lock.endpoint (last_handshake info) clock.at_set r else r))
    refresh true e same recent =
        renewed lock (record { endpoint = lock.endpoint; last_active = last_handshake info }) held
          (own-set lock.endpoint recent) refl same recent refl (sym e)
    refresh false e same recent = kept refl

    same_endpoint-Transition :
        info.endpoint ≡ lock.endpoint → Moves (same_endpoint device_ok idle clock user info lock r)
    unfolding same_endpoint
    same_endpoint-Transition same =
        elim (Bool-cases (has_recent_handshake info idle clock.at_handshake)) [
          | inl recent ↦ rw recent (refresh _ refl same recent)
          | inr stale ↦ rw stale (forget _ refl)
        ]

    other_endpoint-Transition : Moves (other_endpoint device_ok idle clock user info lock r)
    unfolding other_endpoint
    other_endpoint-Transition =
        elim (Bool-cases
          (lock_active idle clock.at_lock lock.last_active && not (str_eq info.endpoint ""))) [
            | inl guarded ↦ rw guarded (kept refl)
            | inr open_ ↦
                elim (Bool-cases (
                  has_recent_handshake info idle clock.at_handshake
                  && not (str_eq info.endpoint ""))) [
                    | inl new ↦
                        rw (open_, new) (take_over _ refl new (λ l e. inr (inactive l e open_ new)))
                    | inr old ↦ rw (open_, old) (forget _ refl)
                  ]
          ]
      where
        inactive :
            (l : LockState)
            → lookup user.id r ≡ some l
            → (lock_active idle clock.at_lock lock.last_active && not (str_eq info.endpoint ""))
              ≡ false
            → (has_recent_handshake info idle clock.at_handshake && not (str_eq info.endpoint ""))
              ≡ true
            → lock_active idle clock.at_lock l.last_active ≡ false
        inactive l e p q =
            let same : lock ≡ l = some_injective (sym held ∙ e) in
            subst (λ k. lock_active idle clock.at_lock k.last_active ≡ false) same (ground arith)

get_lock-missing :
    (r : Registry) (id : String) → lookup id r ≡ none → get_lock r id ≡ ("", zero_time, false)
unfolding get_lock
get_lock-missing r id e = rw (e, get_lock)

get_lock-held :
    (r : Registry) (id : String) (lock : LockState)
    → lookup id r ≡ some lock
    → get_lock r id ≡ (lock.endpoint, lock.last_active, true)
unfolding get_lock
get_lock-held r id lock e = rw (e, get_lock)

-- Every way through `handleUser` keeps the user's lock, releases one that was idle for too long,
-- renews one by a later handshake from its endpoint, or gives the session to a named endpoint
-- with a recent handshake where no active lock with an endpoint is in the way.
pub handle_user-Transition :
    (device_ok : String → String → Bool) (idle : Duration) (clock : Clock) (user : User)
    (info : PeerInfo) (r : Registry)
    → Transition idle clock info
        (lookup user.id r)
        (lookup user.id (handle_user device_ok idle clock user info r).0)
unfolding handle_user
handle_user-Transition device_ok idle clock user info r = elim (Option-cases (lookup user.id r)) [
  | inl e ↦
      rw (get_lock-missing r user.id e)
        (no_lock-Transition device_ok idle clock user info r (λ l h. cc))
  | inr (lock, e) ↦ elim (Bool-cases (str_eq lock.endpoint "")) [
    | inl empty ↦
        rw (get_lock-held r user.id lock e, empty)
          (no_lock-Transition device_ok idle clock user info r (λ l h.
            subst (λ (k : LockState). k.endpoint ≡ "") (some_injective (sym e ∙ h))
              ((eq_iff _ _).0 empty)))
    | inr named ↦ elim (Bool-cases (str_eq info.endpoint lock.endpoint)) [
      | inl same ↦
          rw (get_lock-held r user.id lock e, named, same)
            (same_endpoint-Transition device_ok idle clock user info r lock e ((eq_iff _ _).0 same))
      | inr other ↦
          rw (get_lock-held r user.id lock e, named, other)
            (other_endpoint-Transition device_ok idle clock user info r lock e)
    ]
  ]
]

-- Nobody else's lock moves.
module _ (device_ok : String → String → Bool) (idle : Duration) (clock : Clock) (user : User)
    (info : PeerInfo) (r : Registry) (id : String)
    (else_ : string_key.same user.id id ≡ false) where
  set-other : (e : String) (t n : Time) → lookup id (set_lock user.id e t n r) ≡ lookup id r
  unfolding set_lock
  set-other e t n = lookup-insert user.id id _ r ∙ rw else_

  clear-other : lookup id (clear_lock user.id r) ≡ lookup id r
  unfolding clear_lock
  clear-other = lookup-delete user.id id r ∙ rw else_

  abbrev Unmoved : Registry × List Effect → Type 0
  Unmoved out = lookup id out.0 ≡ lookup id r

  no_lock-other : Unmoved (no_lock device_ok idle clock user info r)
  unfolding no_lock
  no_lock-other = ground (arith, set-other info.endpoint (last_handshake info) clock.at_set)

  same_endpoint-other : (l : LockState) → Unmoved (same_endpoint device_ok idle clock user info l r)
  unfolding same_endpoint
  same_endpoint-other l =
      ground (arith, set-other l.endpoint (last_handshake info) clock.at_set, clear-other)

  other_endpoint-other :
      (l : LockState) → Unmoved (other_endpoint device_ok idle clock user info l r)
  unfolding other_endpoint
  other_endpoint-other l =
      ground (arith, set-other info.endpoint (last_handshake info) clock.at_set, clear-other)

  pub handle_user-other : lookup id (handle_user device_ok idle clock user info r).0 ≡ lookup id r
  unfolding handle_user
  handle_user-other =
      let (e, t, h) = get_lock r user.id in
      let l : LockState = record { endpoint = e; last_active = t } in
      ground (arith, no_lock-other, same_endpoint-other l, other_endpoint-other l)
