-- ===== src/Mgmt/Api/Switch.antt =====
-- mgmt/api/server.go: what a request to update a user does to the device.
use Prim.Native.String.{String}
use wgservermgr.Prelude.{
  ◌≡◌, ◌≢◌, refl, sym, ap, ◌⊎◌, Bool, true, false, Option, none, some, inl, inr, arith, subst,
  Bool-cases,
}
use wgservermgr.Prelude.Int.{ℤ}
use wgservermgr.Prelude.Maps.{string_key, lookup}
use wgservermgr.Mgmt.Time.{Time}
use wgservermgr.Mgmt.Result.{ok, Result-cases}
use wgservermgr.Mgmt.Store.{User, UpdateUserInput}
use wgservermgr.Mgmt.Store.Sqlite.{Sqlite, Formats}
use wgservermgr.Mgmt.Store.Users.{update_user}
use wgservermgr.Mgmt.Session.{Registry}
use wgservermgr.Mgmt.Session.Locks.{clear_lock-own}
use wgservermgr.Mgmt.Api.{
  Services, World, Response, shows, update_handler, limit_then_switch, switch_if, switch_user,
  negative,
}
use wgservermgr.Mgmt.Api.Access.{store_error-ne}

module _ (s : Sqlite) (f : Formats) (v : Services) where
  -- The device and the locks that the calls make of those before, for a user who is enabled or not.
  pub Set : User → v.Device → Registry → v.Device → Registry → Bool → Type 0
  Set user device locks device' locks' true =
      (v.add_peer user.public_key user.assigned_ip device ≡ (device', true)) × (locks' ≡ locks)
  Set user device locks device' locks' false =
      (v.remove_peer user.public_key device ≡ (device', true)) × (lookup user.id locks' ≡ none)

  -- The same where the request has a flag; without one nothing changes.
  pub SetIf : User → v.Device → Registry → v.Device → Registry → Option Bool → Type 0
  unfolding Set
  SetIf user device locks device' locks' none = (device' ≡ device) × (locks' ≡ locks)
  SetIf user device locks device' locks' (some b) =
      Set user device locks device' locks' user.enabled

  -- How the calls after the store end: with another status, or with the user and the device set.
  data Ended (flag : Option Bool) (user : User) (w : World s f v) (out : World s f v × Response)
      : Type 0 where
    stopped : out.0.db ≡ w.db → out.1.status ≢ 200 → Ended flag user w out
    finished :
        out.0.db ≡ w.db
        → out.1 ≡ record { status = 200; body = shows user }
        → SetIf user w.device w.locks out.0.device out.0.locks flag
        → Ended flag user w out

  switch_user-Ended :
      (b : Bool) (user : User) (w : World s f v)
      → user.enabled ≡ b
      → (flag : Bool) → Ended (some flag) user w (switch_user s f v b user w)
  unfolding switch_user SetIf Set
  switch_user-Ended true user w on flag =
      elim (Bool-cases (v.add_peer user.public_key user.assigned_ip w.device).1) [
        | inr refused ↦ rw refused (stopped refl (ground arith))
        | inl added ↦ elim (Bool-cases (v.apply_limit user w.limiter).1) [
          | inr unlimited ↦ rw (added, unlimited) (stopped refl (ground arith))
          | inl applied ↦
              rw (added, applied)
                (finished refl refl (
                  subst (Set user w.device w.locks _ _) (sym on) (
                    ap (λ b. ((v.add_peer user.public_key user.assigned_ip w.device).0, b)) added,
                    refl,
                  )))
        ]
      ]
  switch_user-Ended false user w off flag =
      elim (Bool-cases (v.remove_peer user.public_key w.device).1) [
        | inr refused ↦ rw refused (stopped refl (ground arith))
        | inl removed ↦ rw removed (
            finished refl refl (
              subst (Set user w.device w.locks _ _) (sym off) (
                ap (λ b. ((v.remove_peer user.public_key w.device).0, b)) removed,
                clear_lock-own user.id w.locks,
              )))
      ]

  switch_if-Ended :
      (flag : Option Bool) (user : User) (w : World s f v)
      → Ended flag user w (switch_if s f v flag user w)
  unfolding switch_if SetIf
  switch_if-Ended none user w = finished refl refl (refl, refl)
  switch_if-Ended (some b) user w = switch_user-Ended user.enabled user w refl b

  of_limited :
      (flag : Option Bool) (user : User) (w : World s f v) (limiter : v.Limiter)
      {out : World s f v × Response}
      → Ended flag user (record w { limiter = limiter }) out
      → Ended flag user w out
  of_limited flag user w limiter (stopped same status) = stopped same status
  of_limited none user w limiter (finished same shown set) = finished same shown set
  of_limited (some b) user w limiter (finished same shown set) = finished same shown set

  limit_then_switch-Ended :
      (input : UpdateUserInput) (limit : Option ℤ) (user : User) (w : World s f v)
      → Ended input.enabled user w (limit_then_switch s f v input limit user w)
  unfolding limit_then_switch SetIf Set
  limit_then_switch-Ended input none user w = switch_if-Ended input.enabled user w
  limit_then_switch-Ended input (some b) user w =
      elim (Bool-cases (v.update_limit user w.limiter).1) [
        | inr refused ↦ rw (limit_then_switch, refused) (stopped refl (ground arith))
        | inl done ↦
            rw (limit_then_switch, done)
              (of_limited input.enabled user w (v.update_limit user w.limiter).0 (
                switch_if-Ended input.enabled user
                  (record w { limiter = (v.update_limit user w.limiter).0 })))
      ]

  -- How a request may end: refused with nothing changed, or with the row changed and then either
  -- another status or the user and the device set.
  pub data Updated (id : String) (input : Option UpdateUserInput) (now : Time) (w : World s f v)
      (out : World s f v × Response) : Type 0 where
    refused : out.0 ≡ w → out.1.status ≢ 200 → Updated id input now w out
    stored :
        (change : UpdateUserInput) (user : User) (db : s.Db)
        → input ≡ some change
        → update_user s f id change now w.db ≡ ok (user, db)
        → out.0.db ≡ db
        → (out.1.status ≢ 200)
          ⊎ ((out.1 ≡ record { status = 200; body = shows user })
              × SetIf user w.device w.locks out.0.device out.0.locks change.enabled)
        → Updated id input now w out

  of_stored :
      (id : String) (input : UpdateUserInput) (now : Time) (w : World s f v) (user : User)
      (db : s.Db) {out : World s f v × Response}
      → update_user s f id input now w.db ≡ ok (user, db)
      → Ended input.enabled user (record w { db = db }) out
      → Updated id (some input) now w out
  of_stored id input now w user db made (stopped same status) =
      stored input user db refl made same (inl status)
  of_stored id input now w user db made (finished same shown set) =
      stored input user db refl made same (inr (shown, set))

-- A request to update a user changes nothing and is answered with another status than 200, or the
-- store changes the row. It is then answered with 200 only with the user shown and, where the
-- request has the flag `enabled`, after the device took the peer of an enabled user, or dropped
-- that of a disabled one whose session lock is gone; without the flag the device and the locks
-- stay.
pub update_handler-Updated :
    (s : Sqlite) (f : Formats) (v : Services) (id : String) (input : Option UpdateUserInput)
    (now : Time) (w : World s f v)
    → Updated s f v id input now w (update_handler s f v id input now w)
unfolding update_handler
update_handler-Updated s f v id none now w = refused refl (omega arith)
update_handler-Updated s f v id (some input) now w =
    elim (Bool-cases (negative s f v input.bandwidth_mbps)) [
      | inl bad ↦ rw (update_handler, bad) (refused refl (omega arith))
      | inr fine ↦ elim (Result-cases (update_user s f id input now w.db)) [
        | inl (e, failed) ↦ rw (update_handler, fine, failed) (refused refl (store_error-ne e))
        | inr ((user, db), made) ↦
            rw (update_handler, fine, made)
              (of_stored s f v id input now w user db made (
                limit_then_switch-Ended s f v input input.bandwidth_mbps user
                  (record w { db = db })))
      ]
    ]
