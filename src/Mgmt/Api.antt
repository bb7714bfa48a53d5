-- ===== src/Mgmt/Api.antt =====
-- mgmt/api/server.go: the handlers of the HTTP interface. The store is that of mgmt/store, the locks
-- those of mgmt/session; the device's peers and the bandwidth limiter are interfaces here. A response
-- is its status and what its body shows; the texts of errors are left out.
pub mod Rollback
pub mod Access
pub mod Switch
mod Examples
use Prim.Native.String.{String}
use text.Mathlib.Text.{◌==◌ as str_eq}
use wgservermgr.Prelude.{
  ℕ, Bool, true, false, not, ◌||◌, if◌then◌else◌, Option, none, some, List, [], ◌∷◌,
}
use wgservermgr.Prelude.Int.{ℤ, pos, ltb_ℤ}
use wgservermgr.Mgmt.Time.{Time}
use wgservermgr.Mgmt.Result.{Error, Result, ok, err, no_rows, sql_error}
use wgservermgr.Mgmt.Store.{User, CreateUserInput, UpdateUserInput}
use wgservermgr.Mgmt.Store.Addresses.{Prefix}
use wgservermgr.Mgmt.Store.Sqlite.{Sqlite, Formats}
use wgservermgr.Mgmt.Store.Users.{create, get, list, update_user, delete_user}
use wgservermgr.Mgmt.Session.{Registry, clear_lock}

-- What the handlers call: `AddPeer` and `RemovePeer` of mgmt/peers, `Apply`, `Update` and `Remove`
-- of mgmt/ratelimit. Each may change its state also where it fails; the answer is its success.
pub record Services : Type 1 where
  pub Device : Type 0
  pub Limiter : Type 0
  pub add_peer : String → String → Device → Device × Bool
  pub remove_peer : String → Device → Device × Bool
  pub apply_limit : User → Limiter → Limiter × Bool
  pub update_limit : User → Limiter → Limiter × Bool
  pub remove_limit : User → Limiter → Limiter × Bool

pub data Body : Type 0 where
  failure unauthorized : Body
  shows : User → Body
  shows_all : List User → Body
  deleted : String → Body

pub record Response : Type 0 where
  pub status : ℕ
  pub body : Body

abbrev pub fail : ℕ → Response
fail status = record { status = status; body = failure }

-- `handleStoreError`
abbrev pub store_error : Error → Response
store_error no_rows = fail 404
store_error _ = fail 500

module _ (s : Sqlite) (f : Formats) (v : Services) where
  pub record World : Type 0 where
    pub db : s.Db
    pub device : v.Device
    pub limiter : v.Limiter
    pub locks : Registry

  -- `_, _ = s.store.Delete(id)`
  pub delete_ignored : String → s.Db → s.Db
  delete_ignored id db = elim (delete_user s f id db) [ ok (user, db') ↦ db' | err e ↦ db ]

  -- The end of `createUser`, once the store has the user.
  pub connect_user : User → World → World × Response
  connect_user user w =
      let (device, added) = v.add_peer user.public_key user.assigned_ip w.device in
      if not added
      then (record w { device = device; db = delete_ignored user.id w.db }, fail 502)
      else let (limiter, applied) = v.apply_limit user w.limiter in
        if not applied
        then (
          record w {
            device = (v.remove_peer user.public_key device).0;
            limiter = limiter;
            db = delete_ignored user.id w.db;
          },
          fail 500,
        )
        else (
          record w { device = device; limiter = limiter },
          record { status = 201; body = shows user },
        )

  pub store_user : World → Result (User × s.Db) → World × Response
  unfolding connect_user delete_ignored
  store_user w (err e) = (w, fail 409)
  store_user w (ok (user, db)) = connect_user user (record w { db = db })

  -- `input` is `none` where the body of the request does not bind, `keys` (public and private) where
  -- the random source fails.
  pub create_user :
      Prefix
      → Option CreateUserInput
      → Option (String × String)
      → String
      → Time
      → World
      → World × Response
  unfolding store_user
  create_user subnet none keys uuid now w = (w, fail 400)
  create_user subnet (some input) none uuid now w =
      (w, fail (if ltb_ℤ input.bandwidth_mbps (pos 0) then 400 else 500))
  create_user subnet (some input) (some (public_key, private_key)) uuid now w =
      if ltb_ℤ input.bandwidth_mbps (pos 0)
      then (w, fail 400)
      else store_user w (create s f subnet input public_key private_key uuid now w.db)

  -- The part of `updateUser` that turns a peer on or off.
  pub switch_user : Bool → User → World → World × Response
  switch_user true user w =
      let (device, added) = v.add_peer user.public_key user.assigned_ip w.device in
      if not added
      then (record w { device = device }, fail 502)
      else let (limiter, applied) = v.apply_limit user w.limiter in
        (
          record w { device = device; limiter = limiter },
          if applied then record { status = 200; body = shows user } else fail 500,
        )
  switch_user false user w =
      let (device, removed) = v.remove_peer user.public_key w.device in
      (
        record w {
          device = device;
          limiter = (v.remove_limit user w.limiter).0;
          locks = clear_lock user.id w.locks;
        },
        if removed then record { status = 200; body = shows user } else fail 502,
      )

  pub switch_if : Option Bool → User → World → World × Response
  unfolding switch_user
  switch_if none user w = (w, record { status = 200; body = shows user })
  switch_if (some b) user w = switch_user user.enabled user w

  pub limit_then_switch : UpdateUserInput → Option ℤ → User → World → World × Response
  unfolding switch_if
  limit_then_switch input none user w = switch_if input.enabled user w
  limit_then_switch input (some b) user w =
      let (limiter, done) = v.update_limit user w.limiter in
      let w' = record w { limiter = limiter } in
      if not done then (w', fail 500) else switch_if input.enabled user w'

  abbrev negative : Option ℤ → Bool
  negative none = false
  negative (some b) = ltb_ℤ b (pos 0)

  pub update_handler : String → Option UpdateUserInput → Time → World → World × Response
  unfolding limit_then_switch
  update_handler id none now w = (w, fail 400)
  update_handler id (some input) now w =
      if negative input.bandwidth_mbps
      then (w, fail 400)
      else elim (update_user s f id input now w.db) [
        | err e ↦ (w, store_error e)
        | ok (user, db) ↦ limit_then_switch input input.bandwidth_mbps user (record w { db = db })
      ]

  pub delete_handler : String → World → World × Response
  delete_handler id w = elim (delete_user s f id w.db) [
    | err e ↦ (w, store_error e)
    | ok (user, db) ↦
        let (device, removed) = v.remove_peer user.public_key w.device in
        (
          record {
            db = db;
            device = device;
            limiter = (v.remove_limit user w.limiter).0;
            locks = clear_lock user.id w.locks;
          },
          if removed then record { status = 200; body = deleted user.id } else fail 502,
        )
  ]

  pub get_handler : String → World → World × Response
  get_handler id w = elim (get s f id w.db) [
    | err e ↦ (w, store_error e)
    | ok user ↦ (w, record { status = 200; body = shows user })
  ]

  pub list_handler : World → World × Response
  list_handler w = elim (list s f w.db) [
    | err e ↦ (w, fail 500)
    | ok users ↦ (w, record { status = 200; body = shows_all users })
  ]

  -- `authMiddleware` before a handler: the key of the header, or else of the query.
  pub authorized : String → String → String → Bool
  authorized api_key header query =
      str_eq api_key "" || str_eq (if str_eq header "" then query else header) api_key

  pub with_auth : String → String → String → (World → World × Response) → World → World × Response
  unfolding authorized
  with_auth api_key header query handler w =
      if authorized api_key header query
      then handler w
      else (w, record { status = 401; body = unauthorized })
