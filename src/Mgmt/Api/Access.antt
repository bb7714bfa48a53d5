-- ===== src/Mgmt/Api/Access.antt =====
-- mgmt/api/server.go: what `deleteUser` takes away.
use Prim.Native.String.{String}
use wgservermgr.Prelude.{
  ◌≡◌, ◌≢◌, refl, sym, ◌∙◌, subst, none, some, List, [], ◌∷◌, inl, inr, arith, Bool-cases,
}
use wgservermgr.Prelude.Maps.{string_key, same_refl, lookup}
use wgservermgr.Mgmt.Result.{Error, ok, no_rows, Result-cases}
use wgservermgr.Mgmt.Store.{User}
use wgservermgr.Mgmt.Store.Sqlite.{Sqlite, Formats, Row, find_row}
use wgservermgr.Mgmt.Store.Users.{delete_user, scan_user}
use wgservermgr.Mgmt.Store.Create.{delete_user-rows}
use wgservermgr.Mgmt.Session.{clear_lock}
use wgservermgr.Mgmt.Session.Locks.{clear_lock-own}
use wgservermgr.Mgmt.Api.{Services, World, Response, delete_handler, store_error}

find_row-id : (id : String) (rows : List Row) (r : Row) → find_row id rows ≡ some r → r.id ≡ id
find_row-id id [] r h = cc
find_row-id id (x ∷ rows) r h = elim (Bool-cases (string_key.same id x.id)) [
  | inl same ↦ ground (arith, (string_key.same_iff id x.id).0 same)
  | inr other ↦ find_row-id id rows r (ground arith)
]

scan_user-id :
    (s : Sqlite) (f : Formats) (r : Row) (u : User) → scan_user s f r ≡ ok u → u.id ≡ r.id
unfolding scan_user
scan_user-id s f r u h = ground arith

pub store_error-ne : (e : Error) → (store_error e).status ≢ 200
store_error-ne no_rows = omega arith
store_error-ne _ = omega arith

module _ (s : Sqlite) (f : Formats) (v : Services) where
  -- How a `deleteUser` may end.
  pub data Revoked (id : String) (w : World s f v) (out : World s f v × Response) : Type 0 where
    -- An error of the store, and nothing changes.
    refused : out.0 ≡ w → out.1.status ≢ 200 → Revoked id w out
    -- No row of the user is left and no lock of the session, also where the device fails.
    gone : find_row id (s.rows out.0.db) ≡ none → lookup id out.0.locks ≡ none → Revoked id w out

-- A request to delete a user leaves all as it was, or leaves neither a row nor a session lock of
-- that user.
pub delete_handler-Revoked :
    (s : Sqlite) (f : Formats) (v : Services) (id : String) (w : World s f v)
    → Revoked s f v id w (delete_handler s f v id w)
unfolding delete_handler
delete_handler-Revoked s f v id w = elim (Result-cases (delete_user s f id w.db)) [
  | inl (e, failed) ↦ rw (failed, delete_handler) (refused refl (store_error-ne e))
  | inr ((user, db'), worked) ↦
      let d = delete_user-rows s f id id w.db user db' worked in
      let same : user.id ≡ id =
        scan_user-id s f d.0.0 user d.0.2 ∙ find_row-id id (s.rows w.db) d.0.0 d.0.1 in
      rw (worked, delete_handler)
        (gone (d.1 ∙ rw (same_refl id)) (
          subst (λ (j : String). lookup id (clear_lock j w.locks) ≡ none) (sym same)
            (clear_lock-own id w.locks)))
]
