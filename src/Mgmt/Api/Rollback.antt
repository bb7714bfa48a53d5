-- ===== src/Mgmt/Api/Rollback.antt =====
-- mgmt/api/server.go: `createUser` either creates the user or takes back what it did to the store.
use Prim.Native.String.{String}
use wgservermgr.Prelude.{
  ◌≡◌, ◌≢◌, refl, ◌∙◌, ap, Option, none, some, List, [], ◌∷◌, ◌++◌, inl, inr, arith, Bool-cases,
}
use wgservermgr.Prelude.Int.{pos, ltb_ℤ}
use wgservermgr.Prelude.Maps.{string_key, same_refl}
use wgservermgr.Mgmt.Time.{Time}
use wgservermgr.Mgmt.Result.{Error, ok, err, Result-cases}
use wgservermgr.Mgmt.Store.{User, CreateUserInput}
use wgservermgr.Mgmt.Store.Addresses.{Prefix}
use wgservermgr.Mgmt.Store.Sqlite.{Sqlite, Formats, Row, Fresh, remove_row}
use wgservermgr.Mgmt.Store.Users.{create, delete_user, to_row}
use wgservermgr.Mgmt.Store.Create.{create-rows, delete_user-removes}
use wgservermgr.Mgmt.Api.{
  Services, World, Response, shows, delete_ignored, connect_user, store_user, create_user,
}

remove_row-Fresh :
    (r : Row) (rows : List Row) → Fresh r rows → remove_row r.id (rows ++ (r ∷ [])) ≡ rows
remove_row-Fresh r [] h = rw (same_refl r.id)
remove_row-Fresh r (x ∷ rows) h = elim (Bool-cases (string_key.same r.id x.id)) [
  | inl same ↦ absurd (h.0.0 ((string_key.same_iff r.id x.id).0 same))
  | inr other ↦ rw other (ap (λ t. x ∷ t) (remove_row-Fresh r rows h.1))
]

module _ (s : Sqlite) (f : Formats) (v : Services) where
  -- How a `createUser` may end, that began with the database `db`.
  pub data Ended (db : s.Db) (out : World s f v × Response) : Type 0 where
    -- The user is created and shown.
    created :
        (user : User)
        → out.1 ≡ record { status = 201; body = shows user }
        → s.rows out.0.db ≡ s.rows db ++ (to_row s f user ∷ [])
        → Ended db out
    -- The call fails and the table is as it was.
    undone : out.1.status ≢ 201 → s.rows out.0.db ≡ s.rows db → Ended db out
    -- The call fails, and so does the deletion that was to take the user back.
    stranded :
        (user : User) (e : Error)
        → out.1.status ≢ 201
        → s.rows out.0.db ≡ s.rows db ++ (to_row s f user ∷ [])
        → delete_user s f user.id out.0.db ≡ err e
        → Ended db out

  module _ (db db' : s.Db) (user : User) (grown : s.rows db' ≡ s.rows db ++ (to_row s f user ∷ []))
      (fresh : Fresh (to_row s f user) (s.rows db)) where
    restored :
        (db'' : s.Db) (u : User)
        → delete_user s f user.id db' ≡ ok (u, db'')
        → s.rows db'' ≡ s.rows db
    unfolding to_row
    restored db'' u e =
        delete_user-removes s f user.id db' u db'' e
        ∙ ap (remove_row user.id) grown
        ∙ remove_row-Fresh (to_row s f user) (s.rows db) fresh

    -- A failure after the deletion, whether or not that worked.
    rolled_back :
        (out : World s f v × Response)
        → out.1.status ≢ 201
        → out.0.db ≡ delete_ignored s f v user.id db'
        → Ended db out
    unfolding delete_ignored
    rolled_back out ne same = elim (Result-cases (delete_user s f user.id db')) [
      | inl (e, failed) ↦
          let kept : out.0.db ≡ db' = same ∙ rw (failed, delete_ignored) refl in
          stranded user e ne (ap s.rows kept ∙ grown) (rw kept failed)
      | inr ((u, db''), worked) ↦
          let new : out.0.db ≡ db'' = same ∙ rw (worked, delete_ignored) refl in
          undone ne (ap s.rows new ∙ restored db'' u worked)
    ]

    connect_user-Ended : (w : World s f v) → w.db ≡ db' → Ended db (connect_user s f v user w)
    unfolding connect_user
    connect_user-Ended w same =
        elim (Bool-cases (v.add_peer user.public_key user.assigned_ip w.device).1) [
          | inr refused ↦
              rw refused (rolled_back _ (omega arith) (ap (delete_ignored s f v user.id) same))
          | inl added ↦ elim (Bool-cases (v.apply_limit user w.limiter).1) [
            | inr unlimited ↦
                rw (added, unlimited)
                  (rolled_back _ (omega arith) (ap (delete_ignored s f v user.id) same))
            | inl applied ↦ rw (added, applied) (created user refl (ap s.rows same ∙ grown))
          ]
        ]

-- A request to create a user ends with the user shown and one row more, or with another status
-- and the table as it was. It leaves a row behind only where the deletion that was to take the
-- row back fails too.
pub create_user-Ended :
    (s : Sqlite) (f : Formats) (v : Services) (subnet : Prefix) (input : Option CreateUserInput)
    (keys : Option (String × String)) (uuid : String) (now : Time) (w : World s f v)
    → Ended s f v w.db (create_user s f v subnet input keys uuid now w)
unfolding create_user
create_user-Ended s f v subnet none keys uuid now w = undone (omega arith) refl
create_user-Ended s f v subnet (some input) none uuid now w = undone (ground arith) refl
create_user-Ended s f v subnet (some input) (some (public_key, private_key)) uuid now w =
    elim (Bool-cases (ltb_ℤ input.bandwidth_mbps (pos 0))) [
      | inl negative ↦ rw negative (undone (omega arith) refl)
      | inr fine ↦
          elim (Result-cases (create s f subnet input public_key private_key uuid now w.db)) [
            | inl (e, failed) ↦ rw (fine, failed, store_user) (undone (omega arith) refl)
            | inr ((user, db'), made) ↦
                let rows =
                  create-rows s f subnet input public_key private_key uuid now w.db user db' made in
                rw (fine, made, store_user)
                  (connect_user-Ended s f v w.db db' user rows.0 rows.1 (record w { db = db' })
                    refl)
          ]
    ]
