-- ===== src/Mgmt/Store/Create.antt =====
-- mgmt/store/store.go: what `Create` and `Delete` do to the table `users`.
use Prim.Native.String.{String}
use wgservermgr.Prelude.{
  ℕ, ◌≤◌, ◌<◌, ◌-◌, ◌^◌, ◌≡◌, ◌≢◌, sym, ◌∙◌, ap, subst, true, false, ◌==◌, if◌then◌else◌, List, [],
  ◌∷◌, ◌++◌, none, some, arith, inl, inr, Bool-cases,
}
use wgservermgr.Prelude.Maps.{string_key, same_refl}
use wgservermgr.Mgmt.Time.{Time}
use wgservermgr.Mgmt.Result.{ok, >>=-eq-ok}
use wgservermgr.Mgmt.Store.{User, CreateUserInput}
use wgservermgr.Mgmt.Store.Addresses.{IsAddr4, Prefix, host_addr}
use wgservermgr.Mgmt.Store.Sqlite.{Sqlite, Formats, Row, In, addresses, Fresh, find_row, remove_row}
use wgservermgr.Mgmt.Store.Users.{
  allocate_ip, new_user, to_row, create, get, scan_user, delete_user,
}
use wgservermgr.Prelude.Int.{pos}
use wgservermgr.Mgmt.Store.Allocate.{allocate_ip-free, allocate_ip-wraps}

ok_injective {ℓ} : {A : Type ℓ} {x y : A} → ok x ≡ ok y → x ≡ y
ok_injective h = cc

-- The steps of a `Create` that succeeds.
record Steps (s : Sqlite) (f : Formats) (subnet : Prefix) (input : CreateUserInput)
    (public_key private_key uuid : String) (now : Time) (db : s.Db) (user : User) (db' : s.Db)
    : Type 0 where
  ip : String
  class_id : ℕ
  allocation : allocate_ip s f subnet db ≡ ok (ip, class_id)
  built : new_user s f input public_key private_key ip class_id uuid now ≡ user
  inserted : s.insert (to_row s f user) db ≡ ok db'

module _ (s : Sqlite) (f : Formats) (subnet : Prefix) (input : CreateUserInput)
    (public_key private_key uuid : String) (now : Time) (db : s.Db) where
  create-Steps :
      {user : User} {db' : s.Db}
      → create s f subnet input public_key private_key uuid now db ≡ ok (user, db')
      → Steps s f subnet input public_key private_key uuid now db user db'
  unfolding create
  create-Steps {user} {db'} h =
      let (r, e, rest) = >>=-eq-ok (allocate_ip s f subnet db) _ h in
      let built = new_user s f input public_key private_key r.0 r.1 uuid now in
      let (db'', e', last) = >>=-eq-ok (s.insert (to_row s f built) db) _ rest in
      let pair = ok_injective last in
      let same_user : built ≡ user = ap (λ (p : User × s.Db). p.0) pair in
      let same_db : db'' ≡ db' = ap (λ (p : User × s.Db). p.1) pair in
      record {
        ip = r.0;
        class_id = r.1;
        allocation = e;
        built = same_user;
        inserted = rw (← same_user) (e' ∙ ap ok same_db);
      }

  -- The row is added at the end, and it differs from each other row in what is unique.
  pub create-rows :
      (user : User) (db' : s.Db)
      → create s f subnet input public_key private_key uuid now db ≡ ok (user, db')
      → (s.rows db' ≡ s.rows db ++ (to_row s f user ∷ []))
        × Fresh (to_row s f user) (s.rows db)
        × (user.name ≡ input.name)
        × (user.enabled ≡ true)
  unfolding new_user
  create-rows user db' h =
      let c = create-Steps h in
      (
        s.insert_rows (to_row s f user) db db' c.inserted,
        s.insert_fresh (to_row s f user) db db' c.inserted,
        sym (ap (λ (u : User). u.name) c.built),
        sym (ap (λ (u : User). u.enabled) c.built),
      )

find_row-last :
    (r : Row) (other : String) (rows : List Row)
    → Fresh r rows
    → find_row other (rows ++ (r ∷ []))
      ≡ (if string_key.same r.id other then some r else find_row other rows)
find_row-last r other [] h =
    ground (arith, string_key.same_iff r.id other, string_key.same_iff other r.id)
find_row-last r other (x ∷ rows) h = ground (
  arith,
  find_row-last r other rows h.1,
  h.0.0,
  string_key.same_iff r.id other,
  string_key.same_iff other x.id,
)

some_injective : {r r' : Row} → some r ≡ some r' → r ≡ r'
some_injective h = cc

differs : (id other : String) → other ≢ id → string_key.same id other ≡ false
differs id other h = elim (Bool-cases (string_key.same id other)) [
  | inl e ↦ absurd (h (sym ((string_key.same_iff id other).0 e)))
  | inr e ↦ e
]

-- The columns of a row that a scan reads without a change.
record Scanned (f : Formats) (r : Row) (u : User) : Type 0 where
  id : u.id ≡ r.id
  name : u.name ≡ r.name
  public_key : u.public_key ≡ r.public_key
  private_key : u.private_key ≡ r.private_key
  assigned_ip : u.assigned_ip ≡ r.assigned_ip
  bandwidth_mbps : u.bandwidth_mbps ≡ r.bandwidth_mbps
  tc_class_id : u.tc_class_id ≡ r.tc_class_id
  enabled : u.enabled ≡ (r.enabled == 1)
  created_at : f.parse_time r.created_at ≡ some u.created_at
  updated_at : f.parse_time r.updated_at ≡ some u.updated_at

scan_user-Scanned :
    (s : Sqlite) (f : Formats) (r : Row) (u : User) → scan_user s f r ≡ ok u → Scanned f r u
unfolding scan_user
scan_user-Scanned s f r u h = record {
  id = ground arith;
  name = ground arith;
  public_key = ground arith;
  private_key = ground arith;
  assigned_ip = ground arith;
  bandwidth_mbps = ground arith;
  tc_class_id = ground arith;
  enabled = ground arith;
  created_at = ground arith;
  updated_at = ground arith;
}

-- The row that `Get` scans.
get-Scanned :
    (s : Sqlite) (f : Formats) (id : String) (db : s.Db) (r : Row) (u : User)
    → find_row id (s.rows db) ≡ some r
    → get s f id db ≡ ok u
    → Scanned f r u
unfolding get
get-Scanned s f id db r u listed h =
    let (row, found, scanned) = >>=-eq-ok (s.select_id id db) _ h in
    let same : some row ≡ some r = sym (s.select_id_row id db row found) ∙ listed in
    scan_user-Scanned s f r u (ap (scan_user s f) (sym (some_injective same)) ∙ scanned)

module _ (s : Sqlite) (f : Formats) (subnet : Prefix) (input : CreateUserInput)
    (public_key private_key uuid : String) (now : Time) (db : s.Db) where
  -- On a subnet from /24 to /31 whose address is four bytes, after a `Create` that succeeds a
  -- `Get` of the new id that succeeds gives the requested name and bandwidth, each of the two
  -- keys in its place, a user who is enabled, the times that the text of the time of the call
  -- parses to, and as address and class id the subnet's with the same number from 2 to the number
  -- of hosts less 2, an address that no row had before. Every other id finds the row that it
  -- found.
  pub create-get :
      (user u : User) (db' : s.Db) (other : String)
      → IsAddr4 subnet.addr
      → 24 ≤ subnet.bits
      → subnet.bits ≤ 31
      → other ≢ uuid
      → create s f subnet input public_key private_key uuid now db ≡ ok (user, db')
      → get s f uuid db' ≡ ok u
      → (u.id ≡ uuid)
        × (u.name ≡ input.name)
        × (u.public_key ≡ public_key)
        × (u.private_key ≡ private_key)
        × (u.bandwidth_mbps ≡ input.bandwidth_mbps)
        × (u.enabled ≡ true)
        × (f.parse_time (f.show_time now) ≡ some u.created_at)
        × (f.parse_time (f.show_time now) ≡ some u.updated_at)
        × ((host : ℕ) × (u.tc_class_id ≡ pos host)
            × (u.assigned_ip ≡ f.show_addr (host_addr subnet host))
            × (2 ≤ host)
            × (host ≤ 2 ^ (32 - subnet.bits) - 2)
            × ¬ (In u.assigned_ip (addresses (s.rows db))))
        × (find_row other (s.rows db') ≡ find_row other (s.rows db))
  unfolding new_user to_row
  create-get user u db' other valid lo hi different made got =
      let c = create-Steps s f subnet input public_key private_key uuid now db made in
      let built = new_user s f input public_key private_key c.ip c.class_id uuid now in
      let fields : to_row s f built ≡ to_row s f user = ap (to_row s f) c.built in
      let inserted : s.insert (to_row s f built) db ≡ ok db' = rw fields c.inserted in
      let rows = s.insert_rows (to_row s f built) db db' inserted in
      let fresh = s.insert_fresh (to_row s f built) db db' inserted in
      let at : (id : String)
          → find_row id (s.rows db') ≡ (
              if string_key.same uuid id
              then some (to_row s f built)
              else find_row id (s.rows db)) =
        λ id. ap (find_row id) rows ∙ find_row-last (to_row s f built) id (s.rows db) fresh in
      let listed : find_row uuid (s.rows db') ≡ some (to_row s f built) =
        at uuid ∙ rw (same_refl uuid) in
      let kept : find_row other (s.rows db') ≡ find_row other (s.rows db) =
        at other ∙ rw (differs uuid other different) in
      let r = get-Scanned s f uuid db' (to_row s f built) u listed got in
      let (address, low, high, free) =
        allocate_ip-free s f subnet db c.ip c.class_id valid lo hi c.allocation in
      (
        r.id,
        r.name,
        r.public_key,
        r.private_key,
        r.bandwidth_mbps,
        r.enabled,
        r.created_at,
        r.updated_at,
        (
          c.class_id,
          r.tc_class_id,
          r.assigned_ip ∙ address,
          low,
          high,
          λ i. free (subst (λ a. In a (addresses (s.rows db))) r.assigned_ip i),
        ),
        kept,
      )

Fresh-address : (r : Row) (rows : List Row) → Fresh r rows → In r.assigned_ip (addresses rows) → ⊥
Fresh-address r [] h i = i
Fresh-address r (x ∷ rows) h (inl same) = h.0.3 same
Fresh-address r (x ∷ rows) h (inr later) = Fresh-address r rows h.1 later

-- On a subnet wider than /24 every `Create` fails once each host from 2 to 255 and the address
-- that ends in 0 have a row.
pub create-refused :
    (s : Sqlite) (f : Formats) (subnet : Prefix) (input : CreateUserInput)
    (public_key private_key uuid : String) (now : Time) (db : s.Db) (user : User) (db' : s.Db)
    → IsAddr4 subnet.addr
    → subnet.bits ≤ 23
    → ((h : ℕ) → 2 ≤ h → h < 256 → In (f.show_addr (host_addr subnet h)) (addresses (s.rows db)))
    → In (f.show_addr (record (subnet.addr) { b3 = 0 })) (addresses (s.rows db))
    → ¬ (create s f subnet input public_key private_key uuid now db ≡ ok (user, db'))
unfolding new_user to_row
create-refused s f subnet input public_key private_key uuid now db user db' valid wide all zero_ h =
    let c = create-Steps s f subnet input public_key private_key uuid now db h in
    let (ip, _) = allocate_ip-wraps s f subnet db c.ip c.class_id valid wide all c.allocation in
    let address : user.assigned_ip ≡ c.ip = sym (ap (λ (u : User). u.assigned_ip) c.built) in
    Fresh-address (to_row s f user) (s.rows db) (s.insert_fresh (to_row s f user) db db' c.inserted)
      (subst (λ a. In a (addresses (s.rows db))) (sym (address ∙ ip)) zero_)

find_row-remove_row :
    (id other : String) (rows : List Row)
    → find_row other (remove_row id rows)
      ≡ (if string_key.same id other then none else find_row other rows)
find_row-remove_row id other [] = ground arith
find_row-remove_row id other (r ∷ rows) = ground (
  arith,
  find_row-remove_row id other rows,
  string_key.same_iff id other,
  string_key.same_iff id r.id,
  string_key.same_iff other r.id,
)

pub delete_user-removes :
    (s : Sqlite) (f : Formats) (id : String) (db : s.Db) (user : User) (db' : s.Db)
    → delete_user s f id db ≡ ok (user, db')
    → s.rows db' ≡ remove_row id (s.rows db)
unfolding delete_user
delete_user-removes s f id db user db' h =
    let (u, e, rest) = >>=-eq-ok (get s f id db) _ h in
    let (db'', e', last) = >>=-eq-ok (s.delete id db) _ rest in
    rw (← ap (λ (p : User × s.Db). p.1) (ok_injective last)) (s.delete_rows id db db'' e')

-- `Delete` that succeeds returns the user of the row that it deletes, after it no row has the id,
-- and every other id finds the row that it found.
pub delete_user-rows :
    (s : Sqlite) (f : Formats) (id other : String) (db : s.Db) (user : User) (db' : s.Db)
    → delete_user s f id db ≡ ok (user, db')
    → ((r : Row) × (find_row id (s.rows db) ≡ some r) × (scan_user s f r ≡ ok user))
      × (find_row other (s.rows db')
          ≡ (if string_key.same id other then none else find_row other (s.rows db)))
unfolding delete_user get
delete_user-rows s f id other db user db' h =
    let (u, e, rest) = >>=-eq-ok (get s f id db) _ h in
    let (db'', e', last) = >>=-eq-ok (s.delete id db) _ rest in
    let pair = ok_injective last in
    let (row, found, scanned) = >>=-eq-ok (s.select_id id db) _ e in
    (
      (row, s.select_id_row id db row found, scanned ∙ ap (λ (p : User × s.Db). ok p.0) pair),
      rw (← ap (λ (p : User × s.Db). p.1) pair, s.delete_rows id db db'' e')
          (find_row-remove_row id other (s.rows db)),
    )
