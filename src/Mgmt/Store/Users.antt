-- ===== src/Mgmt/Store/Users.antt =====
-- mgmt/store/store.go: the operations on the table `users`. An operation that fails leaves the
-- database as it was; one that succeeds returns the new database with its result. The texts that
-- `fmt.Errorf` puts round an error are left out, since `errors.Is` looks through them.
use Prim.Native.String.{String}
use wgservermgr.Prelude.{ℕ, Bool, true, if◌then◌else◌, ◌==◌, Option, none, some, List, [], ◌∷◌}
use wgservermgr.Prelude.Int.{pos}
use wgservermgr.Mgmt.Time.{Time}
use wgservermgr.Mgmt.Result.{Error, Result, ok, err, bad_time, no_available_ips, ◌>>=◌}
use wgservermgr.Mgmt.Store.{User, CreateUserInput, UpdateUserInput}
use wgservermgr.Mgmt.Store.Addresses.{
  Prefix, ip_to_host, max_hosts, search_host, search_fuel, host_addr,
}
use wgservermgr.Mgmt.Store.Sqlite.{Sqlite, Formats, Row, Change}

abbrev pub bool_to_int : Bool → ℕ
bool_to_int b = if b then 1 else 0

abbrev pub or_error {ℓ} : {A : Type ℓ} → Error → Option A → Result A
or_error e none = err e
or_error e (some a) = ok a

module _ (s : Sqlite) (f : Formats) where
  open s use {Db, select_all, select_ips, select_id, insert, update, delete}
  open f use {show_addr, parse_addr, show_time, parse_time}

  -- `scanUser`
  unfoldable pub scan_user : Row → Result User
  scan_user row = do
    created_at ← or_error bad_time (parse_time row.created_at)
    updated_at ← or_error bad_time (parse_time row.updated_at)
    ok (record {
      id = row.id;
      name = row.name;
      public_key = row.public_key;
      private_key = row.private_key;
      assigned_ip = row.assigned_ip;
      bandwidth_mbps = row.bandwidth_mbps;
      tc_class_id = row.tc_class_id;
      enabled = row.enabled == 1;
      created_at = created_at;
      updated_at = updated_at;
    })

  -- What `Create` inserts for a user.
  unfoldable pub to_row : User → Row
  to_row user = record {
    id = user.id;
    name = user.name;
    public_key = user.public_key;
    private_key = user.private_key;
    assigned_ip = user.assigned_ip;
    bandwidth_mbps = user.bandwidth_mbps;
    tc_class_id = user.tc_class_id;
    enabled = bool_to_int user.enabled;
    created_at = show_time user.created_at;
    updated_at = show_time user.updated_at;
  }

  -- The hosts that the loop of `allocateIP` marks; an address that does not parse is passed over.
  unfoldable pub used_hosts : List String → List ℕ
  used_hosts [] = []
  used_hosts (ip ∷ ips) = elim (parse_addr ip) [
    | none ↦ used_hosts ips
    | some a ↦ ip_to_host a ∷ used_hosts ips
  ]

  -- What `allocateIP` makes of the end of its search; `none` would be the end of the fuel.
  unfoldable pub allocated : Prefix → Option (Option ℕ) → Result (String × ℕ)
  allocated subnet none = err no_available_ips
  allocated subnet (some none) = err no_available_ips
  allocated subnet (some (some host)) = ok (show_addr (host_addr subnet host), host)

  unfoldable pub allocate_ip : Prefix → Db → Result (String × ℕ)
  allocate_ip subnet db = do
    ips ← select_ips db
    allocated subnet (search_host search_fuel 2 (max_hosts subnet.bits) (used_hosts ips))

  -- The user that `Create` builds; `uuid` is the new id and `now` the clock's reading.
  unfoldable pub new_user : CreateUserInput → String → String → String → ℕ → String → Time → User
  new_user input public_key private_key ip class_id uuid now = record {
    id = uuid;
    name = input.name;
    public_key = public_key;
    private_key = private_key;
    assigned_ip = ip;
    bandwidth_mbps = input.bandwidth_mbps;
    tc_class_id = pos class_id;
    enabled = true;
    created_at = now;
    updated_at = now;
  }

  unfoldable pub create :
      Prefix → CreateUserInput → String → String → String → Time → Db → Result (User × Db)
  create subnet input public_key private_key uuid now db = do
    allocation ← allocate_ip subnet db
    let user = new_user input public_key private_key allocation.0 allocation.1 uuid now
    db' ← insert (to_row user) db
    ok (user, db')

  unfoldable pub get : String → Db → Result User
  get id db = do row ← select_id id db; scan_user row

  scan_users : List Row → Result (List User)
  scan_users [] = ok []
  scan_users (row ∷ rows) = do user ← scan_user row; users ← scan_users rows; ok (user ∷ users)

  unfoldable pub list : Db → Result (List User)
  unfolding scan_users
  list db = do rows ← select_all db; scan_users rows

  -- The user that `Update` writes back.
  unfoldable pub updated : User → UpdateUserInput → Time → User
  updated user input now = record user {
    name = elim input.name [ none ↦ user.name | some v ↦ v ];
    bandwidth_mbps = elim input.bandwidth_mbps [ none ↦ user.bandwidth_mbps | some v ↦ v ];
    enabled = elim input.enabled [ none ↦ user.enabled | some v ↦ v ];
    updated_at = now;
  }

  unfoldable pub change_of : User → Change
  change_of user = record {
    name = user.name;
    bandwidth_mbps = user.bandwidth_mbps;
    enabled = bool_to_int user.enabled;
    updated_at = show_time user.updated_at;
  }

  unfoldable pub update_user : String → UpdateUserInput → Time → Db → Result (User × Db)
  update_user id input now db = do
    user ← get id db
    let user' = updated user input now
    db' ← update id (change_of user') db
    ok (user', db')

  unfoldable pub delete_user : String → Db → Result (User × Db)
  delete_user id db = do user ← get id db; db' ← delete id db; ok (user, db')
