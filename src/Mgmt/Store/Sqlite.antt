-- ===== src/Mgmt/Store/Sqlite.antt =====
-- What mgmt/store uses of SQLite and of the packages that print and parse what it stores. The
-- database is third-party code, so it is a parameter: its statements, and what they do to the rows
-- of the table `users` by the schema that `migrate` gives it.
use Prim.Native.String.{String}
use wgservermgr.Prelude.{
  ℕ, ◌≡◌, ◌≢◌, if◌then◌else◌, List, [], ◌∷◌, ◌++◌, ◌⊎◌, ◌↔◌, Option, none, some,
}
use wgservermgr.Prelude.Int.{ℤ}
use wgservermgr.Prelude.Maps.{string_key}
use wgservermgr.Mgmt.Time.{Time}
use wgservermgr.Mgmt.Result.{Result, ok, err, no_rows}
use wgservermgr.Mgmt.Store.Addresses.{Addr4, IsAddr4}

-- A row of the table `users`, whose columns are texts and integers.
pub record Row : Type 0 where
  pub id : String
  pub name : String
  pub public_key : String
  pub private_key : String
  pub assigned_ip : String
  pub bandwidth_mbps : ℤ
  pub tc_class_id : ℤ
  pub enabled : ℕ
  pub created_at : String
  pub updated_at : String

-- The columns that the schema of `migrate` declares unique.
abbrev pub Differs : Row → Row → Type 0
Differs r s =
    (r.id ≢ s.id)
    × (r.name ≢ s.name)
    × (r.public_key ≢ s.public_key)
    × (r.assigned_ip ≢ s.assigned_ip)

abbrev pub Fresh : Row → List Row → Type 0
Fresh r [] = Unit {0}
Fresh r (s ∷ rows) = Differs r s × Fresh r rows

abbrev pub find_row : String → List Row → Option Row
find_row id [] = none
find_row id (r ∷ rows) = if string_key.same id r.id then some r else find_row id rows

abbrev pub remove_row : String → List Row → List Row
remove_row id [] = []
remove_row id (r ∷ rows) =
    if string_key.same id r.id then remove_row id rows else r ∷ remove_row id rows

abbrev pub In : String → List String → Type 0
In a [] = ⊥
In a (b ∷ bs) = (a ≡ b) ⊎ In a bs

abbrev pub addresses : List Row → List String
addresses [] = []
addresses (r ∷ rows) = r.assigned_ip ∷ addresses rows

-- `SET name = ?, bandwidth_mbps = ?, enabled = ?, updated_at = ?`
pub record Change : Type 0 where
  pub name : String
  pub bandwidth_mbps : ℤ
  pub enabled : ℕ
  pub updated_at : String

abbrev pub change_row : Change → Row → Row
change_row c r = record r {
  name = c.name;
  bandwidth_mbps = c.bandwidth_mbps;
  enabled = c.enabled;
  updated_at = c.updated_at;
}

abbrev pub change_rows : String → Change → List Row → List Row
change_rows id c [] = []
change_rows id c (r ∷ rows) =
    (if string_key.same id r.id then change_row c r else r) ∷ change_rows id c rows

-- A statement that fails leaves the database as it was, so it gives no new one.
pub record Sqlite : Type 1 where
  pub Db : Type 0
  -- What the table `users` holds, in the order of insertion.
  pub rows : Db → List Row
  pub select_all : Db → Result (List Row)
  pub select_ips : Db → Result (List String)
  pub select_id : String → Db → Result Row
  pub insert : Row → Db → Result Db
  pub update : String → Change → Db → Result Db
  pub delete : String → Db → Result Db
  -- In any order.
  pub select_ips_rows :
      (db : Db) (ips : List String)
      → select_ips db ≡ ok ips
      → (ip : String) → In ip ips ↔ In ip (addresses (rows db))
  pub select_id_row :
      (id : String) (db : Db) (r : Row) → select_id id db ≡ ok r → find_row id (rows db) ≡ some r
  pub select_id_missing :
      (id : String) (db : Db) → select_id id db ≡ err no_rows → find_row id (rows db) ≡ none
  pub insert_rows : (r : Row) (db db' : Db) → insert r db ≡ ok db' → rows db' ≡ rows db ++ (r ∷ [])
  pub insert_fresh : (r : Row) (db db' : Db) → insert r db ≡ ok db' → Fresh r (rows db)
  pub update_rows :
      (id : String) (c : Change) (db db' : Db)
      → update id c db ≡ ok db'
      → rows db' ≡ change_rows id c (rows db)
  pub delete_rows :
      (id : String) (db db' : Db) → delete id db ≡ ok db' → rows db' ≡ remove_row id (rows db)

-- `netip` and `time` print and parse addresses and times. What `netip` prints it parses.
pub record Formats : Type 0 where
  pub show_addr : Addr4 → String
  pub parse_addr : String → Option Addr4
  pub show_time : Time → String
  pub parse_time : String → Option Time
  pub parse_addr-show_addr : (a : Addr4) → IsAddr4 a → parse_addr (show_addr a) ≡ some a
  pub parse_addr_bytes : (t : String) (a : Addr4) → parse_addr t ≡ some a → IsAddr4 a
