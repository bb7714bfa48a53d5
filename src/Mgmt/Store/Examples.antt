-- ===== src/Mgmt/Store/Examples.antt =====
-- Runs of mgmt/store on a table in memory, and its theorems at concrete inputs.
use Prim.Native.String.{String}
use text.Mathlib.TextEquality.{eq_iff}
use native.Mathlib.Decide.{ℕ_discrete}
use wgservermgr.Prelude.{
  ℕ, zero, suc, ◌-◌, ◌^◌, ◌≤◌, ◌<◌, ◌≡◌, ◌≢◌, refl, ap, subst, ◌%◌, true, List, [], ◌∷◌, ◌++◌, some,
  arith, inl, inr,
}
use wgservermgr.Prelude.Int.{pos}
use wgservermgr.Prelude.Maps.{string_key}
use wgservermgr.Mgmt.Result.{ok}
use wgservermgr.Mgmt.Store.{User, CreateUserInput}
use wgservermgr.Mgmt.Store.Addresses.{Addr4, Prefix, ip_to_host, max_hosts, search_host, host_addr}
use wgservermgr.Mgmt.Store.Sqlite.{Row, In, addresses, find_row}
use wgservermgr.Mgmt.Store.Users.{
  used_hosts, allocated, allocate_ip, new_user, to_row, create, get, scan_user, delete_user,
}
use wgservermgr.Mgmt.Store.Allocate.{Allocated, allocate_ip-Allocated, allocate_ip-free}
use wgservermgr.Mgmt.Store.Create.{create-get, create-refused, delete_user-rows}
use wgservermgr.Mgmt.Store.Memory.{formats, memory, show_addr}

abbrev subnet : Prefix
subnet = record { addr = record { b0 = 10; b1 = 8; b2 = 0; b3 = 0 }; bits = 24 }

abbrev addr : ℕ → Addr4
addr h = record { b0 = 10; b1 = 8; b2 = 0; b3 = h }

abbrev row : String → ℕ → Row
row id h = record {
  id = id;
  name = id;
  public_key = id;
  private_key = id;
  assigned_ip = show_addr (addr h);
  bandwidth_mbps = pos 0;
  tc_class_id = pos h;
  enabled = 1;
  created_at = "";
  updated_at = "";
}

abbrev db : List Row
db = row "a" 2 ∷ row "b" 4 ∷ []

-- Host 3 is the least that is free.
allocate_least : allocate_ip memory formats subnet db ≡ ok (show_addr (addr 3), 3)
unfolding allocate_ip allocated used_hosts search_host max_hosts host_addr ip_to_host
allocate_least = refl

allocate_ip-Allocated_example :
    Allocated memory formats subnet db (addresses db) (allocate_ip memory formats subnet db)
allocate_ip-Allocated_example = allocate_ip-Allocated memory formats subnet db (addresses db) refl

allocate_ip-free_example :
    (show_addr (addr 3) ≡ formats.show_addr (host_addr subnet 3))
    × (2 ≤ 3)
    × (3 ≤ 2 ^ (32 - 24) - 2)
    × ¬ (In (show_addr (addr 3)) (addresses (memory.rows db)))
allocate_ip-free_example =
    allocate_ip-free memory formats subnet db (show_addr (addr 3)) 3 (omega arith) (omega arith)
      (omega arith) allocate_least

abbrev input : CreateUserInput
input = record { name = "carol"; bandwidth_mbps = pos 10 }

abbrev carol : User
carol = record {
  id = "c";
  name = "carol";
  public_key = "pk";
  private_key = "sk";
  assigned_ip = show_addr (addr 3);
  bandwidth_mbps = pos 10;
  tc_class_id = pos 3;
  enabled = true;
  created_at = pos 5;
  updated_at = pos 5;
}

create-carol :
    create memory formats subnet input "pk" "sk" "c" (pos 5) db
    ≡ ok (carol, db ++ (to_row memory formats carol ∷ []))
unfolding create new_user to_row allocate_ip allocated used_hosts search_host max_hosts host_addr
    ip_to_host
create-carol = refl

-- What `Get` reads of the new row.
abbrev read_carol : User
read_carol = record carol { created_at = pos 7; updated_at = pos 7 }

abbrev other : String
other = "a"

other_id : other ≢ carol.id
other_id h = ground (arith, eq_iff other carol.id)

create-get_example :
    (read_carol.id ≡ "c")
    × (read_carol.name ≡ input.name)
    × (read_carol.public_key ≡ "pk")
    × (read_carol.private_key ≡ "sk")
    × (read_carol.bandwidth_mbps ≡ input.bandwidth_mbps)
    × (read_carol.enabled ≡ true)
    × (formats.parse_time (formats.show_time (pos 5)) ≡ some read_carol.created_at)
    × (formats.parse_time (formats.show_time (pos 5)) ≡ some read_carol.updated_at)
    × ((host : ℕ) × (read_carol.tc_class_id ≡ pos host)
        × (read_carol.assigned_ip ≡ show_addr (host_addr subnet host))
        × (2 ≤ host)
        × (host ≤ 2 ^ (32 - subnet.bits) - 2)
        × ¬ (In read_carol.assigned_ip (addresses db)))
    × (find_row other (db ++ (to_row memory formats carol ∷ [])) ≡ find_row other db)
unfolding get scan_user to_row
create-get_example =
    create-get memory formats subnet input "pk" "sk" "c" (pos 5) db carol read_carol
      (db ++ (to_row memory formats carol ∷ [])) other (omega arith) (omega arith) (omega arith)
      other_id create-carol refl

-- A table with a row for each of the hosts from 0 to n - 1.
abbrev hosts : ℕ → List Row
hosts zero = []
hosts (suc n) = row "x" n ∷ hosts n

hosts-In : (n h : ℕ) → h < n → In (show_addr (addr h)) (addresses (hosts n))
hosts-In zero h p = elim p [ ]
hosts-In (suc n) h p = elim (ℕ_discrete h n) [
  | yes e ↦ inl (ap (λ k. show_addr (addr k)) e)
  | no ne ↦ inr (hosts-In n h (omega arith))
]

abbrev wide : Prefix
wide = record { addr = record { b0 = 10; b1 = 8; b2 = 0; b3 = 0 }; bits = 16 }

module _ (n : ℕ) (big : 255 < n) where
  hosts_all : (h : ℕ) → 2 ≤ h → h < 256 → In (show_addr (host_addr wide h)) (addresses (hosts n))
  unfolding host_addr
  hosts_all h p q =
      subst (λ k. In (show_addr (addr k)) (addresses (hosts n))) byte (hosts-In n h (omega arith))
    where
      byte : h ≡ h % 256
      byte = omega arith

create-refused_example :
    ¬ (create memory formats wide input "pk" "sk" "c" (pos 5) (hosts 256) ≡ ok (carol, []))
create-refused_example =
    create-refused memory formats wide input "pk" "sk" "c" (pos 5) (hosts 256) carol []
      (omega arith) (omega arith) (hosts_all 256 (omega arith)) (hosts-In 256 0 (omega arith))

abbrev deleted : User
deleted = record {
  id = "a";
  name = "a";
  public_key = "a";
  private_key = "a";
  assigned_ip = show_addr (addr 2);
  bandwidth_mbps = pos 0;
  tc_class_id = pos 2;
  enabled = true;
  created_at = pos 7;
  updated_at = pos 7;
}

delete_a : delete_user memory formats "a" db ≡ ok (deleted, row "b" 4 ∷ [])
unfolding delete_user get scan_user
delete_a = refl

delete_user-rows_example :
    ((r : Row) × (find_row "a" db ≡ some r) × (scan_user memory formats r ≡ ok deleted))
    × (find_row "b" (row "b" 4 ∷ []) ≡ find_row "b" db)
delete_user-rows_example =
    delete_user-rows memory formats "a" "b" db deleted (row "b" 4 ∷ []) delete_a
