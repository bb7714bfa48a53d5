-- ===== src/Mgmt/Api/Examples.antt =====
-- Runs of the handlers of mgmt/api on a table in memory, and their theorems at concrete inputs.
use Prim.Native.String.{String}
use wgservermgr.Prelude.{ℕ, suc, true, false, Option, none, some, List, [], ◌∷◌}
use wgservermgr.Prelude.Int.{pos}
use wgservermgr.Mgmt.Store.{User, CreateUserInput, UpdateUserInput}
use wgservermgr.Mgmt.Store.Addresses.{Prefix}
use wgservermgr.Mgmt.Store.Memory.{formats, memory}
use wgservermgr.Mgmt.Store.Users.{to_row}
use wgservermgr.Mgmt.Api.{Services, World, create_user, update_handler, delete_handler}
use wgservermgr.Mgmt.Api.Rollback.{Ended, create_user-Ended}
use wgservermgr.Mgmt.Api.Switch.{Updated, update_handler-Updated}
use wgservermgr.Mgmt.Api.Access.{Revoked, delete_handler-Revoked}

-- A device that holds keys, and a limiter that refuses every limit.
abbrev services : Services
services = record {
  Device = List String;
  Limiter = ℕ;
  add_peer = λ key ip d. (key ∷ d, true);
  remove_peer = λ key d. (d, true);
  apply_limit = λ user n. (suc n, false);
  update_limit = λ user n. (n, true);
  remove_limit = λ user n. (n, true);
}

abbrev world : World memory formats services
world = record {
  db = [];
  device = [];
  limiter = 0;
  locks = ("c", record { endpoint = "e"; last_active = pos 1 }) ∷ [];
}

abbrev subnet : Prefix
subnet = record { addr = record { b0 = 10; b1 = 8; b2 = 0; b3 = 0 }; bits = 24 }

abbrev carol : Option CreateUserInput
carol = some (record { name = "carol"; bandwidth_mbps = pos 10 })

create_user-Ended_example :
    Ended memory formats services []
      (create_user memory formats services subnet carol (some ("pk", "sk")) "c" (pos 5) world)
create_user-Ended_example =
    create_user-Ended memory formats services subnet carol (some ("pk", "sk")) "c" (pos 5) world

delete_handler-Revoked_example :
    Revoked memory formats services "c" world (delete_handler memory formats services "c" world)
delete_handler-Revoked_example = delete_handler-Revoked memory formats services "c" world

abbrev off : Option UpdateUserInput
off = some (record { name = none; bandwidth_mbps = none; enabled = some false })

abbrev dora : User
dora = record {
  id = "c";
  name = "dora";
  public_key = "pk";
  private_key = "sk";
  assigned_ip = "10.8.0.2";
  bandwidth_mbps = pos 0;
  tc_class_id = pos 2;
  enabled = true;
  created_at = pos 5;
  updated_at = pos 5;
}

abbrev with_dora : World memory formats services
with_dora = record world { db = to_row memory formats dora ∷ [] }

update_handler-Updated_example :
    Updated memory formats services "c" off
      (pos 9)
      with_dora
      (update_handler memory formats services "c" off (pos 9) with_dora)
update_handler-Updated_example =
    update_handler-Updated memory formats services "c" off (pos 9) with_dora
