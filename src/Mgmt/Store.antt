-- ===== src/Mgmt/Store.antt =====
-- mgmt/store: the rows of the table `users`.
pub mod Addresses
pub mod Sqlite
pub mod Users
pub mod Allocate
pub mod Create
pub mod Memory
mod Examples
use Prim.Native.String.{String}
use wgservermgr.Prelude.{ℕ, Bool, Option}
use wgservermgr.Prelude.Int.{ℤ}
use wgservermgr.Mgmt.Time.{Time}

pub record User : Type 0 where
  pub id : String
  pub name : String
  pub public_key : String
  pub private_key : String
  pub assigned_ip : String
  pub bandwidth_mbps : ℤ
  pub tc_class_id : ℤ
  pub enabled : Bool
  pub created_at : Time
  pub updated_at : Time

pub record CreateUserInput : Type 0 where
  pub name : String
  pub bandwidth_mbps : ℤ

pub record UpdateUserInput : Type 0 where
  pub name : Option String
  pub bandwidth_mbps : Option ℤ
  pub enabled : Option Bool
