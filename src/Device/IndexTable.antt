-- ===== src/Device/IndexTable.antt =====
-- device/indextable.go: the table from receiver indices to peers, handshakes and keypairs. Pointers
-- are numbers, and nil is `none`. Fresh proves what an index promises.
pub mod Fresh
mod Examples
use wgservermgr.Prelude.{ℕ, Option, none, some, List, [], ◌∷◌}
use wgservermgr.Prelude.Maps.{nat_key, lookup, delete, insert}

pub record IndexTableEntry : Type 0 where
  pub peer : Option ℕ
  pub handshake : Option ℕ
  pub keypair : Option ℕ

abbrev pub Table : Type 0
Table = List (ℕ × IndexTableEntry)

abbrev pub zero_entry : IndexTableEntry
zero_entry = record { peer = none; handshake = none; keypair = none }

-- One round of the loop of `NewIndexForHandshake`: what `randUint32` gives, none for an error, and
-- what other goroutines do to the table between the two checks of the round.
pub record Round : Type 0 where
  pub random : Option ℕ
  pub meanwhile : Table → Table

pub data Outcome : Type 0 where
  given : (index : ℕ) → Table → Outcome
  failed : Table → Outcome
  -- The rounds are over, and the loop is not.
  running : Table → Outcome

abbrev pub handshake_entry : ℕ → ℕ → IndexTableEntry
handshake_entry peer handshake = record {
  peer = some peer;
  handshake = some handshake;
  keypair = none;
}

-- The write of a round: the second check holds the lock, so nothing comes between it and the write.
unfoldable pub check_and_take : ℕ → ℕ → ℕ → (Table → Outcome) → Table → Outcome
check_and_take peer handshake index next table = elim (lookup index table) [
  | some _ ↦ next table
  | none ↦ given index (insert index (handshake_entry peer handshake) table)
]

-- `NewIndexForHandshake`, for as many rounds of its loop as the list has.
unfoldable pub new_index : ℕ → ℕ → List Round → Table → Outcome
new_index peer handshake [] table = running table
new_index peer handshake (r ∷ rs) table = elim r.random [
  | none ↦ failed table
  | some index ↦ elim (lookup index table) [
    | some _ ↦ new_index peer handshake rs table
    | none ↦ check_and_take peer handshake index (new_index peer handshake rs) (r.meanwhile table)
  ]
]

unfoldable pub delete_index : ℕ → Table → Table
delete_index index table = delete index table

unfoldable pub swap_index : ℕ → Option ℕ → Table → Table
swap_index index keypair table = elim (lookup index table) [
  | none ↦ table
  | some entry ↦ insert index (record entry { handshake = none; keypair = keypair }) table
]

-- A missing key gives the zero value.
abbrev pub or_zero : Option IndexTableEntry → IndexTableEntry
or_zero none = zero_entry
or_zero (some entry) = entry

unfoldable pub lookup_index : ℕ → Table → IndexTableEntry
lookup_index index table = or_zero (lookup index table)
