-- ===== src/Device/Noise/State.antt =====
-- device/noise-protocol.go, keypair.go, peer.go, device.go: the state that the handshake changes.
-- Peers and keypairs are numbers, and what they point at is a function of the number. The handshake
-- of a peer is a part of it, so that a pointer to the handshake is the number of the peer too.
use wgservermgr.Prelude.{ℕ, Bool, Option, List, update, length}
use wgservermgr.Prelude.Bytes.{Bytes, zeros}
use wgservermgr.Mgmt.Time.{Time}
use wgservermgr.Replay.{Filter}
use wgservermgr.Device.IndexTable.{Table, Round}

pub data HandshakeState : Type 0 where
  zeroed initiation_created initiation_consumed response_created response_consumed : HandshakeState

pub record Handshake : Type 0 where
  pub state : HandshakeState
  pub hash : Bytes
  pub chain_key : Bytes
  pub preshared_key : Bytes
  pub local_ephemeral : Bytes
  pub local_index : ℕ
  pub remote_index : ℕ
  pub remote_static : Bytes
  pub remote_ephemeral : Bytes
  pub precomputed_static_static : Bytes
  pub last_timestamp : Bytes
  pub last_initiation_consumption : Time

-- The keys of `send` and `receive` stand for the AEAD instances made of them.
pub record Keypair : Type 0 where
  pub send_nonce : ℕ
  pub send : Bytes
  pub receive : Bytes
  pub replay_filter : Filter
  pub is_initiator : Bool
  pub created : Time
  pub local_index : ℕ
  pub remote_index : ℕ

pub record Keypairs : Type 0 where
  pub current : Option ℕ
  pub previous : Option ℕ
  pub next : Option ℕ

pub record Peer : Type 0 where
  pub is_running : Bool
  pub keypairs : Keypairs
  pub handshake : Handshake

pub record Device : Type 0 where
  pub private_key : Bytes
  pub public_key : Bytes
  pub key_map : List (Bytes × ℕ)
  pub peers : ℕ → Peer
  pub index_table : Table
  pub keypairs : ℕ → Keypair
  -- The next keypair that `new` makes.
  pub next_keypair : ℕ

abbrev pub handshake_of : Device → ℕ → Handshake
handshake_of d peer = (d.peers peer).handshake

abbrev pub set_peer : ℕ → Peer → Device → Device
set_peer n peer d = record d { peers = update d.peers n peer }

abbrev pub set_handshake : ℕ → Handshake → Device → Device
set_handshake n h d = set_peer n (record (d.peers n) { handshake = h }) d

-- What one call takes from outside: the random bytes of its ephemeral key, whether reading them
-- succeeds, the draws of its index, and the index that comes with a failed draw.
pub record Draws : Type 0 where
  pub ephemeral : Bytes
  pub ephemeral_ok : Bool
  pub rounds : List Round
  pub failed_index : ℕ

-- How a call ends that makes a message: with it, with an error, or not within the rounds.
pub data Sent (M : Type 0) : Type 0 where
  sent : M → Sent M
  failed : Sent M
  waiting : Sent M

-- `setZero`
abbrev pub set_zero : Bytes → Bytes
set_zero b = zeros (length b)
