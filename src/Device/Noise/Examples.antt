-- ===== src/Device/Noise/Examples.antt =====
-- A handshake of device/noise-protocol.go between two devices, with primitives that are short
-- enough to run, and its theorems at that input.
use wgservermgr.Prelude.{
  ℕ, ◌+◌, ◌≡◌, refl, ap, true, false, Option, none, some, ◌==◌, if◌then◌else◌, [], ◌∷◌, arith,
}
use wgservermgr.Prelude.Int.{pos}
use wgservermgr.Prelude.Maps.{nat_key}
use wgservermgr.Prelude.Maps.{nat_key, lookup}
use wgservermgr.Prelude.Bytes.{Bytes, bytes_key, bytes_eq}
use wgservermgr.Mgmt.Time
use wgservermgr.Mgmt.Time.{Time, zero_time}
use wgservermgr.Tai64n
use wgservermgr.Replay
use wgservermgr.Device.IndexTable.{new_index, check_and_take, delete_index}
use wgservermgr.Device.Noise.Messages.{MessageInitiation, MessageResponse}
use wgservermgr.Device.Noise.Keys.{
  Primitives, is_zero, shared_secret, clamp, set_byte, public_key, mix_hash, mix_key, kdf1, kdf2,
  kdf3, hmac1, hmac2,
}
use wgservermgr.Device.Noise.State.{
  Handshake, zeroed, Device, handshake_of, Draws, Sent, sent, failed, waiting,
}
use wgservermgr.Device.Noise.Initiation.{
  create_message_initiation, consume_message_initiation, encrypt_initiation, assign_initiation,
  verify_initiation, update_initiated, initial_hash, initial_chain_key,
}
use wgservermgr.Device.Noise.Response.{
  create_message_response, consume_message_response, mix_response, seal_response,
}
use wgservermgr.Device.Noise.Session.{begin_symmetric_session, received_with_keypair}
use wgservermgr.Device.Noise.Agreement.{Paired}
use wgservermgr.Device.Noise.Clear.{Holds, zero_and_flush_all, zero_and_flush_all-forgets}
use wgservermgr.Device.Noise.Turns.{role, BeginsAs, begin-BeginsAs, begin-received}
use wgservermgr.Device.Noise.Secret.{Secured, handshake-Secured}

abbrev pub total : Bytes → ℕ
total [] = 0
total (x ∷ b) = x + total b

pub total_comm : (a b : Bytes) → total a + total b ≡ total b + total a
total_comm a b = omega arith

-- The tag of a sealed text, in front of it.
abbrev pub tag : Bytes → Bytes → ℕ
tag key ad = total key + total ad

abbrev pub open_tagged : Bytes → Bytes → Bytes → Option Bytes
open_tagged key [] ad = none
open_tagged key (x ∷ text) ad = if x == tag key ad then some text else none

pub open-tagged : (key nonce text ad : Bytes) → open_tagged key (tag key ad ∷ text) ad ≡ some text
open-tagged key nonce text ad =
    let same : (tag key ad == tag key ad) ≡ true = ground arith in rw same refl

abbrev pub toy : Primitives
toy = record {
  blake2s = λ text. total text ∷ [];
  hmac = λ key text. (total key + total text + 1) ∷ [];
  scalar_mult = λ a b. (total a + total b) ∷ [];
  scalar_base_mult = λ a. a;
  seal = λ key nonce text ad. tag key ad ∷ text;
  unseal = λ key nonce text ad. open_tagged key text ad;
  scalar_mult_comm = λ a b. ap (λ n. n ∷ []) (total_comm a b);
  unseal-seal = open-tagged;
}

abbrev pub handshake_with : Bytes → Handshake
handshake_with pk = record {
  state = zeroed;
  hash = [];
  chain_key = [];
  preshared_key = 9 ∷ [];
  local_ephemeral = [];
  local_index = 0;
  remote_index = 0;
  remote_static = pk;
  remote_ephemeral = [];
  precomputed_static_static = 12 ∷ [];
  last_timestamp = 1 ∷ [];
  last_initiation_consumption = zero_time;
}

abbrev pub device_with : Bytes → Bytes → ℕ → Device
device_with sk pk peer = record {
  private_key = sk;
  public_key = sk;
  key_map = (pk, peer) ∷ [];
  peers = λ n. record {
    is_running = true;
    keypairs = record { current = none; previous = none; next = none };
    handshake = handshake_with pk;
  };
  index_table = [];
  keypairs = λ n. record {
    send_nonce = 0;
    send = [];
    receive = [];
    replay_filter = Replay.empty;
    is_initiator = false;
    created = zero_time;
    local_index = 0;
    remote_index = 0;
  };
  next_keypair = 40;
}

abbrev pub initiator : Device
initiator = device_with (5 ∷ []) (7 ∷ []) 3

abbrev responder : Device
responder = device_with (7 ∷ []) (5 ∷ []) 4

abbrev pub draws_with : Bytes → ℕ → Draws
draws_with ephemeral index = record {
  ephemeral = ephemeral;
  ephemeral_ok = true;
  rounds = record { random = some index; meanwhile = λ t. t } ∷ [];
  failed_index = 0;
}

abbrev stamp_now : Bytes
stamp_now = 2 ∷ []

abbrev pub late : Time
late = pos 90_000_000

-- The message of a call, where it has one.
abbrev message : {M : Type 0} → M → Sent M → M
message m (sent n) = n
message m failed = m
message m waiting = m

abbrev no_initiation : MessageInitiation
no_initiation = record {
  type = 0;
  sender = 0;
  ephemeral = [];
  static = [];
  timestamp = [];
  mac1 = [];
  mac2 = [];
}

abbrev no_response : MessageResponse
no_response = record {
  type = 0;
  sender = 0;
  receiver = 0;
  ephemeral = [];
  empty = [];
  mac1 = [];
  mac2 = [];
}

abbrev first : Device × Sent MessageInitiation
first = create_message_initiation toy 3 stamp_now (draws_with (16 ∷ []) 71) initiator

abbrev initiation : MessageInitiation
initiation = message no_initiation first.1

abbrev taken : Device × Option ℕ
taken = consume_message_initiation toy initiation late late responder

abbrev second : Device × Sent MessageResponse
second = create_message_response toy 4 (draws_with (24 ∷ []) 72) taken.0

abbrev response : MessageResponse
response = message no_response second.1

initiation-run : first.1 ≡ sent initiation
unfolding create_message_initiation encrypt_initiation assign_initiation shared_secret is_zero clamp
    set_byte public_key mix_hash mix_key kdf1 kdf2 kdf3 hmac1 hmac2 initial_hash initial_chain_key
    new_index check_and_take delete_index consume_message_initiation verify_initiation
    update_initiated create_message_response mix_response seal_response Tai64n.bytes_after bytes_eq
    Time.sub
initiation-run = refl

response-run : second.1 ≡ sent response
unfolding create_message_initiation encrypt_initiation assign_initiation shared_secret is_zero clamp
    set_byte public_key mix_hash mix_key kdf1 kdf2 kdf3 hmac1 hmac2 initial_hash initial_chain_key
    new_index check_and_take delete_index consume_message_initiation verify_initiation
    update_initiated create_message_response mix_response seal_response Tai64n.bytes_after bytes_eq
    Time.sub
response-run = refl

paired : Paired toy initiator responder 3 4
unfolding public_key bytes_eq
paired = record {
  a_public = refl;
  b_public = refl;
  knows_b = refl;
  knows_a = refl;
  listed = refl;
  running = refl;
  precomputed = refl;
  preshared = refl;
}

handshake-Secured_example :
    ((consume_message_initiation toy initiation late late responder).1 ≡ some 4)
    × ((consume_message_response toy response first.0).1 ≡ some 3)
    × Secured toy 3 4 late late (consume_message_response toy response first.0).0 second.0
unfolding create_message_initiation encrypt_initiation assign_initiation shared_secret is_zero clamp
    set_byte public_key mix_hash mix_key kdf1 kdf2 kdf3 hmac1 hmac2 initial_hash initial_chain_key
    new_index check_and_take delete_index consume_message_initiation verify_initiation
    update_initiated create_message_response mix_response seal_response Tai64n.bytes_after bytes_eq
    Time.sub
handshake-Secured_example =
    handshake-Secured toy initiator responder 3 4 paired stamp_now (draws_with (16 ∷ []) 71) late
      late refl refl (draws_with (24 ∷ []) 72) late late first.0 second.0 initiation response refl
      refl

begin-BeginsAs_example :
    BeginsAs toy 4 second.0
      (role (handshake_of second.0 4).state)
      (begin_symmetric_session toy 4 late second.0)
begin-BeginsAs_example = begin-BeginsAs toy 4 late second.0

begin-received_example :
    (let d' = (begin_symmetric_session toy 4 late second.0).0 in
      let (d'', confirmed) = received_with_keypair 4 40 d' in
      ((d'.peers 4).keypairs.current ≡ none)
      × (confirmed ≡ true)
      × ((d''.peers 4).keypairs ≡ record { current = some 40; previous = none; next = none })
      × (received_with_keypair 4 40 d'' ≡ (d'', false)))
unfolding create_message_initiation encrypt_initiation assign_initiation shared_secret is_zero clamp
    set_byte public_key mix_hash mix_key kdf1 kdf2 kdf3 hmac1 hmac2 initial_hash initial_chain_key
    new_index check_and_take delete_index consume_message_initiation verify_initiation
    update_initiated create_message_response mix_response seal_response Tai64n.bytes_after bytes_eq
    Time.sub
begin-received_example = begin-received toy 4 late second.0 refl

-- The responder after its session has begun.
abbrev settled : Device
settled = (begin_symmetric_session toy 4 late second.0).0

zero_and_flush_all-forgets_example :
    (let d' = zero_and_flush_all 4 settled in
      (begin_symmetric_session toy 4 late d' ≡ (d', false))
      × ((k : ℕ) → received_with_keypair 4 k d' ≡ (d', false))
      × ((k : ℕ)
          → Holds (settled.peers 4).keypairs k
          → lookup (settled.keypairs k).local_index d'.index_table ≡ none)
      × (lookup (handshake_of settled 4).local_index d'.index_table ≡ none))
zero_and_flush_all-forgets_example = zero_and_flush_all-forgets toy 4 late settled
