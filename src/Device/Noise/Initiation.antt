-- ===== src/Device/Noise/Initiation.antt =====
-- device/noise-protocol.go: the first message of the handshake.
use wgservermgr.Prelude.{ℕ, not, Option, none, some, ◌==◌, if◌then◌else◌}
use wgservermgr.Prelude.Int.{pos, leb_ℤ}
use wgservermgr.Prelude.Maps.{lookup}
use wgservermgr.Prelude.Bytes.{Bytes, zeros, ascii, bytes_key}
use wgservermgr.Mgmt.Time
use wgservermgr.Mgmt.Time.{Time}
use wgservermgr.Tai64n
use wgservermgr.Device.IndexTable.{Outcome, delete_index, new_index}
use wgservermgr.Device.Noise.Messages.{MessageInitiation, message_initiation_type}
use wgservermgr.Device.Noise.Keys.{
  Primitives, zero_nonce, is_zero, clamp, kdf2, public_key, shared_secret, mix_key, mix_hash,
}
use wgservermgr.Device.Noise.State.{
  Handshake, initiation_created, initiation_consumed, Device, handshake_of, set_handshake, Draws,
  Sent, sent, failed, waiting,
}

-- `HandshakeInitationRate`, in nanoseconds.
abbrev pub handshake_initiation_rate : ℕ
handshake_initiation_rate = 20_000_000

-- `NoiseConstruction` and `WGIdentifier`.
abbrev pub noise_construction : Bytes
noise_construction = ascii "Noise_IKpsk2_25519_ChaChaPoly_BLAKE2s"

abbrev pub wg_identifier : Bytes
wg_identifier = ascii "WireGuard v1 zx2c4 Jason@zx2c4.com"

module _ (c : Primitives) where
  -- `init`
  unfoldable pub initial_chain_key : Bytes
  initial_chain_key = c.blake2s noise_construction

  unfoldable pub initial_hash : Bytes
  initial_hash = mix_hash c initial_chain_key wg_identifier

  -- `h.mixHash(data)` and `h.mixKey(data)`
  abbrev pub hash_in : Bytes → Handshake → Handshake
  hash_in input h = record h { hash = mix_hash c h.hash input }

  abbrev pub key_in : Bytes → Handshake → Handshake
  key_in input h = record h { chain_key = mix_key c h.chain_key input }

  module _ (peer : ℕ) (timestamp : Bytes) (draws : Draws) where
    -- `CreateMessageInitiation` from the index on.
    unfoldable pub assign_initiation :
        MessageInitiation → Handshake → Device → Device × Sent MessageInitiation
    assign_initiation msg h d =
        elim (new_index peer peer draws.rounds (delete_index h.local_index d.index_table)) [
          | Outcome.running table ↦
              (set_handshake peer h (record d { index_table = table }), waiting)
          | Outcome.failed table ↦ (set_handshake peer h (record d { index_table = table }), failed)
          | Outcome.given index table ↦ (
            set_handshake peer
                (record (hash_in msg.timestamp (record h { local_index = index })) {
                  state = initiation_created;
                })
                (record d { index_table = table }),
            sent (record msg { sender = index }),
          )
        ]

    -- From the encryption of the static key on.
    unfoldable pub encrypt_initiation :
        Bytes → Bytes → Handshake → Device → Device × Sent MessageInitiation
    encrypt_initiation ephemeral ss h d =
        let (chain_key, key) = kdf2 c h.chain_key ss in
        let static = c.seal key zero_nonce d.public_key h.hash in
        let h1 = hash_in static (record h { chain_key = chain_key }) in
        if is_zero h1.precomputed_static_static
        then (set_handshake peer h1 d, failed)
        else let (chain_key', key') = kdf2 c h1.chain_key h1.precomputed_static_static in
          let h2 = record h1 { chain_key = chain_key' } in
          let msg : MessageInitiation = record {
            type = message_initiation_type;
            sender = 0;
            ephemeral = ephemeral;
            static = static;
            timestamp = c.seal key' zero_nonce timestamp h2.hash;
            mac1 = zeros 16;
            mac2 = zeros 16;
          } in
          assign_initiation msg h2 d

    -- `CreateMessageInitiation`, with the timestamp that `tai64n.Now` gives.
    unfoldable pub create_message_initiation : Device → Device × Sent MessageInitiation
    create_message_initiation d =
        let h = record (handshake_of d peer) {
          hash = initial_hash;
          chain_key = initial_chain_key;
          local_ephemeral = clamp draws.ephemeral;
        } in
        let ephemeral = public_key c h.local_ephemeral in
        let h1 = hash_in ephemeral (key_in ephemeral (hash_in h.remote_static h)) in
        if not draws.ephemeral_ok
        then (set_handshake peer h d, failed)
        else elim (shared_secret c h1.local_ephemeral h1.remote_static) [
          | none ↦ (set_handshake peer h1 d, failed)
          | some ss ↦ encrypt_initiation ephemeral ss h1 d
        ]

  module _ (msg : MessageInitiation) (since now : Time) where
    -- `ConsumeMessageInitiation` once the timestamp is open: the replay and flood guards, and the
    -- update of the handshake. `since` is the reading in `time.Since`, `now` the later one.
    unfoldable pub update_initiated : ℕ → Bytes → Bytes → Bytes → Device → Device × Option ℕ
    update_initiated peer timestamp hash chain_key d =
        let h = handshake_of d peer in
        let replay = not (Tai64n.after timestamp h.last_timestamp) in
        let flood =
          leb_ℤ (Time.sub since h.last_initiation_consumption) (pos handshake_initiation_rate) in
        if replay
        then (d, none)
        else if flood
        then (d, none)
        else let h' = record h {
          hash = hash;
          chain_key = chain_key;
          remote_index = msg.sender;
          remote_ephemeral = msg.ephemeral;
          last_timestamp =
              if Tai64n.after timestamp h.last_timestamp then timestamp else h.last_timestamp;
          last_initiation_consumption =
              if Time.after now h.last_initiation_consumption
              then now
              else h.last_initiation_consumption;
          state = initiation_consumed;
        } in
          (set_handshake peer h' d, some peer)

    -- From the look-up of the peer on: it must be running, and the timestamp must open.
    unfoldable pub verify_initiation : Bytes → Bytes → Bytes → Device → Device × Option ℕ
    verify_initiation peer_pk hash chain_key d = elim (lookup peer_pk d.key_map) [
      | none ↦ (d, none)
      | some peer ↦
          let p = d.peers peer in
          if not p.is_running
          then (d, none)
          else if is_zero p.handshake.precomputed_static_static
          then (d, none)
          else let (chain_key', key) = kdf2 c chain_key p.handshake.precomputed_static_static in
            elim (c.unseal key zero_nonce msg.timestamp hash) [
              | none ↦ (d, none)
              | some timestamp ↦
                  update_initiated peer timestamp (mix_hash c hash msg.timestamp) chain_key' d
            ]
    ]

    -- `ConsumeMessageInitiation`
    unfoldable pub consume_message_initiation : Device → Device × Option ℕ
    consume_message_initiation d =
        let hash = mix_hash c (mix_hash c initial_hash d.public_key) msg.ephemeral in
        let chain_key = mix_key c initial_chain_key msg.ephemeral in
        if not (msg.type == message_initiation_type)
        then (d, none)
        else elim (shared_secret c d.private_key msg.ephemeral) [
          | none ↦ (d, none)
          | some ss ↦
              let (chain_key', key) = kdf2 c chain_key ss in
              elim (c.unseal key zero_nonce msg.static hash) [
                | none ↦ (d, none)
                | some peer_pk ↦ verify_initiation peer_pk (mix_hash c hash msg.static) chain_key' d
              ]
        ]
