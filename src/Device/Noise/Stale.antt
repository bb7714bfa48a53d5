-- ===== src/Device/Noise/Stale.antt =====
-- device/noise-protocol.go: what `ConsumeMessageInitiation` accepts, and that it accepts it once.
use wgservermgr.Prelude.{ℕ, ◌≡◌, true, false, Option, none, some, ◌==◌}
use wgservermgr.Prelude.Maps.{lookup}
use wgservermgr.Prelude.Bytes.{Bytes, bytes_key}
use wgservermgr.Mgmt.Time
use wgservermgr.Mgmt.Time.{Time}
use wgservermgr.Tai64n
use wgservermgr.Device.Noise.Messages.{MessageInitiation, message_initiation_type}
use wgservermgr.Device.Noise.Keys.{
  Primitives, zero_nonce, is_zero, kdf2, shared_secret, mix_key, mix_hash,
}
use wgservermgr.Device.Noise.State.{initiation_consumed, Device, handshake_of}
use wgservermgr.Device.Noise.Initiation.{
  consume_message_initiation, initial_hash, initial_chain_key,
}

module _ (c : Primitives) (msg : MessageInitiation) where
  -- What the message says to a device: the secret of its ephemeral key, the static key in it, the
  -- peer of that key, and the timestamp.
  pub record Reads (d : Device) (ss peer_pk : Bytes) (peer : ℕ) (timestamp : Bytes) : Type 0 where
    pub right : (msg.type == message_initiation_type) ≡ true
    pub secret : shared_secret c d.private_key msg.ephemeral ≡ some ss
    pub static :
        c.unseal
          (kdf2 c (mix_key c (initial_chain_key c) msg.ephemeral) ss).1
          zero_nonce
          msg.static
          (mix_hash c (mix_hash c (initial_hash c) d.public_key) msg.ephemeral)
        ≡ some peer_pk
    pub listed : lookup peer_pk d.key_map ≡ some peer
    pub running : (d.peers peer).is_running ≡ true
    pub known : is_zero (handshake_of d peer).precomputed_static_static ≡ false
    pub stamped :
        c.unseal
          (kdf2 c
            (kdf2 c (mix_key c (initial_chain_key c) msg.ephemeral) ss).0
            (handshake_of d peer).precomputed_static_static).1
          zero_nonce
          msg.timestamp
          (mix_hash c
            (mix_hash c (mix_hash c (initial_hash c) d.public_key) msg.ephemeral)
            msg.static)
        ≡ some timestamp

  -- A message that is refused changes nothing. One that is accepted reads as one from a running
  -- peer, its timestamp is kept and newer than the last one of that peer, and it is refused from
  -- then on.
  unfoldable pub Consumed : Device → Device × Option ℕ → Type 0
  Consumed d (d', none) = d' ≡ d
  Consumed d (d', some peer) =
      ((ss peer_pk timestamp : Bytes) × Reads d ss peer_pk peer timestamp
        × ((handshake_of d' peer).last_timestamp ≡ timestamp))
      × ((handshake_of d' peer).state ≡ initiation_consumed)
      × (Tai64n.after (handshake_of d' peer).last_timestamp (handshake_of d peer).last_timestamp
          ≡ true)
      × ((since now : Time) → consume_message_initiation c msg since now d' ≡ (d', none))
