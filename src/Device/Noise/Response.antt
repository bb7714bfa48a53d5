-- ===== src/Device/Noise/Response.antt =====
-- device/noise-protocol.go: the second message of the handshake.
use wgservermgr.Prelude.{ℕ, Bool, true, false, not, Option, none, some, ◌==◌, if◌then◌else◌, []}
use wgservermgr.Prelude.Bytes.{Bytes, zeros}
use wgservermgr.Device.IndexTable.{Outcome, delete_index, new_index, lookup_index}
use wgservermgr.Device.Noise.Messages.{MessageResponse, message_response_type}
use wgservermgr.Device.Noise.Keys.{
  Primitives, zero_nonce, clamp, kdf3, public_key, shared_secret, mix_key, mix_hash,
}
use wgservermgr.Device.Noise.State.{
  Handshake, HandshakeState, response_created, response_consumed, Device, handshake_of,
  set_handshake, Draws, Sent, sent, failed, waiting,
}
use wgservermgr.Device.Noise.Initiation.{hash_in, key_in}

-- `handshake.state == …`
abbrev pub is_initiation_created : HandshakeState → Bool
is_initiation_created HandshakeState.initiation_created = true
is_initiation_created HandshakeState.zeroed = false
is_initiation_created HandshakeState.initiation_consumed = false
is_initiation_created HandshakeState.response_created = false
is_initiation_created HandshakeState.response_consumed = false

abbrev pub is_initiation_consumed : HandshakeState → Bool
is_initiation_consumed HandshakeState.initiation_consumed = true
is_initiation_consumed HandshakeState.zeroed = false
is_initiation_consumed HandshakeState.initiation_created = false
is_initiation_consumed HandshakeState.response_created = false
is_initiation_consumed HandshakeState.response_consumed = false

module _ (c : Primitives) where
  module _ (peer : ℕ) (draws : Draws) where
    -- `CreateMessageResponse` from the preshared key on.
    unfoldable pub seal_response : Bytes → Handshake → Device → Device × Sent MessageResponse
    seal_response ephemeral h d =
        let (chain_key, tau, key) = kdf3 c h.chain_key h.preshared_key in
        let h1 = hash_in c tau (record h { chain_key = chain_key }) in
        let empty = c.seal key zero_nonce [] h1.hash in
        let h2 = record (hash_in c empty h1) { state = response_created } in
        let msg : MessageResponse = record {
          type = message_response_type;
          sender = h2.local_index;
          receiver = h2.remote_index;
          ephemeral = ephemeral;
          empty = empty;
          mac1 = zeros 16;
          mac2 = zeros 16;
        } in
        (set_handshake peer h2 d, sent msg)

    -- From the ephemeral key on, which its public half follows into the transcript.
    unfoldable pub mix_response : Handshake → Device → Device × Sent MessageResponse
    mix_response h d =
        let h0 = record h { local_ephemeral = clamp draws.ephemeral } in
        let ephemeral = public_key c h0.local_ephemeral in
        let h1 = key_in c ephemeral (hash_in c ephemeral h0) in
        if not draws.ephemeral_ok
        then (set_handshake peer h0 d, failed)
        else elim (shared_secret c h1.local_ephemeral h1.remote_ephemeral) [
          | none ↦ (set_handshake peer h1 d, failed)
          | some ss ↦
              let h2 = key_in c ss h1 in
              elim (shared_secret c h2.local_ephemeral h2.remote_static) [
                | none ↦ (set_handshake peer h2 d, failed)
                | some ss' ↦ seal_response ephemeral (key_in c ss' h2) d
              ]
        ]

    -- `CreateMessageResponse`. The index is assigned also where it comes with an error.
    unfoldable pub create_message_response : Device → Device × Sent MessageResponse
    create_message_response d =
        let h = handshake_of d peer in
        if not (is_initiation_consumed h.state)
        then (d, failed)
        else elim (new_index peer peer draws.rounds (delete_index h.local_index d.index_table)) [
          | Outcome.running table ↦ (record d { index_table = table }, waiting)
          | Outcome.failed table ↦ (
            set_handshake peer (record h { local_index = draws.failed_index })
                (record d { index_table = table }),
            failed,
          )
          | Outcome.given index table ↦
              mix_response (record h { local_index = index }) (record d { index_table = table })
        ]

  module _ (msg : MessageResponse) where
    -- The authentication of the transcript: the hash and the chain key that `ok` leaves, none where
    -- it is false.
    unfoldable pub open_response : Bytes → Bytes → Bytes → Option (Bytes × Bytes)
    open_response hash chain_key preshared_key =
        let (chain_key', tau, key) = kdf3 c chain_key preshared_key in
        let hash' = mix_hash c hash tau in
        elim (c.unseal key zero_nonce msg.empty hash') [
          | none ↦ none
          | some _ ↦ some (mix_hash c hash' msg.empty, chain_key')
        ]

    -- The function `ok` of `ConsumeMessageResponse`.
    unfoldable pub authenticate_response : Bytes → Handshake → Option (Bytes × Bytes)
    authenticate_response private_key h =
        let hash = mix_hash c h.hash msg.ephemeral in
        let chain_key = mix_key c h.chain_key msg.ephemeral in
        if not (is_initiation_created h.state)
        then none
        else elim (shared_secret c h.local_ephemeral msg.ephemeral) [
          | none ↦ none
          | some ss ↦ elim (shared_secret c private_key msg.ephemeral) [
            | none ↦ none
            | some ss' ↦ open_response hash (mix_key c (mix_key c chain_key ss) ss') h.preshared_key
          ]
        ]

    -- `ConsumeMessageResponse`
    unfoldable pub consume_message_response : Device → Device × Option ℕ
    consume_message_response d =
        let entry = lookup_index msg.receiver d.index_table in
        if not (msg.type == message_response_type) then (d, none) else elim entry.handshake [
          | none ↦ (d, none)
          | some n ↦
              let h = handshake_of d n in
              elim (authenticate_response d.private_key h) [
                | none ↦ (d, none)
                | some (hash, chain_key) ↦ (
                  set_handshake n
                      (record h {
                        hash = hash;
                        chain_key = chain_key;
                        remote_index = msg.sender;
                        state = response_consumed;
                      })
                      d,
                  entry.peer,
                )
              ]
        ]
