-- ===== src/Device/Noise/Answer.antt =====
-- device/noise-protocol.go: the initiator accepts the response to its message, with the same
-- transcript.
use wgservermgr.Prelude.{
  ℕ, ◌≡◌, refl, sym, ap, ◌∙◌, true, some, ◌==◌, [], subst, inl, inr, Bool-cases, Option-cases,
  arith,
}
use wgservermgr.Prelude.Maps.{nat_key, lookup}
use wgservermgr.Prelude.Bytes.{Bytes}
use wgservermgr.Device.IndexTable.{Table, delete_index, new_index, handshake_entry, lookup_index}
use wgservermgr.Device.Noise.Messages.{MessageResponse, message_response_type}
use wgservermgr.Device.Noise.Keys.{
  Primitives, zero_nonce, clamp, kdf3, public_key, shared_secret, mix_key, mix_hash,
}
use wgservermgr.Device.Noise.State.{
  Handshake, initiation_created, response_created, response_consumed, Peer, Device, handshake_of,
  set_handshake, Draws, Sent, sent, failed, waiting,
}
use wgservermgr.Device.Noise.Response.{
  create_message_response, mix_response, seal_response, consume_message_response,
  authenticate_response, open_response, is_initiation_consumed,
}
use wgservermgr.Device.Noise.Agreement.{shared_secret_comm, opens, update_self, Outcome-cases}

index-handshake :
    (i : ℕ) (t : Table) (peer handshake : ℕ)
    → lookup i t ≡ some (handshake_entry peer handshake)
    → lookup_index i t ≡ handshake_entry peer handshake
unfolding lookup_index
index-handshake i t peer handshake h = rw h refl

module _ (c : Primitives) where
  -- The initiator `a`, as its peer `pa`, and the handshake `hb` of the responder after the first
  -- message.
  pub record Synced (a : Device) (pa : ℕ) (hb : Handshake) : Type 0 where
    pub created : (handshake_of a pa).state ≡ initiation_created
    pub same_hash : hb.hash ≡ (handshake_of a pa).hash
    pub same_chain_key : hb.chain_key ≡ (handshake_of a pa).chain_key
    pub same_preshared : hb.preshared_key ≡ (handshake_of a pa).preshared_key
    pub knows_ephemeral : hb.remote_ephemeral ≡ public_key c (handshake_of a pa).local_ephemeral
    pub knows_static : hb.remote_static ≡ public_key c a.private_key
    pub indexed : lookup hb.remote_index a.index_table ≡ some (handshake_entry pa pa)

  -- The handshake of the initiator once it has consumed a message of the handshake `hb`.
  unfoldable pub answered : Handshake → MessageResponse → Handshake → Handshake
  answered hb msg ha = record ha {
    hash = hb.hash;
    chain_key = hb.chain_key;
    remote_index = msg.sender;
    state = response_consumed;
  }

  unfoldable pub Completes : Device → ℕ → Handshake → MessageResponse → Type 0
  Completes a pa hb msg =
      consume_message_response c msg a
      ≡ (set_handshake pa (answered hb msg (handshake_of a pa)) a, some pa)

  -- A response that is sent completes the handshake of the initiator.
  unfoldable pub Answered : Device → ℕ → ℕ → Device × Sent MessageResponse → Type 0
  Answered a pa pb (b', sent msg) =
      Completes a pa (handshake_of b' pb) msg × ((handshake_of b' pb).state ≡ response_created)
  Answered a pa pb (b', failed) = Unit
  Answered a pa pb (b', waiting) = Unit

  module _ (a b : Device) (pa pb : ℕ) (draws : Draws) where
    consume-Completes :
        (h : Handshake) (msg : MessageResponse) (ss ss' : Bytes)
        → (handshake_of a pa).state ≡ initiation_created
        → msg.type ≡ message_response_type
        → lookup msg.receiver a.index_table ≡ some (handshake_entry pa pa)
        → shared_secret c (handshake_of a pa).local_ephemeral msg.ephemeral ≡ some ss
        → shared_secret c a.private_key msg.ephemeral ≡ some ss'
        → (let ha = handshake_of a pa in
            let chain_key = mix_key c (mix_key c (mix_key c ha.chain_key msg.ephemeral) ss) ss' in
            let keys = kdf3 c chain_key ha.preshared_key in
            let hash = mix_hash c (mix_hash c ha.hash msg.ephemeral) keys.1 in
            (msg.empty ≡ c.seal keys.2 zero_nonce [] hash)
            × (h.hash ≡ mix_hash c hash msg.empty)
            × (h.chain_key ≡ keys.0))
        → Completes a pa h msg
    unfolding Completes answered consume_message_response authenticate_response open_response
    consume-Completes h msg ss ss' created type indexed secret secret' (empty, hash, chain) =
        let right : (msg.type == message_response_type) ≡ true = ground arith in
        let ha = handshake_of a pa in
        let keys =
          kdf3 c (mix_key c (mix_key c (mix_key c ha.chain_key msg.ephemeral) ss) ss')
            ha.preshared_key in
        let opened =
          opens c keys.2 [] (mix_hash c (mix_hash c ha.hash msg.ephemeral) keys.1) msg.empty
            empty in
        let entry = index-handshake msg.receiver a.index_table pa pa indexed in
        rw (right, entry, created, secret, secret', opened, hash, chain) (cc entry)

    deliver-Answered :
        (h : Handshake) (msg : MessageResponse)
        → Completes a pa h msg
        → h.state ≡ response_created
        → Answered a pa pb (set_handshake pb h b, sent msg)
    unfolding Answered
    deliver-Answered h msg done state =
        subst
          (λ (p : Peer). Completes a pa p.handshake msg × (p.handshake.state ≡ response_created))
          (sym (update_self b.peers pb _)) (done, state)

    seal-Answered :
        (ephemeral : Bytes) (h : Handshake) (ss ss' : Bytes)
        → (handshake_of a pa).state ≡ initiation_created
        → lookup h.remote_index a.index_table ≡ some (handshake_entry pa pa)
        → shared_secret c (handshake_of a pa).local_ephemeral ephemeral ≡ some ss
        → shared_secret c a.private_key ephemeral ≡ some ss'
        → h.hash ≡ mix_hash c (handshake_of a pa).hash ephemeral
        → h.chain_key
          ≡ mix_key c (mix_key c (mix_key c (handshake_of a pa).chain_key ephemeral) ss) ss'
        → h.preshared_key ≡ (handshake_of a pa).preshared_key
        → Answered a pa pb (seal_response c pb draws ephemeral h b)
    unfolding Answered seal_response
    seal-Answered ephemeral h ss ss' created indexed secret secret' hash chain preshared =
        deliver-Answered _ _
          (consume-Completes _ _ ss ss' created refl indexed secret secret'
            (cc (hash, chain, preshared), cc (hash, chain, preshared), cc (hash, chain, preshared)))
          refl

    mix-Answered : (h : Handshake) → Synced a pa h → Answered a pa pb (mix_response c pb draws h b)
    unfolding mix_response Answered
    mix-Answered h s =
        let e = clamp draws.ephemeral in
        elim (Bool-cases draws.ephemeral_ok) [
          | inr bad ↦ rw bad tt
          | inl ok ↦ elim (Option-cases (shared_secret c e h.remote_ephemeral)) [
            | inl none_ ↦ rw (ok, none_) tt
            | inr (ss, f) ↦ elim (Option-cases (shared_secret c e h.remote_static)) [
              | inl none_ ↦ rw (ok, f, none_) tt
              | inr (ss', g) ↦
                  rw (ok, f, g)
                    (seal-Answered (public_key c e) _ ss ss' s.created s.indexed
                      (shared_secret_comm c _ e
                        ∙ ap (shared_secret c e) (sym s.knows_ephemeral)
                        ∙ f)
                      (shared_secret_comm c _ e ∙ ap (shared_secret c e) (sym s.knows_static) ∙ g)
                      (cc s.same_hash) (cc s.same_chain_key) s.same_preshared)
            ]
          ]
        ]

  module _ (a b : Device) (pa pb : ℕ) (draws : Draws) where
    -- What the responder sends completes the handshake of the initiator.
    pub respond-Answered :
        Synced a pa (handshake_of b pb) → Answered a pa pb (create_message_response c pb draws b)
    unfolding create_message_response Answered
    respond-Answered s = elim (Bool-cases (is_initiation_consumed (handshake_of b pb).state)) [
      | inr bad ↦ rw bad tt
      | inl ok ↦
          elim (Outcome-cases (
            new_index pb pb draws.rounds
              (delete_index (handshake_of b pb).local_index b.index_table))) [
                | inr (inl (t, o)) ↦ rw (ok, o) tt
                | inr (inr (t, o)) ↦ rw (ok, o) tt
                | inl (i, t, o) ↦
                    rw (ok, o)
                      (mix-Answered a (record b { index_table = t }) pa pb draws _
                        (record {
                          created = s.created;
                          same_hash = s.same_hash;
                          same_chain_key = s.same_chain_key;
                          same_preshared = s.same_preshared;
                          knows_ephemeral = s.knows_ephemeral;
                          knows_static = s.knows_static;
                          indexed = s.indexed;
                        }))
              ]
    ]
