-- ===== src/Device/Noise/Agreement.antt =====
-- device/noise-protocol.go: what one side makes the other accepts, with the same transcript.
use wgservermgr.Prelude.{
  ℕ, ◌≡◌, refl, sym, ap, ◌∙◌, true, false, some, ◌==◌, if◌then◌else◌, update, subst, inl, inr, ◌⊎◌,
  Bool-cases, Option-cases, arith,
}
use wgservermgr.Prelude.Int.{pos, leb_ℤ}
use wgservermgr.Prelude.Maps.{nat_key, lookup}
use wgservermgr.Prelude.Bytes.{Bytes, bytes_key}
use wgservermgr.Mgmt.Time
use wgservermgr.Mgmt.Time.{Time}
use wgservermgr.Tai64n
use wgservermgr.Device.IndexTable.{Table, Outcome, delete_index, new_index, handshake_entry}
use wgservermgr.Device.IndexTable.Fresh.{new_index-lookup}
use wgservermgr.Device.Noise.Messages.{MessageInitiation, message_initiation_type}
use wgservermgr.Device.Noise.Keys.{
  Primitives, zero_nonce, is_zero, clamp, kdf2, public_key, shared_secret, mix_key, mix_hash,
}
use wgservermgr.Device.Noise.State.{
  Handshake, initiation_created, initiation_consumed, Peer, Device, handshake_of, set_handshake,
  Draws, Sent, sent, failed, waiting,
}
use wgservermgr.Device.Noise.Initiation.{
  create_message_initiation, encrypt_initiation, assign_initiation, consume_message_initiation,
  verify_initiation, update_initiated, handshake_initiation_rate, hash_in, initial_hash,
  initial_chain_key,
}

pub Outcome-cases :
    (o : Outcome)
    → ((i : ℕ) × (t : Table) × (o ≡ Outcome.given i t))
      ⊎ (((t : Table) × (o ≡ Outcome.failed t)) ⊎ ((t : Table) × (o ≡ Outcome.running t)))
Outcome-cases (Outcome.given i t) = inl (i, t, refl)
Outcome-cases (Outcome.failed t) = inr (inl (t, refl))
Outcome-cases (Outcome.running t) = inr (inr (t, refl))

pub update_self {ℓ} : {A : Type ℓ} (f : ℕ → A) (n : ℕ) (v : A) → update f n v n ≡ v
update_self f n v = ground arith

module _ (c : Primitives) where
  pub shared_secret_comm :
      (a b : Bytes) → shared_secret c a (public_key c b) ≡ shared_secret c b (public_key c a)
  unfolding shared_secret public_key
  shared_secret_comm a b = rw (c.scalar_mult_comm a b)

  pub opens :
      (key text ad sealed : Bytes)
      → sealed ≡ c.seal key zero_nonce text ad
      → c.unseal key zero_nonce sealed ad ≡ some text
  opens key text ad sealed h = rw h (c.unseal-seal key zero_nonce text ad)

  -- Device `a` has the peer `pa`, which is device `b`, and `b` the peer `pb`, which is `a`.
  pub record Paired (a b : Device) (pa pb : ℕ) : Type 0 where
    pub a_public : a.public_key ≡ public_key c a.private_key
    pub b_public : b.public_key ≡ public_key c b.private_key
    pub knows_b : (handshake_of a pa).remote_static ≡ b.public_key
    pub knows_a : (handshake_of b pb).remote_static ≡ a.public_key
    pub listed : lookup a.public_key b.key_map ≡ some pb
    pub running : (b.peers pb).is_running ≡ true
    pub precomputed :
        (handshake_of a pa).precomputed_static_static
        ≡ (handshake_of b pb).precomputed_static_static
    pub preshared : (handshake_of a pa).preshared_key ≡ (handshake_of b pb).preshared_key

  -- The handshake of `b` once it has consumed a message of `a`, whose handshake is `h`.
  unfoldable pub initiated : Handshake → MessageInitiation → Bytes → Time → Handshake → Handshake
  initiated h msg timestamp now hb = record hb {
    hash = h.hash;
    chain_key = h.chain_key;
    remote_index = msg.sender;
    remote_ephemeral = msg.ephemeral;
    last_timestamp = timestamp;
    last_initiation_consumption =
        if Time.after now hb.last_initiation_consumption
        then now
        else hb.last_initiation_consumption;
    state = initiation_consumed;
  }

  -- `b` accepts the message, and then its handshake agrees with `h`.
  unfoldable pub Agrees : Device → ℕ → Bytes → Time → Time → Handshake → MessageInitiation → Type 0
  Agrees b pb timestamp since now h msg =
      consume_message_initiation c msg since now b
      ≡ (set_handshake pb (initiated h msg timestamp now (handshake_of b pb)) b, some pb)

  -- What the initiator `a` has, as its peer `pa`, after a message that it sends.
  pub record Initiator (a : Device) (pa : ℕ) (h : Handshake) (msg : MessageInitiation)
      (table : Table) : Type 0 where
    pub state : h.state ≡ initiation_created
    pub ephemeral : msg.ephemeral ≡ public_key c h.local_ephemeral
    pub preshared : h.preshared_key ≡ (handshake_of a pa).preshared_key
    pub indexed : lookup msg.sender table ≡ some (handshake_entry pa pa)

  -- A call that sends a message leaves a handshake in its device, with which `b` agrees.
  unfoldable pub Accepted :
      Device → Device → ℕ → ℕ → Bytes → Time → Time → Device × Sent MessageInitiation → Type 0
  Accepted a b pa pb timestamp since now (a', sent msg) =
      Agrees b pb timestamp since now (handshake_of a' pa) msg
      × Initiator a pa (handshake_of a' pa) msg a'.index_table
      × (a'.private_key ≡ a.private_key)
  Accepted a b pa pb timestamp since now (a', failed) = Unit
  Accepted a b pa pb timestamp since now (a', waiting) = Unit

  module _ (a b : Device) (pa pb : ℕ) (paired : Paired a b pa pb) (timestamp : Bytes)
      (draws : Draws) (since now : Time)
      (fresh : Tai64n.after timestamp (handshake_of b pb).last_timestamp ≡ true)
      (calm : leb_ℤ
          (Time.sub since (handshake_of b pb).last_initiation_consumption)
          (pos handshake_initiation_rate)
        ≡ false) where
    assign-Accepted :
        (msg : MessageInitiation) (h : Handshake)
        → msg.ephemeral ≡ public_key c h.local_ephemeral
        → h.preshared_key ≡ (handshake_of a pa).preshared_key
        → ((i : ℕ)
            → Agrees b pb timestamp since now
                (record (hash_in c msg.timestamp (record h { local_index = i })) {
                  state = initiation_created;
                })
                (record msg { sender = i }))
        → Accepted a b pa pb timestamp since now (assign_initiation c pa timestamp draws msg h a)
    unfolding assign_initiation Accepted
    assign-Accepted msg h ephemeral preshared agree =
        elim (Outcome-cases
          (new_index pa pa draws.rounds (delete_index h.local_index a.index_table))) [
            | inr (inl (t, o)) ↦ rw (assign_initiation, o) tt
            | inr (inr (t, o)) ↦ rw (assign_initiation, o) tt
            | inl (i, t, o) ↦
                let indexed = new_index-lookup pa pa draws.rounds _ i t o in
                rw (assign_initiation, o)
                  (subst
                    (λ (p : Peer).
                      Agrees b pb timestamp since now p.handshake (record msg { sender = i })
                      × Initiator a pa p.handshake (record msg { sender = i }) t
                      × (a.private_key ≡ a.private_key))
                    (sym (update_self a.peers pa _))
                    (
                      agree i,
                      record {
                        state = refl;
                        ephemeral = ephemeral;
                        preshared = preshared;
                        indexed = indexed;
                      },
                      refl,
                    ))
          ]

    hash0 : Bytes → Bytes
    hash0 ephemeral = mix_hash c (mix_hash c (initial_hash c) b.public_key) ephemeral

    chain0 : Bytes → Bytes
    chain0 ephemeral = mix_key c (initial_chain_key c) ephemeral

    -- What a message of `a` and its handshake are made of, read by `b`.
    consume-Agrees :
        (h : Handshake) (msg : MessageInitiation) (ss : Bytes)
        → is_zero (handshake_of b pb).precomputed_static_static ≡ false
        → msg.type ≡ message_initiation_type
        → shared_secret c b.private_key msg.ephemeral ≡ some ss
        → msg.static
          ≡ c.seal
              (kdf2 c (chain0 msg.ephemeral) ss).1
              zero_nonce
              a.public_key
              (hash0 msg.ephemeral)
        → (let hash1 = mix_hash c (hash0 msg.ephemeral) msg.static in
            let keys =
              kdf2 c
                (kdf2 c (chain0 msg.ephemeral) ss).0
                (handshake_of b pb).precomputed_static_static in
            (msg.timestamp ≡ c.seal keys.1 zero_nonce timestamp hash1)
            × (h.hash ≡ mix_hash c hash1 msg.timestamp)
            × (h.chain_key ≡ keys.0))
        → Agrees b pb timestamp since now h msg
    unfolding Agrees hash0 chain0 initiated consume_message_initiation verify_initiation
        update_initiated
    consume-Agrees h msg ss known type secret static (stamp, hash, chain) =
        let right : (msg.type == message_initiation_type) ≡ true = ground arith in
        let opened =
          opens (kdf2 c (chain0 msg.ephemeral) ss).1 a.public_key (hash0 msg.ephemeral) msg.static
            static in
        let opened' =
          opens
            (kdf2 c (kdf2 c (chain0 msg.ephemeral) ss).0
              (handshake_of b pb).precomputed_static_static).1
            timestamp (mix_hash c (hash0 msg.ephemeral) msg.static) msg.timestamp stamp in
        rw
          (
            right, secret, opened, verify_initiation, paired.listed, paired.running, known, opened',
            update_initiated, fresh, calm, hash, chain,
          )
          (cc paired.running)

    encrypt-Accepted :
        (ss : Bytes)
        → (e : Bytes) → shared_secret c e (handshake_of a pa).remote_static ≡ some ss
        → (h : Handshake)
        → h.hash
          ≡ mix_hash c
              (mix_hash c (initial_hash c) (handshake_of a pa).remote_static)
              (public_key c e)
        → h.chain_key ≡ mix_key c (initial_chain_key c) (public_key c e)
        → h.precomputed_static_static ≡ (handshake_of a pa).precomputed_static_static
        → h.local_ephemeral ≡ e
        → h.preshared_key ≡ (handshake_of a pa).preshared_key
        → Accepted a b pa pb timestamp since now
            (encrypt_initiation c pa timestamp draws (public_key c e) ss h a)
    unfolding encrypt_initiation Accepted hash0 chain0
    encrypt-Accepted ss e secret h hash chain pre own shared =
        let hash' : h.hash ≡ hash0 (public_key c e) =
          hash
          ∙ ap (λ k. mix_hash c (mix_hash c (initial_hash c) k) (public_key c e)) paired.knows_b in
        let chain' : h.chain_key ≡ chain0 (public_key c e) = chain in
        let pre' : h.precomputed_static_static ≡ (handshake_of b pb).precomputed_static_static =
          pre ∙ paired.precomputed in
        let secret' : shared_secret c b.private_key (public_key c e) ≡ some ss =
          shared_secret_comm b.private_key e
          ∙ ap (shared_secret c e) (sym paired.b_public ∙ sym paired.knows_b)
          ∙ secret in
        elim (Bool-cases (is_zero h.precomputed_static_static)) [
          | inl zero_ ↦ rw zero_ tt
          | inr known ↦
              let known' : is_zero (handshake_of b pb).precomputed_static_static ≡ false =
                ap is_zero (sym pre') ∙ known in
              rw known (
                assign-Accepted _ _ (ap (public_key c) (sym own)) shared (λ i.
                  consume-Agrees _ _ ss known' refl secret' (cc (hash', chain'))
                    (cc (hash', chain', pre'), cc (hash', chain', pre'), cc (hash', chain', pre'))))
        ]

    pub create-Accepted :
        Accepted a b pa pb timestamp since now (create_message_initiation c pa timestamp draws a)
    unfolding create_message_initiation Accepted
    create-Accepted = elim (Bool-cases draws.ephemeral_ok) [
      | inr bad ↦ rw bad tt
      | inl ok ↦
          elim (Option-cases
            (shared_secret c (clamp draws.ephemeral) (handshake_of a pa).remote_static)) [
              | inl none_ ↦ rw (ok, none_) tt
              | inr (ss, e) ↦
                  rw (ok, e)
                    (encrypt-Accepted ss (clamp draws.ephemeral) e _ refl refl refl refl refl)
            ]
    ]
