-- ===== src/Device/Transport/Initiating.antt =====
-- device/noise-protocol.go, send.go, timers.go: what the sending of an initiation leaves alone.
use wgservermgr.Prelude.{ℕ, ◌≡◌, refl, ap, inl, inr, Bool-cases, Option-cases, ◌⊎◌}
use wgservermgr.Prelude.Bytes.{Bytes}
use wgservermgr.Device.IndexTable.{Table, Outcome, delete_index, new_index}
use wgservermgr.Device.Noise.Keys.{Primitives, is_zero, clamp, shared_secret}
use wgservermgr.Device.Noise.Messages.{MessageInitiation}
use wgservermgr.Device.Noise.State.{Handshake, Peer, Device, Draws, handshake_of, set_handshake}
use wgservermgr.Device.Noise.Initiation.{
  create_message_initiation, encrypt_initiation, assign_initiation,
}
use wgservermgr.Device.Noise.Agreement.{update_self}

-- The device has the keypairs that it had, and the peer runs if it did.
pub record SameKeys (peer : ℕ) (d d' : Device) : Type 0 where
  pub keypairs : d'.keypairs ≡ d.keypairs
  pub held : (d'.peers peer).keypairs ≡ (d.peers peer).keypairs
  pub running : (d'.peers peer).is_running ≡ (d.peers peer).is_running

SameKeys-handshake :
    (peer : ℕ) (hs : Handshake) (t : Table) (d : Device)
    → SameKeys peer d (set_handshake peer hs (record d { index_table = t }))
SameKeys-handshake peer hs t d = record {
  keypairs = refl;
  held = ap (λ (p : Peer). p.keypairs) (update_self d.peers peer _);
  running = ap (λ (p : Peer). p.is_running) (update_self d.peers peer _);
}

pub Outcome-cases :
    (o : Outcome)
    → ((t : Table) × (o ≡ Outcome.running t))
      ⊎ (((t : Table) × (o ≡ Outcome.failed t)) ⊎ ((i : ℕ) × (t : Table) × (o ≡ Outcome.given i t)))
Outcome-cases (Outcome.running t) = inl (t, refl)
Outcome-cases (Outcome.failed t) = inr (inl (t, refl))
Outcome-cases (Outcome.given i t) = inr (inr (i, t, refl))

module _ (c : Primitives) (peer : ℕ) (timestamp : Bytes) (draws : Draws) where
  assign_initiation-SameKeys :
      (msg : MessageInitiation) (hs : Handshake) (d : Device)
      → SameKeys peer d (assign_initiation c peer timestamp draws msg hs d).0
  unfolding assign_initiation
  assign_initiation-SameKeys msg hs d =
      let assigned = new_index peer peer draws.rounds (delete_index hs.local_index d.index_table) in
      elim (Outcome-cases assigned) [
        | inl (t, e) ↦ rw (assign_initiation, e) (SameKeys-handshake peer _ t d)
        | inr (inl (t, e)) ↦ rw (assign_initiation, e) (SameKeys-handshake peer _ t d)
        | inr (inr (i, t, e)) ↦ rw (assign_initiation, e) (SameKeys-handshake peer _ t d)
      ]

  encrypt_initiation-SameKeys :
      (ephemeral ss : Bytes) (hs : Handshake) (d : Device)
      → SameKeys peer d (encrypt_initiation c peer timestamp draws ephemeral ss hs d).0
  unfolding encrypt_initiation
  encrypt_initiation-SameKeys ephemeral ss hs d =
      elim (Bool-cases (is_zero hs.precomputed_static_static)) [
        | inl e ↦ rw (encrypt_initiation, e) (SameKeys-handshake peer _ d.index_table d)
        | inr e ↦ rw (encrypt_initiation, e) (assign_initiation-SameKeys _ _ d)
      ]

  pub create_message_initiation-SameKeys :
      (d : Device) → SameKeys peer d (create_message_initiation c peer timestamp draws d).0
  unfolding create_message_initiation
  create_message_initiation-SameKeys d = elim (Bool-cases draws.ephemeral_ok) [
    | inr e ↦ rw (create_message_initiation, e) (SameKeys-handshake peer _ d.index_table d)
    | inl e ↦
        elim (Option-cases
          (shared_secret c (clamp draws.ephemeral) (handshake_of d peer).remote_static)) [
            | inl s ↦
                rw (create_message_initiation, e, s) (SameKeys-handshake peer _ d.index_table d)
            | inr (ss, s) ↦
                rw (create_message_initiation, e, s) (encrypt_initiation-SameKeys _ ss _ d)
          ]
  ]
