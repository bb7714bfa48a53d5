-- ===== src/Device/Noise/Session.antt =====
-- device/noise-protocol.go and keypair.go: the keypair that a finished handshake gives, and how the
-- keypairs of a peer take turns.
use wgservermgr.Prelude.{
  ℕ, ◌+◌, Bool, true, false, not, Option, none, some, ◌==◌, if◌then◌else◌, [], update,
}
use wgservermgr.Prelude.Bytes.{Bytes}
use wgservermgr.Mgmt.Time.{Time}
use wgservermgr.Replay
use wgservermgr.Device.IndexTable.{delete_index, swap_index}
use wgservermgr.Device.Noise.Keys.{Primitives, kdf2}
use wgservermgr.Device.Noise.State.{
  HandshakeState, zeroed, Keypair, Keypairs, Device, handshake_of, set_peer, set_zero,
}

-- `DeleteKeypair`
unfoldable pub delete_keypair : Option ℕ → Device → Device
delete_keypair none d = d
delete_keypair (some k) d = record d {
  index_table = delete_index (d.keypairs k).local_index d.index_table;
}

abbrev pub set_keypairs : ℕ → Keypairs → Device → Device
set_keypairs n pairs d = set_peer n (record (d.peers n) { keypairs = pairs }) d

-- The end of `BeginSymmetricSession`: the new keypair `k` takes its place among the peer's.
unfoldable pub rotate_keypairs : ℕ → Bool → ℕ → Device → Device
rotate_keypairs peer is_initiator k d =
    let pairs = (d.peers peer).keypairs in
    if is_initiator
    then elim pairs.next [
      | some next ↦ delete_keypair pairs.previous (
          delete_keypair pairs.current
            (set_keypairs peer (record { current = some k; previous = some next; next = none }) d))
      | none ↦
          delete_keypair pairs.previous (
            set_keypairs peer (record { current = some k; previous = pairs.current; next = none })
              d)
    ]
    else delete_keypair pairs.previous (
        delete_keypair pairs.next
          (set_keypairs peer (record pairs { previous = none; next = some k }) d))

-- The zeroing of the handshake, the new keypair with its index, and the rotation.
unfoldable pub install_keypair : ℕ → Time → Bool → Bytes → Bytes → Device → Device
install_keypair peer now is_initiator send receive d =
    let h = handshake_of d peer in
    let k = d.next_keypair in
    let keypair : Keypair = record {
      send_nonce = 0;
      send = send;
      receive = receive;
      replay_filter = Replay.reset Replay.empty;
      is_initiator = is_initiator;
      created = now;
      local_index = h.local_index;
      remote_index = h.remote_index;
    } in
    let h' = record h {
      chain_key = set_zero h.chain_key;
      hash = set_zero h.hash;
      local_ephemeral = set_zero h.local_ephemeral;
      state = zeroed;
      local_index = 0;
    } in
    rotate_keypairs peer is_initiator k (
      set_peer peer (record (d.peers peer) { handshake = h' })
        (record d {
          index_table = swap_index h.local_index (some k) d.index_table;
          keypairs = update d.keypairs k keypair;
          next_keypair = k + 1;
        }))

-- `BeginSymmetricSession`, and whether it ends without an error.
unfoldable pub begin_symmetric_session : Primitives → ℕ → Time → Device → Device × Bool
begin_symmetric_session c peer now d =
    let h = handshake_of d peer in
    let (key1, key2) = kdf2 c h.chain_key [] in
    elim h.state [
      | HandshakeState.response_consumed ↦ (install_keypair peer now true key1 key2 d, true)
      | HandshakeState.response_created ↦ (install_keypair peer now false key2 key1 d, true)
      | HandshakeState.zeroed ↦ (d, false)
      | HandshakeState.initiation_created ↦ (d, false)
      | HandshakeState.initiation_consumed ↦ (d, false)
    ]

-- `peer.keypairs.next.Load() == receivedKeypair`
abbrev pub is_next : Option ℕ → ℕ → Bool
is_next none k = false
is_next (some j) k = j == k

-- `ReceivedWithKeypair`. Nothing comes between the two checks here.
unfoldable pub received_with_keypair : ℕ → ℕ → Device → Device × Bool
received_with_keypair peer k d =
    let pairs = (d.peers peer).keypairs in
    if not (is_next pairs.next k) then (d, false) else (
      delete_keypair pairs.previous (
          set_keypairs peer (record { current = pairs.next; previous = pairs.current; next = none })
            d),
      true,
    )
