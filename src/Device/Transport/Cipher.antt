-- ===== src/Device/Transport/Cipher.antt =====
-- device/send.go and receive.go: the transport message of a packet, sealed and opened.
use wgservermgr.Prelude.{
  ℕ, ◌+◌, ◌-◌, ◌%◌, not, Option, none, some, [], ◌++◌, ltb, ◌==◌, length, if◌then◌else◌,
}
use wgservermgr.Prelude.Int.{pos, ◌+ℤ◌, ltb_ℤ}
use wgservermgr.Prelude.Bytes.{Bytes, zeros, take, drop, le_bytes, le_number}
use wgservermgr.Mgmt.Time.{Time}
use wgservermgr.Device.IndexTable.{lookup_index}
use wgservermgr.Device.Noise.Keys.{Primitives}
use wgservermgr.Device.Noise.State.{Keypair, Device}
use wgservermgr.Device.Transport.Timers.{reject_after_time}

abbrev pub padding_multiple : ℕ
padding_multiple = 16

abbrev pub message_transport_header_size : ℕ
message_transport_header_size = 16

-- The header and the tag of the AEAD.
abbrev pub message_transport_size : ℕ
message_transport_size = message_transport_header_size + 16

abbrev pub message_transport_type : ℕ
message_transport_type = 4

-- `(n + PaddingMultiple - 1) & ^(PaddingMultiple - 1)`, which clears the low four bits.
abbrev pub round_up : ℕ → ℕ
round_up n = let sum = n + padding_multiple - 1 in sum - sum % padding_multiple

-- `calculatePaddingSize`
unfoldable pub calculate_padding_size : ℕ → ℕ → ℕ
calculate_padding_size packet_size mtu =
    let last_unit = if ltb mtu packet_size then packet_size % mtu else packet_size in
    let padded_size = round_up last_unit in
    if mtu == 0
    then round_up packet_size - packet_size
    else (if ltb mtu padded_size then mtu else padded_size) - last_unit

-- The nonce of the AEAD, of 12 bytes.
abbrev pub transport_nonce : ℕ → Bytes
transport_nonce counter = zeros 4 ++ le_bytes 8 counter

-- The header that `RoutineEncryption` writes.
abbrev pub transport_header : ℕ → ℕ → Bytes
transport_header remote_index nonce =
    le_bytes 4 message_transport_type ++ (le_bytes 4 remote_index ++ le_bytes 8 nonce)

abbrev pub padded : ℕ → Bytes → Bytes
padded mtu packet = packet ++ zeros (calculate_padding_size (length packet) mtu)

-- What came in of a packet: the number of its keypair, its counter and its content.
pub record Inbound : Type 0 where
  pub keypair : ℕ
  pub counter : ℕ
  pub packet : Option Bytes

module _ (c : Primitives) where
  -- `RoutineEncryption`, of one element.
  unfoldable pub encrypt : ℕ → Keypair → ℕ → Bytes → Bytes
  encrypt mtu keypair nonce packet =
      transport_header keypair.remote_index nonce
      ++ c.seal keypair.send (transport_nonce nonce) (padded mtu packet) []

  -- `RoutineDecryption`, of one element: none for a packet that does not open.
  unfoldable pub decrypt : ℕ → Keypair → Bytes → Inbound
  decrypt k keypair packet =
      let counter = le_number (take 8 (drop 8 packet)) in
      record {
        keypair = k;
        counter = counter;
        packet = c.unseal keypair.receive (transport_nonce counter) (drop 16 packet) [];
      }

-- The peer and the keypair of an entry of the index table, at the time `now`, none where there is no
-- keypair or it is too old.
unfoldable pub usable_keypair : Time → Device → Option ℕ → Option ℕ → Option (Option ℕ × ℕ)
usable_keypair now d peer none = none
usable_keypair now d peer (some k) =
    if ltb_ℤ ((d.keypairs k).created +ℤ pos reject_after_time) now then none else some (peer, k)

-- The transport messages of `RoutineReceiveIncoming`, at the time `now`: the peer and the keypair
-- that a message is for, none where it is dropped or of another type.
unfoldable pub receive_keypair : Time → Device → Bytes → Option (Option ℕ × ℕ)
unfolding usable_keypair
receive_keypair now d packet =
    let entry = lookup_index (le_number (take 4 (drop 4 packet))) d.index_table in
    if ltb (length packet) message_transport_size
    then none
    else if not (le_number (take 4 packet) == message_transport_type)
    then none
    else usable_keypair now d entry.peer entry.keypair
