-- ===== src/Device/Transport/Receive.antt =====
-- device/receive.go: what a peer does with the transport messages that came in.
use wgservermgr.Prelude.{
  ℕ, ◌+◌, ◌%◌, ◌^◌, Bool, true, false, not, Option, none, some, List, [], ◌∷◌, ◌++◌, length, update,
  ◌==◌, if◌then◌else◌,
}
use wgservermgr.Prelude.Bytes.{Bytes}
use wgservermgr.Replay.{Filter, validate_counter}
use wgservermgr.Device.Noise.State.{Device}
use wgservermgr.Device.Noise.Session.{received_with_keypair}
use wgservermgr.Device.Transport.State.{Link, Host, Outside}
use wgservermgr.Device.Transport.Events.{
  timers_handshake_complete, timers_any_authenticated_packet_traversal,
  timers_any_authenticated_packet_received, timers_data_received,
}
use wgservermgr.Device.Transport.Cipher.{Inbound, message_transport_size}
use wgservermgr.Device.Transport.Packets.{AllowedIps, accept_packet}
use wgservermgr.Device.Transport.Send.{reject_after_messages, send_staged_packets}
use wgservermgr.Device.Transport.Life.{keep_key_fresh_receiving}

-- `SetEndpointFromPacket`
unfoldable pub set_endpoint_from_packet : ℕ → Link → Link
set_endpoint_from_packet endpoint l =
    if l.disable_roaming then l else record l { endpoint = some endpoint; clear_src_on_tx = false }

abbrev pub set_filter : ℕ → Filter → Device → Device
set_filter k f d = record d {
  keypairs = update d.keypairs k (record (d.keypairs k) { replay_filter = f });
}

-- Between two elements of a container: the peer, the endpoint of the last valid one, whether one had
-- data, the bytes so far, and the packets for the TUN device.
pub record Batch : Type 0 where
  pub link : Link
  pub valid_tail : Option ℕ
  pub data_received : Bool
  pub rx_bytes : ℕ
  pub bufs : List Bytes

module _ (h : Host) (o : Outside) (table : AllowedIps) where
  -- The packet of an element whose counter is valid.
  unfoldable pub accept_content : Bytes → Batch → Batch
  accept_content packet b =
      let accepted : List Bytes = elim (accept_packet table h.peer packet) [
        | none ↦ []
        | some p ↦ p ∷ []
      ] in
      if length packet == 0 then b else record b { data_received = true; bufs = b.bufs ++ accepted }

  -- `ReceivedWithKeypair`, and what follows where the keypair becomes the current one.
  unfoldable pub confirm_keypair : ℕ → ℕ → Link → Link
  confirm_keypair k endpoint l =
      let (d, confirmed) = received_with_keypair h.peer k l.device in
      let l1 : Link = record l { device = d } in
      if confirmed
      then send_staged_packets h o
          (timers_handshake_complete h o (set_endpoint_from_packet endpoint l1))
      else l1

  -- One element of the loop of `RoutineSequentialReceiver`, decrypted.
  unfoldable pub receive_packet : ℕ → ℕ → ℕ → Option Bytes → Batch → Batch
  receive_packet k counter endpoint none b = b
  receive_packet k counter endpoint (some packet) b =
      let l = b.link in
      let (f, valid) =
        validate_counter (l.device.keypairs k).replay_filter counter reject_after_messages in
      let l1 : Link = record l { device = set_filter k f l.device } in
      if not valid
      then record b { link = l1 }
      else accept_content packet (record b {
        link = confirm_keypair k endpoint l1;
        valid_tail = some endpoint;
        rx_bytes = b.rx_bytes + (length packet + message_transport_size);
      })

  unfoldable pub receive_packets : List (ℕ × Inbound) → Batch → Batch
  receive_packets [] b = b
  receive_packets ((endpoint, elem) ∷ elems) b =
      receive_packets elems (receive_packet elem.keypair elem.counter endpoint elem.packet b)

  -- After the loop, where an element was valid.
  unfoldable pub after_valid : Option ℕ → Link → Link
  after_valid none l = l
  after_valid (some endpoint) l = timers_any_authenticated_packet_received h o (
      timers_any_authenticated_packet_traversal h o
        (keep_key_fresh_receiving h o (set_endpoint_from_packet endpoint l)))

  -- One container of `RoutineSequentialReceiver`: the peer, and the packets for the TUN device.
  unfoldable pub receive_container : List (ℕ × Inbound) → Link → Link × List Bytes
  receive_container elems l =
      let b : Batch = record {
        link = l;
        valid_tail = none;
        data_received = false;
        rx_bytes = 0;
        bufs = [];
      } in
      let b' = receive_packets elems b in
      let l1 = b'.link in
      let l2 =
        after_valid b'.valid_tail (record l1 { rx_bytes = (l1.rx_bytes + b'.rx_bytes) % 2 ^ 64 }) in
      (if b'.data_received then timers_data_received h o l2 else l2, b'.bufs)
