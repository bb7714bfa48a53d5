-- ===== src/Device/Transport/Life.antt =====
-- device/peer.go, send.go and receive.go: the life of a peer, from its start to its stop.
use wgservermgr.Prelude.{
  ℕ, ◌+◌, ◌-◌, ◌^◌, Bool, true, false, not, ◌&&◌, ◌||◌, Option, none, some, List, [], ◌∷◌, ◌==◌,
  map, ltb, length, if◌then◌else◌,
}
use wgservermgr.Prelude.Int.{pos, ◌-ℤ◌, ltb_ℤ}
use wgservermgr.Prelude.Bytes.{Bytes}
use wgservermgr.Mgmt.Time
use wgservermgr.Mgmt.Time.{Time, second}
use wgservermgr.Device.IndexTable.{delete_index}
use wgservermgr.Device.Noise.State.{Device, handshake_of, set_handshake, set_peer}
use wgservermgr.Device.Noise.Clear.{clear_handshake}
use wgservermgr.Device.Transport.Timers.{
  timers_start, timers_stop, rekey_timeout, rekey_after_time, keepalive_timeout, reject_after_time,
}
use wgservermgr.Device.Transport.State.{Element, Link, Host, Outside, is_closed, is_running}
use wgservermgr.Device.Transport.Events.{
  timers_data_sent, timers_any_authenticated_packet_sent, timers_any_authenticated_packet_traversal,
}
use wgservermgr.Device.Transport.Cipher.{encrypt, message_transport_size}
use wgservermgr.Device.Transport.Send.{
  reject_after_messages, stage_packets, set_send_nonce, send_buffers, send_handshake_initiation,
  send_staged_packets,
}
use wgservermgr.Device.Transport.Expire.{zero_and_flush_link}

abbrev pub rekey_after_messages : ℕ
rekey_after_messages = 2 ^ 60

abbrev pub set_running : Host → Bool → Link → Link
set_running h b l = record l {
  device = set_peer h.peer (record (l.device.peers h.peer) { is_running = b }) l.device;
}

-- A time that lets the next initiation go at once.
abbrev pub long_ago : Time → Time
long_ago now = now -ℤ pos (rekey_timeout + second)

-- `keypair.sendNonce.Store(RejectAfterMessages)` where there is a keypair.
unfoldable pub expire_keypair : Option ℕ → Device → Device
expire_keypair none d = d
expire_keypair (some k) d = set_send_nonce k reject_after_messages d

module _ (h : Host) (o : Outside) where
  -- `Peer.Start`
  unfoldable pub start : Link → Link
  start l =
      if is_closed l.state
      then l
      else if is_running h l
      then l
      else set_running h true (record l {
        last_sent_handshake = long_ago o.now;
        timers = timers_start l.timers;
        outbound = [];
      })

  -- `Peer.Stop`, which waits until the sender has dropped what is left in the queue.
  unfoldable pub stop : Link → Link
  stop l =
      if not (is_running h l)
      then l
      else let l1 = set_running h false l in
        zero_and_flush_link h o (record l1 { timers = timers_stop l1.timers; outbound = [] })

  -- `ExpireCurrentKeypairs`
  unfoldable pub expire_current_keypairs : Link → Link
  expire_current_keypairs l =
      let d = l.device in
      let hs = handshake_of d h.peer in
      let d1 =
        set_handshake h.peer (clear_handshake hs)
          (record d { index_table = delete_index hs.local_index d.index_table }) in
      let pairs = (d.peers h.peer).keypairs in
      record l {
        device = expire_keypair pairs.next (expire_keypair pairs.current d1);
        last_sent_handshake = long_ago o.now;
      }

  -- What `RoutineReadFromTUN` does with the packets for the peer that one read gives.
  unfoldable pub read_packets : List Bytes → Link → Link
  read_packets packets l =
      let elems = map (λ b. record { packet = b; nonce = 0; keypair = none }) packets in
      if is_running h l
      then send_staged_packets h o (record l { staged = stage_packets elems l.staged })
      else l

  -- `keepKeyFreshSending`, for the current keypair.
  unfoldable pub keep_fresh_sending : Option ℕ → Link → Link
  keep_fresh_sending none l = l
  keep_fresh_sending (some k) l =
      let keypair = l.device.keypairs k in
      if ltb rekey_after_messages keypair.send_nonce
        || (keypair.is_initiator && ltb_ℤ (pos rekey_after_time) (Time.sub o.now keypair.created))
      then send_handshake_initiation h o false l
      else l

  unfoldable pub keep_key_fresh_sending : Link → Link
  keep_key_fresh_sending l = keep_fresh_sending (l.device.peers h.peer).keypairs.current l

  -- `keepKeyFreshReceiving`, for the current keypair.
  unfoldable pub keep_fresh_receiving : Option ℕ → Link → Link
  keep_fresh_receiving none l = l
  keep_fresh_receiving (some k) l =
      let keypair = l.device.keypairs k in
      if keypair.is_initiator
        && ltb_ℤ (pos (reject_after_time - keepalive_timeout - rekey_timeout))
            (Time.sub o.now keypair.created)
      then send_handshake_initiation h o false
          (record l { timers = record l.timers { sent_last_minute_handshake = true } })
      else l

  unfoldable pub keep_key_fresh_receiving : Link → Link
  keep_key_fresh_receiving l =
      if l.timers.sent_last_minute_handshake
      then l
      else keep_fresh_receiving (l.device.peers h.peer).keypairs.current l

  -- The message of an element, as `RoutineEncryption` leaves it. Every element of the queue has a
  -- keypair.
  unfoldable pub message_of : Device → Element → Bytes
  message_of d elem = elim elem.keypair [
    | none ↦ elem.packet
    | some k ↦ encrypt h.primitives o.mtu (d.keypairs k) elem.nonce elem.packet
  ]

  -- Whether a message is more than a keepalive.
  abbrev pub is_data : List Bytes → Bool
  is_data [] = false
  is_data (b ∷ bs) = not (length b == message_transport_size) || is_data bs

  -- One container of `RoutineSequentialSender`, its elements encrypted.
  unfoldable pub send_container : List Element → Link → Link
  send_container elems l =
      let messages = map (message_of l.device) elems in
      let l1 =
        timers_any_authenticated_packet_sent h o
          (timers_any_authenticated_packet_traversal h o l) in
      let (l2, ok) = send_buffers o messages l1 in
      let l3 = if is_data messages then timers_data_sent h o l2 else l2 in
      if ok || o.retried_ok then keep_key_fresh_sending l3 else l3

  unfoldable pub next_container : List (List Element) → Link → Link
  next_container [] l = l
  next_container (elems ∷ outbound) l =
      let l1 : Link = record l { outbound = outbound } in
      if not (is_running h l) then l1 else send_container elems l1

  -- One turn of `RoutineSequentialSender`.
  unfoldable pub sequential_send : Link → Link
  sequential_send l = next_container l.outbound l
