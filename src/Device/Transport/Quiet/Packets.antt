-- ===== src/Device/Transport/Quiet/Packets.antt =====
-- device/send.go and receive.go: the packets of a stopped peer set no timer.
use wgservermgr.Prelude.{
  ℕ, ◌+◌, ◌%◌, ◌^◌, ◌==◌, length, refl, Bool, true, false, not, ◌||◌, Option, none, some, List, [],
  ◌∷◌, map, if◌then◌else◌,
}
use wgservermgr.Prelude.Bytes.{Bytes}
use wgservermgr.Replay.{validate_counter}
use wgservermgr.Device.Noise.Session.{received_with_keypair}
use wgservermgr.Device.Transport.State.{Element, Link, Host, Outside, is_running}
use wgservermgr.Device.Transport.Events.{
  timers_handshake_complete, timers_any_authenticated_packet_traversal, timers_data_sent,
  timers_any_authenticated_packet_sent,
}
use wgservermgr.Device.Transport.Cipher.{Inbound}
use wgservermgr.Device.Transport.Packets.{AllowedIps}
use wgservermgr.Device.Transport.Send.{
  reject_after_messages, send_buffers, send_handshake_initiation, flush_staged_packets,
}
use wgservermgr.Device.Transport.Expire.{zero_and_flush_link}
use wgservermgr.Device.Transport.Life.{
  read_packets, keep_fresh_sending, keep_key_fresh_sending, keep_fresh_receiving,
  keep_key_fresh_receiving, is_data, message_of, send_container, next_container,
}
use wgservermgr.Device.Transport.Receive.{
  Batch, set_endpoint_from_packet, set_filter, accept_content, confirm_keypair, receive_packet,
  receive_packets, after_valid, receive_container,
}
use wgservermgr.Device.Transport.Steady.{
  Steady, le_refl, timers_handshake_complete-Steady,
  timers_any_authenticated_packet_traversal-Steady, timers_any_authenticated_packet_received-Steady,
  timers_data_sent-Steady, timers_data_received-Steady, timers_any_authenticated_packet_sent-Steady,
}
use wgservermgr.Device.Transport.Steady.Initiation.{
  send_handshake_initiation-Steady, send_buffers-Steady,
}
use wgservermgr.Device.Transport.Quiet.{
  Tame, Tame-refl, Tame-trans, Steady-Tame, untimed-Tame, if-Tame, send_staged_packets-Tame,
  zero_and_flush_all-running, received_with_keypair-running,
}

module _ (h : Host) (o : Outside) where
  pub steady : (l l' : Link) → Steady h l l' → Tame h l l'
  steady l l' s = Steady-Tame h l l' s

  pub initiation : (b : Bool) (l : Link) → Tame h l (send_handshake_initiation h o b l)
  initiation b l = steady l _ (send_handshake_initiation-Steady h o b l)

  pub zero_and_flush_link-Tame : (l : Link) → Tame h l (zero_and_flush_link h o l)
  unfolding zero_and_flush_link flush_staged_packets
  zero_and_flush_link-Tame l = untimed-Tame h l _ (zero_and_flush_all-running h l.device) refl

  pub read_packets-Tame : (packets : List Bytes) (l : Link) → Tame h l (read_packets h o packets l)
  unfolding read_packets
  read_packets-Tame packets l =
      if-Tame h (is_running h l) l _ l
        (Tame-trans h l _ _ (untimed-Tame h l _ refl refl) (send_staged_packets-Tame h o _))
        (Tame-refl h l)

  keep_fresh_sending-Tame : (k : Option ℕ) (l : Link) → Tame h l (keep_fresh_sending h o k l)
  unfolding keep_fresh_sending
  keep_fresh_sending-Tame none l = Tame-refl h l
  keep_fresh_sending-Tame (some k) l = if-Tame h _ l _ l (initiation false l) (Tame-refl h l)

  -- The flags of the timers change, the timers do not.
  pub flags-Tame :
      (l : Link) (attempts : ℕ) (another last_minute : Bool)
      → Tame h l (record l {
        timers = record l.timers {
          handshake_attempts = attempts;
          need_another_keepalive = another;
          sent_last_minute_handshake = last_minute;
        };
      })
  flags-Tame l attempts another last_minute = record { running = refl; idle = λ r. le_refl _ }

  keep_fresh_receiving-Tame : (k : Option ℕ) (l : Link) → Tame h l (keep_fresh_receiving h o k l)
  unfolding keep_fresh_receiving
  keep_fresh_receiving-Tame none l = Tame-refl h l
  keep_fresh_receiving-Tame (some k) l =
      if-Tame h _ l _ l
        (Tame-trans h l _ _
          (flags-Tame l l.timers.handshake_attempts l.timers.need_another_keepalive true)
          (initiation false _))
        (Tame-refl h l)

  keep_key_fresh_receiving-Tame : (l : Link) → Tame h l (keep_key_fresh_receiving h o l)
  unfolding keep_key_fresh_receiving
  keep_key_fresh_receiving-Tame l =
      if-Tame h l.timers.sent_last_minute_handshake l l _ (Tame-refl h l)
        (keep_fresh_receiving-Tame (l.device.peers h.peer).keypairs.current l)

  pub send_container-Tame :
      (elems : List Element) (l : Link) → Tame h l (send_container h o elems l)
  unfolding send_container keep_key_fresh_sending
  send_container-Tame elems l =
      let messages = map (message_of h o l.device) elems in
      let l0 = timers_any_authenticated_packet_traversal h o l in
      let l1 = timers_any_authenticated_packet_sent h o l0 in
      let l2 = (send_buffers o messages l1).0 in
      let l3 = if is_data h o messages then timers_data_sent h o l2 else l2 in
      Tame-trans h l l0 _ (steady l l0 (timers_any_authenticated_packet_traversal-Steady h o l)) (
        Tame-trans h l0 l1 _ (steady l0 l1 (timers_any_authenticated_packet_sent-Steady h o l0)) (
          Tame-trans h l1 l2 _ (steady l1 l2 (send_buffers-Steady h o messages l1)) (
            Tame-trans h l2 l3 _
              (if-Tame h (is_data h o messages) l2 _ l2
                (steady l2 _ (timers_data_sent-Steady h o l2)) (Tame-refl h l2))
              (if-Tame h ((send_buffers o messages l1).1 || o.retried_ok) l3 _ l3
                (keep_fresh_sending-Tame (l3.device.peers h.peer).keypairs.current l3)
                (Tame-refl h l3)))))

  pub next_container-Tame :
      (outbound : List (List Element)) (l : Link) → Tame h l (next_container h o outbound l)
  unfolding next_container
  next_container-Tame [] l = Tame-refl h l
  next_container-Tame (elems ∷ outbound) l =
      let l1 : Link = record l { outbound = outbound } in
      let t = untimed-Tame h l l1 refl refl in
      if-Tame h (not (is_running h l)) l l1 _ t
        (Tame-trans h l l1 _ t (send_container-Tame elems l1))

  pub endpoint-Tame : (e : ℕ) (l : Link) → Tame h l (set_endpoint_from_packet e l)
  unfolding set_endpoint_from_packet
  endpoint-Tame e l =
      if-Tame h l.disable_roaming l l _ (Tame-refl h l) (untimed-Tame h l _ refl refl)

  confirm_keypair-Tame :
      (table : AllowedIps) (k e : ℕ) (l : Link) → Tame h l (confirm_keypair h o table k e l)
  unfolding confirm_keypair
  confirm_keypair-Tame table k e l =
      let d = received_with_keypair h.peer k l.device in
      let l1 : Link = record l { device = d.0 } in
      let l2 = set_endpoint_from_packet e l1 in
      let l3 = timers_handshake_complete h o l2 in
      let t = untimed-Tame h l l1 (received_with_keypair-running h k l.device) refl in
      if-Tame h d.1 l _ l1
        (Tame-trans h l l1 _ t (
          Tame-trans h l1 l2 _ (endpoint-Tame e l1) (
            Tame-trans h l2 l3 _ (steady l2 l3 (timers_handshake_complete-Steady h o l2))
              (send_staged_packets-Tame h o l3))))
        t

  -- A batch whose peer is tame with regard to the one at the start.
  if_batch-Tame :
      (b : Bool) (l : Link) (x y : Batch)
      → Tame h l x.link
      → Tame h l y.link
      → Tame h l (if b then x else y).link
  if_batch-Tame true l x y s t = s
  if_batch-Tame false l x y s t = t

  receive_packet-Tame :
      (table : AllowedIps) (k counter e : ℕ) (packet : Option Bytes) (b : Batch)
      → Tame h b.link (receive_packet h o table k counter e packet b).link
  unfolding receive_packet accept_content
  receive_packet-Tame table k counter e none b = Tame-refl h b.link
  receive_packet-Tame table k counter e (some packet) b =
      let l = b.link in
      let v = validate_counter (l.device.keypairs k).replay_filter counter reject_after_messages in
      let l1 : Link = record l { device = set_filter k v.0 l.device } in
      let t = untimed-Tame h l l1 refl refl in
      let t' = Tame-trans h l l1 _ t (confirm_keypair-Tame table k e l1) in
      if_batch-Tame (not v.1) l (record b { link = l1 }) _ t
        (if_batch-Tame (length packet == 0) l _ _ t' t')

  receive_packets-Tame :
      (table : AllowedIps) (elems : List (ℕ × Inbound)) (b : Batch)
      → Tame h b.link (receive_packets h o table elems b).link
  unfolding receive_packets
  receive_packets-Tame table [] b = Tame-refl h b.link
  receive_packets-Tame table ((e, elem) ∷ elems) b =
      let b1 = receive_packet h o table elem.keypair elem.counter e elem.packet b in
      Tame-trans h b.link b1.link _
        (receive_packet-Tame table elem.keypair elem.counter e elem.packet b)
        (receive_packets-Tame table elems b1)

  after_valid-Tame :
      (table : AllowedIps) (e : Option ℕ) (l : Link) → Tame h l (after_valid h o table e l)
  unfolding after_valid
  after_valid-Tame table none l = Tame-refl h l
  after_valid-Tame table (some e) l =
      let l1 = set_endpoint_from_packet e l in
      let l2 = keep_key_fresh_receiving h o l1 in
      let l3 = timers_any_authenticated_packet_traversal h o l2 in
      Tame-trans h l l1 _ (endpoint-Tame e l) (
        Tame-trans h l1 l2 _ (keep_key_fresh_receiving-Tame l1) (
          Tame-trans h l2 l3 _
            (steady l2 l3 (timers_any_authenticated_packet_traversal-Steady h o l2))
            (steady l3 _ (timers_any_authenticated_packet_received-Steady h o l3))))

  pub receive_container-Tame :
      (table : AllowedIps) (elems : List (ℕ × Inbound)) (l : Link)
      → Tame h l (receive_container h o table elems l).0
  unfolding receive_container
  receive_container-Tame table elems l =
      let b : Batch = record {
        link = l;
        valid_tail = none;
        data_received = false;
        rx_bytes = 0;
        bufs = [];
      } in
      let b' = receive_packets h o table elems b in
      let l1 : Link = record b'.link { rx_bytes = (b'.link.rx_bytes + b'.rx_bytes) % 2 ^ 64 } in
      let l2 = after_valid h o table b'.valid_tail l1 in
      Tame-trans h l b'.link _ (receive_packets-Tame table elems b) (
        Tame-trans h b'.link l1 _ (untimed-Tame h b'.link l1 refl refl) (
          Tame-trans h l1 l2 _ (after_valid-Tame table b'.valid_tail l1) (
            if-Tame h b'.data_received l2 _ l2 (steady l2 _ (timers_data_received-Steady h o l2))
              (Tame-refl h l2))))
