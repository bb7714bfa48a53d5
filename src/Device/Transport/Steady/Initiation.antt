-- ===== src/Device/Transport/Steady/Initiation.antt =====
-- device/send.go: what the sending of an initiation leaves alone in a peer.
use wgservermgr.Prelude.{
  ℕ, refl, Bool, true, false, Option, none, some, inl, inr, if◌then◌else◌, Bool-cases, List, [],
  ◌∷◌,
}
use wgservermgr.Prelude.Int.{pos, ltb_ℤ}
use wgservermgr.Prelude.Bytes.{Bytes}
use wgservermgr.Mgmt.Time
use wgservermgr.Device.Cookie.{CookieGenerator}
use wgservermgr.Device.Noise.Messages.{MessageInitiation}
use wgservermgr.Device.Noise.State.{Device, Sent, sent, failed, waiting}
use wgservermgr.Device.Noise.Initiation.{create_message_initiation}
use wgservermgr.Device.Transport.Timers.{rekey_timeout}
use wgservermgr.Device.Transport.State.{Link, Host, Outside, is_closed}
use wgservermgr.Device.Transport.Events.{
  set_attempts, timers_any_authenticated_packet_sent, timers_any_authenticated_packet_traversal,
}
use wgservermgr.Device.Transport.Send.{
  send_to, send_buffers, transmit_packet, transmit_initiation, initiate, send_handshake_initiation,
}
use wgservermgr.Device.Transport.Initiating.{SameKeys, create_message_initiation-SameKeys}
use wgservermgr.Device.Transport.Steady.{
  Steady, Steady-refl, le_refl, Steady-trans, if-Steady, Untouched-Steady,
  timers_any_authenticated_packet_traversal-Steady, timers_any_authenticated_packet_sent-Steady,
  timers_handshake_initiated-Steady,
}

module _ (h : Host) (o : Outside) where
  send_to-Steady : (bs : List Bytes) (l : Link) (e : Option ℕ) → Steady h l (send_to o bs l e).0
  unfolding send_to
  send_to-Steady bs l none = Steady-refl h l
  send_to-Steady bs l (some e) = Untouched-Steady h l _ (refl, refl, refl, refl)

  pub send_buffers-Steady : (bs : List Bytes) (l : Link) → Steady h l (send_buffers o bs l).0
  unfolding send_buffers
  send_buffers-Steady bs l = elim (Bool-cases (is_closed l.state)) [
    | inl e ↦ rw (send_buffers, e) (Steady-refl h l)
    | inr e ↦ rw (send_buffers, e) (send_to-Steady bs l l.endpoint)
  ]

  transmit_packet-Steady :
      (p : Option (CookieGenerator × Bytes)) (l : Link) → Steady h l (transmit_packet h o p l)
  unfolding transmit_packet
  transmit_packet-Steady none l = Steady-refl h l
  transmit_packet-Steady (some (generator, packet)) l =
      let l1 : Link = record l { cookie_generator = generator } in
      let l2 = timers_any_authenticated_packet_traversal h o l1 in
      let l3 = timers_any_authenticated_packet_sent h o l2 in
      let l4 = (send_buffers o (packet ∷ []) l3).0 in
      Steady-trans h l l1 _ (Untouched-Steady h l l1 (refl, refl, refl, refl)) (
        Steady-trans h l1 l2 _ (timers_any_authenticated_packet_traversal-Steady h o l1) (
          Steady-trans h l2 l3 _ (timers_any_authenticated_packet_sent-Steady h o l2) (
            Steady-trans h l3 l4 _ (send_buffers-Steady _ l3)
              (timers_handshake_initiated-Steady h o l4))))

  transmit_initiation-Steady :
      (made : Sent MessageInitiation) (l : Link) → Steady h l (transmit_initiation h o made l)
  unfolding transmit_initiation
  transmit_initiation-Steady (sent msg) l = transmit_packet-Steady _ l
  transmit_initiation-Steady failed l = Steady-refl h l
  transmit_initiation-Steady waiting l = Steady-refl h l

  -- A device with the keys of the old one takes its place.
  device-Steady :
      (d : Device) (l : Link) → SameKeys h.peer l.device d → Steady h l (record l { device = d })
  device-Steady d l same = record {
    keypairs = same.keypairs;
    held = same.held;
    running = same.running;
    state = refl;
    outbound = refl;
    idle = λ r. le_refl _;
  }

  initiate-Steady : (l : Link) → Steady h l (initiate h o l)
  unfolding initiate
  initiate-Steady l =
      let made = create_message_initiation h.primitives h.peer o.timestamp o.draws l.device in
      Steady-trans h l (record l { device = made.0 }) _
        (device-Steady made.0 l
          (create_message_initiation-SameKeys h.primitives h.peer o.timestamp o.draws l.device))
        (transmit_initiation-Steady made.1 _)

  attempts-Steady : (n : ℕ) (l : Link) → Steady h l (set_attempts n l)
  attempts-Steady n l = record {
    keypairs = refl;
    held = refl;
    running = refl;
    state = refl;
    outbound = refl;
    idle = λ r. le_refl _;
  }

  guarded-Steady :
      (l : Link)
      → Steady h l (
          if ltb_ℤ (Time.sub o.now l.last_sent_handshake) (pos rekey_timeout)
          then l
          else initiate h o (record l { last_sent_handshake = o.now }))
  guarded-Steady l = if-Steady h _ l _ _ (Steady-refl h l) (
      Steady-trans h l (record l { last_sent_handshake = o.now }) _
        (Untouched-Steady h l _ (refl, refl, refl, refl)) (initiate-Steady _))

  pub send_handshake_initiation-Steady :
      (is_retry : Bool) (l : Link) → Steady h l (send_handshake_initiation h o is_retry l)
  unfolding send_handshake_initiation
  send_handshake_initiation-Steady true l = guarded-Steady l
  send_handshake_initiation-Steady false l =
      Steady-trans h l (set_attempts 0 l) _ (attempts-Steady 0 l) (guarded-Steady _)
