-- ===== src/Device/Transport/Quiet/Handshakes.antt =====
-- device/receive.go and send.go: the handshakes of a stopped peer set no timer.
use wgservermgr.Prelude.{
  ℕ, Bool, ◌≡◌, refl, ap, ◌∙◌, true, false, Option, none, some, Bool-cases, Option-cases, inl, inr,
  [], ◌∷◌, length,
}
use wgservermgr.Prelude.Bytes.{Bytes}
use wgservermgr.Mgmt.Time.{Time}
use wgservermgr.Device.IndexTable.{Table, new_index, delete_index}
use wgservermgr.Device.Cookie.{CookieGenerator}
use wgservermgr.Device.Noise.Keys.{Primitives, clamp, shared_secret}
use wgservermgr.Device.Noise.Messages.{MessageResponse}
use wgservermgr.Device.Noise.State.{
  HandshakeState, Handshake, Peer, Device, Draws, handshake_of, set_handshake, Sent, sent, failed,
  waiting,
}
use wgservermgr.Device.Noise.Agreement.{update_self}
use wgservermgr.Device.Noise.Turns.{rotate_keypairs-peers}
use wgservermgr.Device.Noise.Session.{install_keypair, begin_symmetric_session}
use wgservermgr.Device.Noise.Response.{
  create_message_response, mix_response, seal_response, is_initiation_consumed,
}
use wgservermgr.Device.Transport.State.{Link, Host, Outside}
use wgservermgr.Device.Transport.Initiating.{Outcome-cases}
use wgservermgr.Device.Transport.Events.{
  timers_any_authenticated_packet_traversal, timers_any_authenticated_packet_received,
  timers_any_authenticated_packet_sent, timers_session_derived, timers_handshake_complete,
}
use wgservermgr.Device.Transport.Receive.{set_endpoint_from_packet}
use wgservermgr.Device.Transport.Handshaking.{
  Arrival, add_rx, transmit_response, begin_and_transmit, respond_with, send_handshake_response,
  answer_initiation, after_begin, take_response,
}
use wgservermgr.Device.Transport.Steady.{
  Steady, timers_session_derived-Steady, timers_any_authenticated_packet_traversal-Steady,
  timers_any_authenticated_packet_sent-Steady, timers_any_authenticated_packet_received-Steady,
  timers_handshake_complete-Steady,
}
use wgservermgr.Device.Transport.Steady.Initiation.{send_buffers-Steady}
use wgservermgr.Device.Transport.Quiet.{
  Tame, Tame-refl, Tame-trans, Steady-Tame, untimed-Tame, send_keepalive-Tame,
}
use wgservermgr.Device.Transport.Quiet.Packets.{endpoint-Tame}

-- Whether the peer runs in one device as in the other.
Alike : ℕ → Device → Device → Type 0
Alike peer d d' = (d'.peers peer).is_running ≡ (d.peers peer).is_running

handshake-Alike :
    (peer : ℕ) (hs : Handshake) (t : Table) (d : Device)
    → Alike peer d (set_handshake peer hs (record d { index_table = t }))
unfolding Alike
handshake-Alike peer hs t d = ap (λ (p : Peer). p.is_running) (update_self d.peers peer _)

module _ (c : Primitives) (peer : ℕ) where
  mix_response-Alike :
      (draws : Draws) (hs : Handshake) (d : Device)
      → Alike peer d (mix_response c peer draws hs d).0
  unfolding mix_response seal_response
  mix_response-Alike draws hs d = elim (Bool-cases draws.ephemeral_ok) [
    | inr e ↦ rw (mix_response, e) (handshake-Alike peer _ d.index_table d)
    | inl e ↦ elim (Option-cases (shared_secret c (clamp draws.ephemeral) hs.remote_ephemeral)) [
      | inl s ↦ rw (mix_response, e, s) (handshake-Alike peer _ d.index_table d)
      | inr (ss, s) ↦
          elim (Option-cases (shared_secret c (clamp draws.ephemeral) hs.remote_static)) [
            | inl t ↦ rw (mix_response, e, s, t) (handshake-Alike peer _ d.index_table d)
            | inr (ss', t) ↦ rw (mix_response, e, s, t) (handshake-Alike peer _ d.index_table d)
          ]
    ]
  ]

  create_message_response-Alike :
      (draws : Draws) (d : Device) → Alike peer d (create_message_response c peer draws d).0
  unfolding create_message_response Alike
  create_message_response-Alike draws d =
      let hs = handshake_of d peer in
      elim (Bool-cases (is_initiation_consumed hs.state)) [
        | inr e ↦ rw (create_message_response, e) refl
        | inl e ↦
            elim (Outcome-cases
              (new_index peer peer draws.rounds (delete_index hs.local_index d.index_table))) [
                | inl (t, s) ↦ rw (create_message_response, e, s) refl
                | inr (inl (t, s)) ↦ rw (create_message_response, e, s) (handshake-Alike peer _ t d)
                | inr (inr (i, t, s)) ↦
                    rw (create_message_response, e, s)
                      (mix_response-Alike draws (record hs { local_index = i })
                        (record d { index_table = t }))
              ]
      ]

  install_keypair-Alike :
      (now : Time) (is_initiator : Bool) (key1 key2 : Bytes) (d : Device)
      → Alike peer d (install_keypair peer now is_initiator key1 key2 d)
  unfolding install_keypair Alike
  install_keypair-Alike now is_initiator key1 key2 d =
      ap (λ (p : Peer). p.is_running) (rotate_keypairs-peers peer is_initiator d.next_keypair _)
      ∙ ap (λ (p : Peer). p.is_running) (update_self d.peers peer _)

  begin-Alike_in :
      (now : Time) (d : Device) (s : HandshakeState)
      → (handshake_of d peer).state ≡ s
      → Alike peer d (begin_symmetric_session c peer now d).0
  unfolding begin_symmetric_session Alike
  begin-Alike_in now d HandshakeState.response_consumed e =
      rw (begin_symmetric_session, e) (install_keypair-Alike now true _ _ d)
  begin-Alike_in now d HandshakeState.response_created e =
      rw (begin_symmetric_session, e) (install_keypair-Alike now false _ _ d)
  begin-Alike_in now d HandshakeState.zeroed e = rw (begin_symmetric_session, e) refl
  begin-Alike_in now d HandshakeState.initiation_created e = rw (begin_symmetric_session, e) refl
  begin-Alike_in now d HandshakeState.initiation_consumed e = rw (begin_symmetric_session, e) refl

  begin-Alike : (now : Time) (d : Device) → Alike peer d (begin_symmetric_session c peer now d).0
  begin-Alike now d = begin-Alike_in now d (handshake_of d peer).state refl

module _ (h : Host) (o : Outside) where
  steady : (l l' : Link) → Steady h l l' → Tame h l l'
  steady l l' s = Steady-Tame h l l' s

  device-Tame :
      (d : Device) (l : Link) → Alike h.peer l.device d → Tame h l (record l { device = d })
  unfolding Alike
  device-Tame d l same = untimed-Tame h l _ same refl

  transmit_response-Tame :
      (packet : Bytes) (r : Device × Bool) (l : Link)
      → Alike h.peer l.device r.0
      → Tame h l (transmit_response h o h packet r l)
  unfolding transmit_response
  transmit_response-Tame packet (d, false) l same = device-Tame d l same
  transmit_response-Tame packet (d, true) l same =
      let l1 : Link = record l { device = d } in
      let l2 = timers_session_derived h o l1 in
      let l3 = timers_any_authenticated_packet_traversal h o l2 in
      let l4 = timers_any_authenticated_packet_sent h o l3 in
      Tame-trans h l l1 _ (device-Tame d l same) (
        Tame-trans h l1 l2 _ (steady l1 l2 (timers_session_derived-Steady h o l1)) (
          Tame-trans h l2 l3 _
            (steady l2 l3 (timers_any_authenticated_packet_traversal-Steady h o l2))
            (Tame-trans h l3 l4 _
              (steady l3 l4 (timers_any_authenticated_packet_sent-Steady h o l3))
              (steady l4 _ (send_buffers-Steady h o (packet ∷ []) l4)))))

  begin_and_transmit-Tame :
      (p : Option (CookieGenerator × Bytes)) (l : Link) → Tame h l (begin_and_transmit h o h p l)
  unfolding begin_and_transmit
  begin_and_transmit-Tame none l = Tame-refl h l
  begin_and_transmit-Tame (some (generator, packet)) l =
      let l1 : Link = record l { cookie_generator = generator } in
      Tame-trans h l l1 _ (untimed-Tame h l l1 refl refl)
        (transmit_response-Tame packet _ l1 (begin-Alike h.primitives h.peer o.now l.device))

  respond_with-Tame :
      (made : Sent MessageResponse) (l : Link) → Tame h l (respond_with h o h made l)
  unfolding respond_with
  respond_with-Tame (sent msg) l = begin_and_transmit-Tame _ l
  respond_with-Tame failed l = Tame-refl h l
  respond_with-Tame waiting l = Tame-refl h l

  send_handshake_response-Tame : (l : Link) → Tame h l (send_handshake_response h o h l)
  unfolding send_handshake_response
  send_handshake_response-Tame l =
      let made = create_message_response h.primitives h.peer o.draws l.device in
      let l1 : Link = record l { device = made.0; last_sent_handshake = o.now } in
      Tame-trans h l l1 _
        (Tame-trans h l (record l { device = made.0 }) l1
          (device-Tame made.0 l
            (create_message_response-Alike h.primitives h.peer o.draws l.device))
          (untimed-Tame h (record l { device = made.0 }) l1 refl refl))
        (respond_with-Tame made.1 l1)

  heard-Tame :
      (l : Link)
      → Tame h l (
          timers_any_authenticated_packet_received h o
            (timers_any_authenticated_packet_traversal h o l))
  heard-Tame l =
      let l1 = timers_any_authenticated_packet_traversal h o l in
      Tame-trans h l l1 _ (steady l l1 (timers_any_authenticated_packet_traversal-Steady h o l))
        (steady l1 _ (timers_any_authenticated_packet_received-Steady h o l1))

  pub answer_initiation-Tame : (a : Arrival) (l : Link) → Tame h l (answer_initiation h o a h l)
  unfolding answer_initiation
  answer_initiation-Tame a l =
      let l1 =
        timers_any_authenticated_packet_received h o
          (timers_any_authenticated_packet_traversal h o l) in
      let l2 = set_endpoint_from_packet a.endpoint l1 in
      let l3 = add_rx (length a.packet) l2 in
      Tame-trans h l l1 _ (heard-Tame l) (
        Tame-trans h l1 l2 _ (endpoint-Tame h o a.endpoint l1)
          (Tame-trans h l2 l3 _ (untimed-Tame h l2 l3 refl refl) (send_handshake_response-Tame l3)))

  after_begin-Tame :
      (r : Device × Bool) (l : Link) → Alike h.peer l.device r.0 → Tame h l (after_begin h o h r l)
  unfolding after_begin
  after_begin-Tame (d, false) l same = device-Tame d l same
  after_begin-Tame (d, true) l same =
      let l1 : Link = record l { device = d } in
      let l2 = timers_session_derived h o l1 in
      let l3 = timers_handshake_complete h o l2 in
      Tame-trans h l l1 _ (device-Tame d l same) (
        Tame-trans h l1 l2 _ (steady l1 l2 (timers_session_derived-Steady h o l1)) (
          Tame-trans h l2 l3 _ (steady l2 l3 (timers_handshake_complete-Steady h o l2))
            (send_keepalive-Tame h o l3)))

  pub take_response-Tame : (a : Arrival) (l : Link) → Tame h l (take_response h o a h l)
  unfolding take_response
  take_response-Tame a l =
      let l1 = set_endpoint_from_packet a.endpoint l in
      let l2 = add_rx (length a.packet) l1 in
      let l3 =
        timers_any_authenticated_packet_received h o
          (timers_any_authenticated_packet_traversal h o l2) in
      Tame-trans h l l1 _ (endpoint-Tame h o a.endpoint l) (
        Tame-trans h l1 l2 _ (untimed-Tame h l1 l2 refl refl) (
          Tame-trans h l2 l3 _ (heard-Tame l2)
            (after_begin-Tame _ l3 (begin-Alike h.primitives h.peer o.now l3.device))))
