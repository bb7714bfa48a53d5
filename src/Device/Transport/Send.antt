-- ===== src/Device/Transport/Send.antt =====
-- device/send.go and peer.go: staged packets, their nonces, and the handshake initiations that a
-- peer sends when it has no key to send with.
use wgservermgr.Prelude.{
  ℕ, zero, suc, ◌+◌, ◌-◌, ◌*◌, ◌%◌, ◌^◌, Bool, true, false, not, ◌&&◌, ◌||◌, Option, none, some,
  List, [], ◌∷◌, ◌++◌, ltb, leb, ◌==◌, length, update, if◌then◌else◌,
}
use wgservermgr.Prelude.Int.{pos, leb_ℤ, ltb_ℤ}
use wgservermgr.Prelude.Bytes.{Bytes, zeros}
use wgservermgr.Mgmt.Time
use wgservermgr.Mgmt.Time.{Time}
use wgservermgr.Device.Cookie.{CookieGenerator, add_macs}
use wgservermgr.Device.Noise.Messages.{
  MessageInitiation, marshal_initiation, message_initiation_size,
}
use wgservermgr.Device.Noise.State.{Keypair, Device, Sent, sent}
use wgservermgr.Device.Noise.Initiation.{create_message_initiation}
use wgservermgr.Device.Transport.Timers.{rekey_timeout, reject_after_time}
use wgservermgr.Device.Transport.State.{Element, Link, Host, Outside, is_up, is_closed, is_running}
use wgservermgr.Device.Transport.Events.{
  set_attempts, timers_any_authenticated_packet_sent, timers_any_authenticated_packet_traversal,
  timers_handshake_initiated,
}

abbrev pub reject_after_messages : ℕ
reject_after_messages = 2 ^ 64 - 2 ^ 13 - 1

-- `QueueStagedSize`
abbrev pub queue_staged_size : ℕ
queue_staged_size = 128

abbrev pub total_length : List Bytes → ℕ
total_length [] = 0
total_length (b ∷ bs) = length b + total_length bs

-- `markEndpointSrcForClearing`
unfoldable pub mark_endpoint_src_for_clearing : Link → Link
mark_endpoint_src_for_clearing l = elim l.endpoint [
  | none ↦ l
  | some e ↦ record l { clear_src_on_tx = true }
]

-- `SendBuffers` to an endpoint, and whether it gives no error.
unfoldable pub send_to : Outside → List Bytes → Link → Option ℕ → Link × Bool
send_to o buffers l none = (l, false)
send_to o buffers l (some e) = (
  record l {
    clear_src_on_tx = false;
    wire = l.wire ++ (record { endpoint = e; cleared = l.clear_src_on_tx; buffers = buffers } ∷ []);
    tx_bytes = if o.send_ok then (l.tx_bytes + total_length buffers) % 2 ^ 64 else l.tx_bytes;
  },
  o.send_ok,
)

-- `SendBuffers`, and whether it gives no error.
unfoldable pub send_buffers : Outside → List Bytes → Link → Link × Bool
unfolding send_to
send_buffers o buffers l = if is_closed l.state then (l, true) else send_to o buffers l l.endpoint

-- `StagePackets`: the container, put into a queue that loses its oldest ones while it is full.
unfoldable pub stage_packets : List Element → List (List Element) → List (List Element)
stage_packets elems [] = elems ∷ []
stage_packets elems (old ∷ staged) =
    if ltb (length (old ∷ staged)) queue_staged_size
    then (old ∷ staged) ++ (elems ∷ [])
    else stage_packets elems staged

-- `FlushStagedPackets`
unfoldable pub flush_staged_packets : Link → Link
flush_staged_packets l = record l { staged = [] }

-- The loop over a container that gives nonces of the keypair `k`, whose counter is the number: the
-- counter, the elements that stay, and those that are put back.
unfoldable pub assign_nonces : ℕ → ℕ → List Element → ℕ × List Element × List Element
assign_nonces k counter [] = (counter, [], [])
assign_nonces k counter (elem ∷ elems) =
    let added = (counter + 1) % 2 ^ 64 in
    let nonce = (added + (2 ^ 64 - 1)) % 2 ^ 64 in
    let reject = leb reject_after_messages nonce in
    let (counter', kept, out_of_order) =
      assign_nonces k (if reject then reject_after_messages else added) elems in
    if reject
    then (counter', kept, record elem { nonce = nonce } ∷ out_of_order)
    else (counter', record elem { nonce = nonce; keypair = some k } ∷ kept, out_of_order)

abbrev pub set_send_nonce : ℕ → ℕ → Device → Device
set_send_nonce k n d = record d {
  keypairs = update d.keypairs k (record (d.keypairs k) { send_nonce = n });
}

-- Where `SendStagedPackets` goes on: it returns, or it is at the label `top`, or in the loop with a
-- keypair.
pub data Place : Type 0 where
  returned : Place
  at_top : Place
  in_loop : ℕ → Place

module _ (h : Host) (o : Outside) where
  -- `SendHandshakeInitiation` once the packet has its MACs.
  unfoldable pub transmit_packet : Option (CookieGenerator × Bytes) → Link → Link
  transmit_packet none l = l
  transmit_packet (some (generator, packet)) l =
      timers_handshake_initiated h o
        (send_buffers o (packet ∷ []) (
          timers_any_authenticated_packet_sent h o (
            timers_any_authenticated_packet_traversal h o
              (record l { cookie_generator = generator })))).0

  -- `SendHandshakeInitiation` once `CreateMessageInitiation` gives its message or its error.
  unfoldable pub transmit_initiation : Sent MessageInitiation → Link → Link
  transmit_initiation (sent msg) l =
      let b = zeros message_initiation_size in
      let packet : Bytes = elim (marshal_initiation msg b) [ none ↦ b | some b' ↦ b' ] in
      transmit_packet (add_macs h.cookies o.now packet l.cookie_generator) l
  transmit_initiation _ l = l

  unfoldable pub initiate : Link → Link
  initiate l =
      let (d, made) = create_message_initiation h.primitives h.peer o.timestamp o.draws l.device in
      transmit_initiation made (record l { device = d })

  -- `SendHandshakeInitiation`; no caller looks at its error.
  unfoldable pub send_handshake_initiation : Bool → Link → Link
  send_handshake_initiation is_retry l =
      let l0 = if is_retry then l else set_attempts 0 l in
      if ltb_ℤ (Time.sub o.now l0.last_sent_handshake) (pos rekey_timeout)
      then l0
      else initiate (record l0 { last_sent_handshake = o.now })

  -- No packet may be sent with the keypair.
  unfoldable pub is_spent : Keypair → Bool
  is_spent keypair =
      leb reject_after_messages keypair.send_nonce
      || leb_ℤ (pos reject_after_time) (Time.sub o.now keypair.created)

  -- From the label `top` to the loop, with the current keypair.
  unfoldable pub choose_keypair : Option ℕ → Link → Link × Place
  choose_keypair none l = (send_handshake_initiation false l, returned)
  choose_keypair (some k) l =
      if is_spent (l.device.keypairs k)
      then (send_handshake_initiation false l, returned)
      else (l, in_loop k)

  unfoldable pub at_top_step : Link → Link × Place
  at_top_step l =
      if (length l.staged == 0) || not (is_up l.state)
      then (l, returned)
      else choose_keypair (l.device.peers h.peer).keypairs.current l

  -- What becomes of a container once its nonces are given, the elements put back already staged.
  unfoldable pub enqueue : List Element → Link → Link
  enqueue kept l = if is_running h l then record l { outbound = l.outbound ++ (kept ∷ []) } else l

  abbrev pub restage : List Element → List (List Element) → List (List Element)
  restage [] staged = staged
  restage (elem ∷ elems) staged = stage_packets (elem ∷ elems) staged

  -- Where the loop goes on.
  abbrev pub next_place : ℕ → List Element → List Element → Place
  next_place k [] out_of_order = at_top
  next_place k (elem ∷ kept) [] = in_loop k
  next_place k (elem ∷ kept) (late ∷ out_of_order) = at_top

  abbrev pub enqueue_some : List Element → Link → Link
  enqueue_some [] l = l
  enqueue_some (elem ∷ kept) l = enqueue (elem ∷ kept) l

  -- One turn of the loop, with the keypair `k` and the staged containers.
  unfoldable pub take_container : ℕ → List (List Element) → Link → Link × Place
  take_container k [] l = (l, returned)
  take_container k (elems ∷ staged) l =
      let (counter, kept, out_of_order) = assign_nonces k (l.device.keypairs k).send_nonce elems in
      (
        enqueue_some kept (record l {
          device = set_send_nonce k counter l.device;
          staged = restage out_of_order staged;
        }),
        next_place k kept out_of_order,
      )

  unfoldable pub in_loop_step : ℕ → Link → Link × Place
  in_loop_step k l = take_container k l.staged l

  -- `SendStagedPackets` from a place on, within a number of turns.
  unfoldable pub send_staged_from : ℕ → Link × Place → Option Link
  send_staged_from fuel (l, returned) = some l
  send_staged_from zero (l, _) = none
  send_staged_from (suc fuel) (l, at_top) = send_staged_from fuel (at_top_step l)
  send_staged_from (suc fuel) (l, in_loop k) = send_staged_from fuel (in_loop_step k l)

  -- `SendStagedPackets`, with enough turns.
  unfoldable pub send_staged_packets : Link → Link
  send_staged_packets l = elim (send_staged_from (2 * length l.staged + 2) (l, at_top)) [
    | none ↦ l
    | some l' ↦ l'
  ]

  -- `SendKeepalive`
  unfoldable pub send_keepalive : Link → Link
  send_keepalive l =
      let elem : Element = record { packet = []; nonce = 0; keypair = none } in
      send_staged_packets (
        if (length l.staged == 0) && is_running h l
        then record l { staged = (elem ∷ []) ∷ [] }
        else l)
