-- ===== src/Device/Transport/Handshaking.antt =====
-- device/receive.go and send.go: what the device does with the messages of handshakes.
use wgservermgr.Prelude.{
  ℕ, ◌+◌, ◌/◌, ◌%◌, ◌^◌, Bool, true, false, not, Option, none, some, List, [], ◌∷◌, ◌++◌, leb,
  length, update, ◌==◌, ◌&&◌, if◌then◌else◌,
}
use wgservermgr.Prelude.Int.{pos, ◌+ℤ◌, ltb_ℤ}
use wgservermgr.Prelude.Bytes.{Bytes, zeros, take, drop, le_number}
use wgservermgr.Mgmt.Time.{Time, second}
use wgservermgr.Ratelimiter.{Ratelimiter, allow}
use wgservermgr.Device.IndexTable.{lookup_index}
use wgservermgr.Device.Cookie.{
  CookieChecker, CookieGenerator, ReplyDraws, check_mac1, check_mac2, create_reply, consume_reply,
  add_macs,
}
use wgservermgr.Device.Noise.Messages.{
  MessageInitiation, MessageResponse, MessageCookieReply, unmarshal_initiation, unmarshal_response,
  unmarshal_cookie_reply, marshal_response, marshal_cookie_reply, message_initiation_type,
  message_response_type, message_cookie_reply_type, message_response_size,
  message_cookie_reply_size,
}
use wgservermgr.Device.Noise.State.{Device, Sent, sent}
use wgservermgr.Device.Noise.Initiation.{consume_message_initiation}
use wgservermgr.Device.Noise.Response.{create_message_response, consume_message_response}
use wgservermgr.Device.Noise.Session.{begin_symmetric_session}
use wgservermgr.Device.Transport.State.{Link, Host, Outside}
use wgservermgr.Device.Transport.Events.{
  timers_any_authenticated_packet_traversal, timers_any_authenticated_packet_received,
  timers_any_authenticated_packet_sent, timers_session_derived, timers_handshake_complete,
}
use wgservermgr.Device.Transport.Send.{send_buffers, send_keepalive}
use wgservermgr.Device.Transport.Receive.{set_endpoint_from_packet}

-- The device with its peers, where `links` are the peers, whose `device` is not read, and `replies`
-- the cookies sent so far: the endpoint and the message.
pub record Node : Type 0 where
  pub device : Device
  pub links : ℕ → Link
  pub checker : CookieChecker
  pub limiter : Ratelimiter
  pub under_load_until : Time
  pub replies : List (ℕ × Bytes)

-- `QueueHandshakeElement`, with `DstToBytes` and `DstIP` of its endpoint, and what its handling takes
-- from outside besides: the length of the queue, the draws of a cookie and the limiter's clock.
pub record Arrival : Type 0 where
  pub msg_type : ℕ
  pub packet : Bytes
  pub endpoint : ℕ
  pub dst_bytes : Bytes
  pub dst_ip : ℕ
  pub queued : ℕ
  pub reply_draws : ReplyDraws
  pub limiter_now : ℕ

-- `QueueHandshakeSize`
abbrev pub queue_handshake_size : ℕ
queue_handshake_size = 1024

-- `UnderLoadAfterTime`
abbrev pub under_load_after_time : ℕ
under_load_after_time = second

-- `var msg MessageInitiation` and the like.
abbrev pub zero_initiation : MessageInitiation
zero_initiation = record {
  type = 0;
  sender = 0;
  ephemeral = zeros 32;
  static = zeros 48;
  timestamp = zeros 28;
  mac1 = zeros 16;
  mac2 = zeros 16;
}

abbrev pub zero_response : MessageResponse
zero_response = record {
  type = 0;
  sender = 0;
  receiver = 0;
  ephemeral = zeros 32;
  empty = zeros 16;
  mac1 = zeros 16;
  mac2 = zeros 16;
}

abbrev pub zero_cookie_reply : MessageCookieReply
zero_cookie_reply = record { type = 0; receiver = 0; nonce = zeros 24; cookie = zeros 32 }

-- What a buffer holds after a marshal method whose error is ignored.
abbrev pub or_buffer : Bytes → Option Bytes → Bytes
or_buffer b none = b
or_buffer b (some b') = b'

abbrev pub add_rx : ℕ → Link → Link
add_rx n l = record l { rx_bytes = (l.rx_bytes + n) % 2 ^ 64 }

module _ (h : Host) (o : Outside) where
  -- An operation on one peer of the node.
  abbrev pub on_peer : ℕ → (Host → Link → Link) → Node → Node
  on_peer p f n =
      let l = f (record h { peer = p }) (record (n.links p) { device = n.device }) in
      record n { device = l.device; links = update n.links p l }

  -- `SendHandshakeResponse` once the packet has its MACs and the session has begun or not.
  unfoldable pub transmit_response : Host → Bytes → Device × Bool → Link → Link
  transmit_response g packet (d, false) l = record l { device = d }
  transmit_response g packet (d, true) l =
      (send_buffers o (packet ∷ []) (
        timers_any_authenticated_packet_sent g o (
          timers_any_authenticated_packet_traversal g o
            (timers_session_derived g o (record l { device = d }))))).0

  -- With the MACs.
  unfoldable pub begin_and_transmit : Host → Option (CookieGenerator × Bytes) → Link → Link
  begin_and_transmit g none l = l
  begin_and_transmit g (some (generator, packet)) l =
      transmit_response g packet (begin_symmetric_session g.primitives g.peer o.now l.device)
        (record l { cookie_generator = generator })

  -- With the message of `CreateMessageResponse`, or its error.
  unfoldable pub respond_with : Host → Sent MessageResponse → Link → Link
  respond_with g (sent msg) l =
      let b = zeros message_response_size in
      begin_and_transmit g
        (add_macs g.cookies o.now (or_buffer b (marshal_response msg b)) l.cookie_generator) l
  respond_with g _ l = l

  -- `SendHandshakeResponse`; its caller does not look at its error.
  unfoldable pub send_handshake_response : Host → Link → Link
  send_handshake_response g l =
      let (d, made) = create_message_response g.primitives g.peer o.draws l.device in
      respond_with g made (record l { device = d; last_sent_handshake = o.now })

  -- What follows an initiation that `ConsumeMessageInitiation` accepts.
  unfoldable pub answer_initiation : Arrival → Host → Link → Link
  answer_initiation a g l = send_handshake_response g (
      add_rx (length a.packet) (
        set_endpoint_from_packet a.endpoint (
          timers_any_authenticated_packet_received g o
            (timers_any_authenticated_packet_traversal g o l))))

  unfoldable pub initiation_from : Arrival → Device × Option ℕ → Node → Node
  initiation_from a (d, none) n = record n { device = d }
  initiation_from a (d, some p) n = on_peer p (answer_initiation a) (record n { device = d })

  -- After a response, the session once it has begun or not.
  unfoldable pub after_begin : Host → Device × Bool → Link → Link
  after_begin g (d, false) l = record l { device = d }
  after_begin g (d, true) l =
      send_keepalive g o
        (timers_handshake_complete g o (timers_session_derived g o (record l { device = d })))

  -- What follows a response that `ConsumeMessageResponse` accepts.
  unfoldable pub take_response : Arrival → Host → Link → Link
  take_response a g l =
      let l1 = timers_any_authenticated_packet_received g o (
        timers_any_authenticated_packet_traversal g o
          (add_rx (length a.packet) (set_endpoint_from_packet a.endpoint l))) in
      after_begin g (begin_symmetric_session g.primitives g.peer o.now l1.device) l1

  unfoldable pub response_from : Arrival → Device × Option ℕ → Node → Node
  response_from a (d, none) n = record n { device = d }
  response_from a (d, some p) n = on_peer p (take_response a) (record n { device = d })

  -- The second switch of `RoutineHandshake`.
  unfoldable pub take_initiation : Arrival → Option MessageInitiation → Node → Node
  take_initiation a none n = n
  take_initiation a (some msg) n =
      initiation_from a (consume_message_initiation h.primitives msg o.now o.now n.device) n

  unfoldable pub take_response_message : Arrival → Option MessageResponse → Node → Node
  take_response_message a none n = n
  take_response_message a (some msg) n =
      response_from a (consume_message_response h.primitives msg n.device) n

  unfoldable pub take_message : Arrival → Node → Node
  take_message a n =
      if a.msg_type == message_initiation_type
      then take_initiation a (unmarshal_initiation zero_initiation a.packet) n
      else take_response_message a (unmarshal_response zero_response a.packet) n

  -- A cookie for the peer that the reply names, if it runs.
  unfoldable pub cookie_for : MessageCookieReply → Option ℕ → Node → Node
  cookie_for reply none n = n
  cookie_for reply (some p) n =
      let l = n.links p in
      let (generator, _) = consume_reply h.cookies o.now reply l.cookie_generator in
      if (n.device.peers p).is_running
      then record n { links = update n.links p (record l { cookie_generator = generator }) }
      else n

  unfoldable pub take_cookie_reply : Option MessageCookieReply → Node → Node
  take_cookie_reply none n = n
  take_cookie_reply (some reply) n =
      cookie_for reply (lookup_index reply.receiver n.device.index_table).peer n

  -- `IsUnderLoad`
  unfoldable pub is_under_load : ℕ → Node → Node × Bool
  is_under_load queued n =
      if leb (queue_handshake_size / 8) queued
      then (record n { under_load_until = o.now +ℤ pos under_load_after_time }, true)
      else (n, ltb_ℤ o.now n.under_load_until)

  -- `SendHandshakeCookie` with the result of `CreateReply`.
  unfoldable pub reply_with :
      Arrival → Option (CookieChecker × Option MessageCookieReply) → Node → Node
  reply_with a none n = n
  reply_with a (some (checker, none)) n = record n { checker = checker }
  reply_with a (some (checker, some reply)) n =
      let b = zeros message_cookie_reply_size in
      record n {
        checker = checker;
        replies = n.replies ++ ((a.endpoint, or_buffer b (marshal_cookie_reply reply b)) ∷ []);
      }

  unfoldable pub send_handshake_cookie : Arrival → Node → Node
  send_handshake_cookie a n =
      let sender = le_number (take 4 (drop 4 a.packet)) in
      reply_with a (create_reply h.cookies a.reply_draws a.packet sender a.dst_bytes n.checker) n

  -- `device.rate.limiter.Allow`
  unfoldable pub limit : Arrival → Node → Node × Bool
  limit a n =
      let (limiter, allowed) = allow a.dst_ip a.limiter_now n.limiter in
      (record n { limiter = limiter }, allowed)

  -- The checks of a device under load: the second MAC, else a cookie, then the limiter.
  unfoldable pub guard_load : Arrival → Option Bool → Node → Node × Bool
  guard_load a (some true) n = limit a n
  guard_load a (some false) n = (send_handshake_cookie a n, false)
  guard_load a none n = (n, false)

  unfoldable pub guard_mac1 : Arrival → Option Bool → Node → Node × Bool
  guard_mac1 a (some true) n =
      let (n1, loaded) = is_under_load a.queued n in
      if loaded
      then guard_load a (check_mac2 h.cookies o.now n1.checker a.packet a.dst_bytes) n1
      else (n1, true)
  guard_mac1 a (some false) n = (n, false)
  guard_mac1 a none n = (n, false)

  unfoldable pub admitted : Arrival → Node × Bool → Node
  admitted a (n, true) = take_message a n
  admitted a (n, false) = n

  -- One turn of `RoutineHandshake`.
  unfoldable pub handle_handshake : Arrival → Node → Node
  handle_handshake a n =
      if a.msg_type == message_cookie_reply_type
      then take_cookie_reply (unmarshal_cookie_reply zero_cookie_reply a.packet) n
      else if not (a.msg_type == message_initiation_type)
          && not (a.msg_type == message_response_type)
      then n
      else admitted a (guard_mac1 a (check_mac1 h.cookies n.checker a.packet) n)
