-- ===== src/Device/Noise/Messages.antt =====
-- device/noise-protocol.go: the messages of the handshake, and their encoding. An array of bytes is
-- a list; `WellSized` says that it has the length of its type.
pub mod Initiation
pub mod Response
pub mod CookieReply
pub mod Examples
use wgservermgr.Prelude.{
  ℕ, ◌+◌, ◌*◌, ◌-◌, ◌/◌, ◌%◌, ◌^◌, ◌<◌, ◌≡◌, Bool, not, Option, none, some, ◌==◌, if◌then◌else◌,
  length,
}
use wgservermgr.Prelude.Bytes.{Bytes, take, drop, copy, copy_at, le_bytes, le_number}

abbrev pub message_initiation_size : ℕ
message_initiation_size = 148

abbrev pub message_response_size : ℕ
message_response_size = 92

abbrev pub message_cookie_reply_size : ℕ
message_cookie_reply_size = 64

abbrev pub message_initiation_type : ℕ
message_initiation_type = 1

abbrev pub message_response_type : ℕ
message_response_type = 2

abbrev pub message_cookie_reply_type : ℕ
message_cookie_reply_type = 3

pub record MessageInitiation : Type 0 where
  pub type : ℕ
  pub sender : ℕ
  pub ephemeral : Bytes
  pub static : Bytes
  pub timestamp : Bytes
  pub mac1 : Bytes
  pub mac2 : Bytes

pub record MessageResponse : Type 0 where
  pub type : ℕ
  pub sender : ℕ
  pub receiver : ℕ
  pub ephemeral : Bytes
  pub empty : Bytes
  pub mac1 : Bytes
  pub mac2 : Bytes

pub record MessageCookieReply : Type 0 where
  pub type : ℕ
  pub receiver : ℕ
  pub nonce : Bytes
  pub cookie : Bytes

-- `binary.LittleEndian.Uint32(b[n:])` and `PutUint32(b[n:], v)`.
abbrev pub uint32_at : ℕ → Bytes → ℕ
uint32_at n b = le_number (take 4 (drop n b))

abbrev pub put_uint32 : ℕ → ℕ → Bytes → Bytes
put_uint32 n v b = copy_at n (le_bytes 4 v) b

unfoldable pub unmarshal_initiation : MessageInitiation → Bytes → Option MessageInitiation
unmarshal_initiation msg b =
    if not (length b == message_initiation_size)
    then none
    else some (record {
      type = uint32_at 0 b;
      sender = uint32_at 4 b;
      ephemeral = copy msg.ephemeral (drop 8 b);
      static = copy msg.static (drop (8 + length msg.ephemeral) b);
      timestamp = copy msg.timestamp (drop (8 + length msg.ephemeral + length msg.static) b);
      mac1 =
          copy msg.mac1
            (drop (8 + length msg.ephemeral + length msg.static + length msg.timestamp) b);
      mac2 = copy msg.mac2 (
          drop
            (8 + length msg.ephemeral + length msg.static + length msg.timestamp + length msg.mac1)
            b);
    })

-- The buffer after each write.
unfoldable pub marshal_initiation : MessageInitiation → Bytes → Option Bytes
marshal_initiation msg b =
    if not (length b == message_initiation_size)
    then none
    else let b0 = put_uint32 0 msg.type b in
      let b1 = put_uint32 4 msg.sender b0 in
      let b2 = copy_at 8 msg.ephemeral b1 in
      let b3 = copy_at (8 + length msg.ephemeral) msg.static b2 in
      let b4 = copy_at (8 + length msg.ephemeral + length msg.static) msg.timestamp b3 in
      let b5 =
        copy_at (8 + length msg.ephemeral + length msg.static + length msg.timestamp) msg.mac1 b4 in
      some (
        copy_at
          (8 + length msg.ephemeral + length msg.static + length msg.timestamp + length msg.mac1)
          msg.mac2 b5)

unfoldable pub unmarshal_response : MessageResponse → Bytes → Option MessageResponse
unmarshal_response msg b =
    if not (length b == message_response_size)
    then none
    else some (record {
      type = uint32_at 0 b;
      sender = uint32_at 4 b;
      receiver = uint32_at 8 b;
      ephemeral = copy msg.ephemeral (drop 12 b);
      empty = copy msg.empty (drop (12 + length msg.ephemeral) b);
      mac1 = copy msg.mac1 (drop (12 + length msg.ephemeral + length msg.empty) b);
      mac2 =
          copy msg.mac2 (drop (12 + length msg.ephemeral + length msg.empty + length msg.mac1) b);
    })

-- The buffer after each write.
unfoldable pub marshal_response : MessageResponse → Bytes → Option Bytes
marshal_response msg b =
    if not (length b == message_response_size)
    then none
    else let b0 = put_uint32 0 msg.type b in
      let b1 = put_uint32 4 msg.sender b0 in
      let b2 = put_uint32 8 msg.receiver b1 in
      let b3 = copy_at 12 msg.ephemeral b2 in
      let b4 = copy_at (12 + length msg.ephemeral) msg.empty b3 in
      let b5 = copy_at (12 + length msg.ephemeral + length msg.empty) msg.mac1 b4 in
      some (copy_at (12 + length msg.ephemeral + length msg.empty + length msg.mac1) msg.mac2 b5)

unfoldable pub unmarshal_cookie_reply : MessageCookieReply → Bytes → Option MessageCookieReply
unmarshal_cookie_reply msg b =
    if not (length b == message_cookie_reply_size)
    then none
    else some (record {
      type = uint32_at 0 b;
      receiver = uint32_at 4 b;
      nonce = copy msg.nonce (drop 8 b);
      cookie = copy msg.cookie (drop (8 + length msg.nonce) b);
    })

-- The buffer after each write.
unfoldable pub marshal_cookie_reply : MessageCookieReply → Bytes → Option Bytes
marshal_cookie_reply msg b =
    if not (length b == message_cookie_reply_size)
    then none
    else let b0 = put_uint32 0 msg.type b in
      let b1 = put_uint32 4 msg.receiver b0 in
      let b2 = copy_at 8 msg.nonce b1 in some (copy_at (8 + length msg.nonce) msg.cookie b2)
