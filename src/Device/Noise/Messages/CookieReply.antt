-- ===== src/Device/Noise/Messages/CookieReply.antt =====
-- device/noise-protocol.go: MessageCookieReply, unmarshalled as it was marshalled.
use wgservermgr.Prelude.{
  ◌+◌, ◌^◌, ◌<◌, ◌≡◌, refl, sym, ap, ◌∙◌, true, some, ◌==◌, length, arith, ◌++◌, [],
}
use mathlib.Core.List.{append_assoc, append-nil}
use wgservermgr.Prelude.Bytes.{
  Bytes, drop, le_bytes, Written-first, Written-next, Written-all, drop-next, copy-field,
  le_number-field, length-le_bytes, length-append, drop-zero,
}
use wgservermgr.Device.Noise.Messages.{
  MessageCookieReply, marshal_cookie_reply, unmarshal_cookie_reply,
}

-- The arrays have the lengths of their types, and the words 32 bits.
pub record SizedCookieReply (msg : MessageCookieReply) : Type 0 where
  pub type : msg.type < 2 ^ 32
  pub receiver : msg.receiver < 2 ^ 32
  pub nonce : length msg.nonce ≡ 24
  pub cookie : length msg.cookie ≡ 32

-- The bytes of a message.
unfoldable pub bytes_cookie_reply : MessageCookieReply → Bytes
bytes_cookie_reply msg =
    le_bytes 4 msg.type ++ (le_bytes 4 msg.receiver ++ (msg.nonce ++ (msg.cookie)))

marshal_cookie_reply-bytes :
    (msg : MessageCookieReply) (b : Bytes)
    → SizedCookieReply msg
    → length b ≡ 64
    → marshal_cookie_reply msg b ≡ some (bytes_cookie_reply msg)
unfolding marshal_cookie_reply bytes_cookie_reply
marshal_cookie_reply-bytes msg b w h =
    let right : (length b == 64) ≡ true = ground arith in
    let w0 = Written-first (le_bytes 4 msg.type) b 4 (length-le_bytes 4 msg.type) (omega arith) in
    let w1 =
      Written-next 4 4 _ (le_bytes 4 msg.receiver) b _ w0 (length-le_bytes 4 msg.receiver)
        (omega arith) in
    let w2 =
      Written-next 8 (length msg.nonce) _ msg.nonce b _ w1 refl
        (omega (arith, w.nonce, w.cookie)) in
    let w3 =
      Written-next (8 + length msg.nonce) (length msg.cookie) _ msg.cookie b _ w2 refl
        (omega (arith, w.nonce, w.cookie)) in
    rw right (
      ap some (
        Written-all (8 + length msg.nonce + length msg.cookie) _ b _ w3
          (omega (arith, w.nonce, w.cookie))
        ∙ simp append_assoc))

unmarshal_cookie_reply-bytes :
    (msg old : MessageCookieReply) (b : Bytes)
    → SizedCookieReply msg
    → SizedCookieReply old
    → b ≡ bytes_cookie_reply msg
    → unmarshal_cookie_reply old b ≡ some msg
unfolding unmarshal_cookie_reply bytes_cookie_reply
unmarshal_cookie_reply-bytes msg old b w v h =
    let d0 : drop 0 b
        ≡ le_bytes 4 msg.type ++ (le_bytes 4 msg.receiver ++ (msg.nonce ++ (msg.cookie))) =
      drop-zero b ∙ h in
    let d1 : drop 4 b ≡ le_bytes 4 msg.receiver ++ (msg.nonce ++ (msg.cookie)) =
      drop-next 0 4 b (le_bytes 4 msg.type) (le_bytes 4 msg.receiver ++ (msg.nonce ++ (msg.cookie)))
        d0 (length-le_bytes 4 msg.type) in
    let d2 : drop 8 b ≡ msg.nonce ++ (msg.cookie) =
      drop-next 4 4 b (le_bytes 4 msg.receiver) (msg.nonce ++ (msg.cookie)) d1
        (length-le_bytes 4 msg.receiver) in
    let d3 : drop (8 + length old.nonce) b ≡ msg.cookie =
      drop-next 8 (length old.nonce) b (msg.nonce) (msg.cookie) d2 (w.nonce ∙ sym v.nonce) in
    let last : drop (8 + length old.nonce) b ≡ msg.cookie ++ [] =
      d3 ∙ sym (append-nil msg.cookie) in
    let size : length b ≡ 64 =
      ap length h
      ∙ omega (
        arith,
        length-append (le_bytes 4 msg.type)
            (le_bytes 4 msg.receiver ++ (msg.nonce ++ (msg.cookie))),
        length-append (le_bytes 4 msg.receiver) (msg.nonce ++ (msg.cookie)),
        length-append (msg.nonce) (msg.cookie),
        length-le_bytes 4 msg.type,
        length-le_bytes 4 msg.receiver,
        w.nonce,
        w.cookie,
      ) in
    let right : (length b == 64) ≡ true = ground arith in
    let e0 =
      le_number-field 0 4 msg.type b (le_bytes 4 msg.receiver ++ (msg.nonce ++ (msg.cookie))) d0
        w.type in
    let e1 = le_number-field 4 4 msg.receiver b (msg.nonce ++ (msg.cookie)) d1 w.receiver in
    let e2 = copy-field 8 b msg.nonce (msg.cookie) old.nonce d2 (v.nonce ∙ sym w.nonce) in
    let e3 =
      copy-field (8 + length old.nonce) b msg.cookie [] old.cookie last (v.cookie ∙ sym w.cookie) in
    rw (right, e0, e1, e2, e3) refl

-- A `MessageCookieReply` of the sizes of its fields, marshalled into 64 bytes and unmarshalled
-- over any such message, is the message again.
pub unmarshal-marshal_cookie_reply :
    (msg old : MessageCookieReply) (b : Bytes)
    → SizedCookieReply msg
    → SizedCookieReply old
    → length b ≡ 64
    → (b' : Bytes) × (marshal_cookie_reply msg b ≡ some b')
      × (unmarshal_cookie_reply old b' ≡ some msg)
unmarshal-marshal_cookie_reply msg old b w v h = (
  bytes_cookie_reply msg,
  marshal_cookie_reply-bytes msg b w h,
  unmarshal_cookie_reply-bytes msg old (bytes_cookie_reply msg) w v refl,
)
