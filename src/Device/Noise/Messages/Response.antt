-- ===== src/Device/Noise/Messages/Response.antt =====
-- device/noise-protocol.go: MessageResponse, unmarshalled as it was marshalled.
use wgservermgr.Prelude.{
  ◌+◌, ◌^◌, ◌<◌, ◌≡◌, refl, sym, ap, ◌∙◌, true, some, ◌==◌, length, arith, ◌++◌, [],
}
use mathlib.Core.List.{append_assoc, append-nil}
use wgservermgr.Prelude.Bytes.{
  Bytes, drop, le_bytes, Written-first, Written-next, Written-all, drop-next, copy-field,
  le_number-field, length-le_bytes, length-append, drop-zero,
}
use wgservermgr.Device.Noise.Messages.{MessageResponse, marshal_response, unmarshal_response}

-- The arrays have the lengths of their types, and the words 32 bits.
pub record SizedResponse (msg : MessageResponse) : Type 0 where
  pub type : msg.type < 2 ^ 32
  pub sender : msg.sender < 2 ^ 32
  pub receiver : msg.receiver < 2 ^ 32
  pub ephemeral : length msg.ephemeral ≡ 32
  pub empty : length msg.empty ≡ 16
  pub mac1 : length msg.mac1 ≡ 16
  pub mac2 : length msg.mac2 ≡ 16

-- The bytes of a message.
unfoldable pub bytes_response : MessageResponse → Bytes
bytes_response msg =
    le_bytes 4 msg.type
    ++ (le_bytes 4 msg.sender
        ++ (le_bytes 4 msg.receiver ++ (msg.ephemeral ++ (msg.empty ++ (msg.mac1 ++ (msg.mac2))))))

marshal_response-bytes :
    (msg : MessageResponse) (b : Bytes)
    → SizedResponse msg
    → length b ≡ 92
    → marshal_response msg b ≡ some (bytes_response msg)
unfolding marshal_response bytes_response
marshal_response-bytes msg b w h =
    let right : (length b == 92) ≡ true = ground arith in
    let w0 = Written-first (le_bytes 4 msg.type) b 4 (length-le_bytes 4 msg.type) (omega arith) in
    let w1 =
      Written-next 4 4 _ (le_bytes 4 msg.sender) b _ w0 (length-le_bytes 4 msg.sender)
        (omega arith) in
    let w2 =
      Written-next 8 4 _ (le_bytes 4 msg.receiver) b _ w1 (length-le_bytes 4 msg.receiver)
        (omega arith) in
    let w3 =
      Written-next 12 (length msg.ephemeral) _ msg.ephemeral b _ w2 refl
        (omega (arith, w.ephemeral, w.empty, w.mac1, w.mac2)) in
    let w4 =
      Written-next (12 + length msg.ephemeral) (length msg.empty) _ msg.empty b _ w3 refl
        (omega (arith, w.ephemeral, w.empty, w.mac1, w.mac2)) in
    let w5 =
      Written-next (12 + length msg.ephemeral + length msg.empty) (length msg.mac1) _ msg.mac1 b _
        w4 refl (omega (arith, w.ephemeral, w.empty, w.mac1, w.mac2)) in
    let w6 =
      Written-next (12 + length msg.ephemeral + length msg.empty + length msg.mac1)
        (length msg.mac2) _ msg.mac2 b _ w5 refl
        (omega (arith, w.ephemeral, w.empty, w.mac1, w.mac2)) in
    rw right (
      ap some (
        Written-all
          (12 + length msg.ephemeral + length msg.empty + length msg.mac1 + length msg.mac2) _ b _
          w6 (omega (arith, w.ephemeral, w.empty, w.mac1, w.mac2))
        ∙ simp append_assoc))

unmarshal_response-bytes :
    (msg old : MessageResponse) (b : Bytes)
    → SizedResponse msg
    → SizedResponse old
    → b ≡ bytes_response msg
    → unmarshal_response old b ≡ some msg
unfolding unmarshal_response bytes_response
unmarshal_response-bytes msg old b w v h =
    let d0 : drop 0 b
        ≡ le_bytes 4 msg.type
          ++ (le_bytes 4 msg.sender
              ++ (le_bytes 4 msg.receiver
                  ++ (msg.ephemeral ++ (msg.empty ++ (msg.mac1 ++ (msg.mac2)))))) =
      drop-zero b ∙ h in
    let d1 : drop 4 b
        ≡ le_bytes 4 msg.sender
          ++ (le_bytes 4 msg.receiver
              ++ (msg.ephemeral ++ (msg.empty ++ (msg.mac1 ++ (msg.mac2))))) =
      drop-next 0 4 b (le_bytes 4 msg.type)
        (le_bytes 4 msg.sender
          ++ (le_bytes 4 msg.receiver
              ++ (msg.ephemeral ++ (msg.empty ++ (msg.mac1 ++ (msg.mac2))))))
        d0 (length-le_bytes 4 msg.type) in
    let d2 : drop 8 b
        ≡ le_bytes 4 msg.receiver ++ (msg.ephemeral ++ (msg.empty ++ (msg.mac1 ++ (msg.mac2)))) =
      drop-next 4 4 b (le_bytes 4 msg.sender)
        (le_bytes 4 msg.receiver ++ (msg.ephemeral ++ (msg.empty ++ (msg.mac1 ++ (msg.mac2))))) d1
        (length-le_bytes 4 msg.sender) in
    let d3 : drop 12 b ≡ msg.ephemeral ++ (msg.empty ++ (msg.mac1 ++ (msg.mac2))) =
      drop-next 8 4 b (le_bytes 4 msg.receiver)
        (msg.ephemeral ++ (msg.empty ++ (msg.mac1 ++ (msg.mac2)))) d2
        (length-le_bytes 4 msg.receiver) in
    let d4 : drop (12 + length old.ephemeral) b ≡ msg.empty ++ (msg.mac1 ++ (msg.mac2)) =
      drop-next 12 (length old.ephemeral) b (msg.ephemeral) (msg.empty ++ (msg.mac1 ++ (msg.mac2)))
        d3 (w.ephemeral ∙ sym v.ephemeral) in
    let d5 : drop (12 + length old.ephemeral + length old.empty) b ≡ msg.mac1 ++ (msg.mac2) =
      drop-next (12 + length old.ephemeral) (length old.empty) b (msg.empty)
        (msg.mac1 ++ (msg.mac2)) d4 (w.empty ∙ sym v.empty) in
    let d6 : drop (12 + length old.ephemeral + length old.empty + length old.mac1) b ≡ msg.mac2 =
      drop-next (12 + length old.ephemeral + length old.empty) (length old.mac1) b (msg.mac1)
        (msg.mac2) d5 (w.mac1 ∙ sym v.mac1) in
    let last : drop (12 + length old.ephemeral + length old.empty + length old.mac1) b
        ≡ msg.mac2 ++ [] =
      d6 ∙ sym (append-nil msg.mac2) in
    let size : length b ≡ 92 =
      ap length h
      ∙ omega (
        arith,
        length-append (le_bytes 4 msg.type) (
            le_bytes 4 msg.sender
            ++ (le_bytes 4 msg.receiver
                ++ (msg.ephemeral ++ (msg.empty ++ (msg.mac1 ++ (msg.mac2)))))),
        length-append (le_bytes 4 msg.sender)
            (le_bytes 4 msg.receiver ++ (msg.ephemeral ++ (msg.empty ++ (msg.mac1 ++ (msg.mac2))))),
        length-append (le_bytes 4 msg.receiver)
            (msg.ephemeral ++ (msg.empty ++ (msg.mac1 ++ (msg.mac2)))),
        length-append (msg.ephemeral) (msg.empty ++ (msg.mac1 ++ (msg.mac2))),
        length-append (msg.empty) (msg.mac1 ++ (msg.mac2)),
        length-append (msg.mac1) (msg.mac2),
        length-le_bytes 4 msg.type,
        length-le_bytes 4 msg.sender,
        length-le_bytes 4 msg.receiver,
        w.ephemeral,
        w.empty,
        w.mac1,
        w.mac2,
      ) in
    let right : (length b == 92) ≡ true = ground arith in
    let e0 =
      le_number-field 0 4 msg.type b
        (le_bytes 4 msg.sender
          ++ (le_bytes 4 msg.receiver
              ++ (msg.ephemeral ++ (msg.empty ++ (msg.mac1 ++ (msg.mac2))))))
        d0 w.type in
    let e1 =
      le_number-field 4 4 msg.sender b
        (le_bytes 4 msg.receiver ++ (msg.ephemeral ++ (msg.empty ++ (msg.mac1 ++ (msg.mac2))))) d1
        w.sender in
    let e2 =
      le_number-field 8 4 msg.receiver b (msg.ephemeral ++ (msg.empty ++ (msg.mac1 ++ (msg.mac2))))
        d2 w.receiver in
    let e3 =
      copy-field 12 b msg.ephemeral (msg.empty ++ (msg.mac1 ++ (msg.mac2))) old.ephemeral d3
        (v.ephemeral ∙ sym w.ephemeral) in
    let e4 =
      copy-field (12 + length old.ephemeral) b msg.empty (msg.mac1 ++ (msg.mac2)) old.empty d4
        (v.empty ∙ sym w.empty) in
    let e5 =
      copy-field (12 + length old.ephemeral + length old.empty) b msg.mac1 (msg.mac2) old.mac1 d5
        (v.mac1 ∙ sym w.mac1) in
    let e6 =
      copy-field (12 + length old.ephemeral + length old.empty + length old.mac1) b msg.mac2 []
        old.mac2 last (v.mac2 ∙ sym w.mac2) in
    rw (right, e0, e1, e2, e3, e4, e5, e6) refl

-- A `MessageResponse` of the sizes of its fields, marshalled into 92 bytes and unmarshalled over
-- any such message, is the message again.
pub unmarshal-marshal_response :
    (msg old : MessageResponse) (b : Bytes)
    → SizedResponse msg
    → SizedResponse old
    → length b ≡ 92
    → (b' : Bytes) × (marshal_response msg b ≡ some b') × (unmarshal_response old b' ≡ some msg)
unmarshal-marshal_response msg old b w v h = (
  bytes_response msg,
  marshal_response-bytes msg b w h,
  unmarshal_response-bytes msg old (bytes_response msg) w v refl,
)
