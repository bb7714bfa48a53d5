-- ===== src/Device/Noise/Messages/Initiation.antt =====
-- device/noise-protocol.go: MessageInitiation, unmarshalled as it was marshalled.
use wgservermgr.Prelude.{
  ◌+◌, ◌^◌, ◌<◌, ◌≡◌, refl, sym, ap, ◌∙◌, true, some, ◌==◌, length, arith, ◌++◌, [],
}
use mathlib.Core.List.{append_assoc, append-nil}
use wgservermgr.Prelude.Bytes.{
  Bytes, drop, le_bytes, Written-first, Written-next, Written-all, drop-next, copy-field,
  le_number-field, length-le_bytes, length-append, drop-zero,
}
use wgservermgr.Device.Noise.Messages.{MessageInitiation, marshal_initiation, unmarshal_initiation}

-- The arrays have the lengths of their types, and the words 32 bits.
pub record SizedInitiation (msg : MessageInitiation) : Type 0 where
  pub type : msg.type < 2 ^ 32
  pub sender : msg.sender < 2 ^ 32
  pub ephemeral : length msg.ephemeral ≡ 32
  pub static : length msg.static ≡ 48
  pub timestamp : length msg.timestamp ≡ 28
  pub mac1 : length msg.mac1 ≡ 16
  pub mac2 : length msg.mac2 ≡ 16

-- The bytes of a message.
unfoldable pub bytes_initiation : MessageInitiation → Bytes
bytes_initiation msg =
    le_bytes 4 msg.type
    ++ (le_bytes 4 msg.sender
        ++ (msg.ephemeral ++ (msg.static ++ (msg.timestamp ++ (msg.mac1 ++ (msg.mac2))))))

marshal_initiation-bytes :
    (msg : MessageInitiation) (b : Bytes)
    → SizedInitiation msg
    → length b ≡ 148
    → marshal_initiation msg b ≡ some (bytes_initiation msg)
unfolding marshal_initiation bytes_initiation
marshal_initiation-bytes msg b w h =
    let right : (length b == 148) ≡ true = ground arith in
    let w0 = Written-first (le_bytes 4 msg.type) b 4 (length-le_bytes 4 msg.type) (omega arith) in
    let w1 =
      Written-next 4 4 _ (le_bytes 4 msg.sender) b _ w0 (length-le_bytes 4 msg.sender)
        (omega arith) in
    let w2 =
      Written-next 8 (length msg.ephemeral) _ msg.ephemeral b _ w1 refl
        (omega (arith, w.ephemeral, w.static, w.timestamp, w.mac1, w.mac2)) in
    let w3 =
      Written-next (8 + length msg.ephemeral) (length msg.static) _ msg.static b _ w2 refl
        (omega (arith, w.ephemeral, w.static, w.timestamp, w.mac1, w.mac2)) in
    let w4 =
      Written-next (8 + length msg.ephemeral + length msg.static) (length msg.timestamp) _
        msg.timestamp b _ w3 refl
        (omega (arith, w.ephemeral, w.static, w.timestamp, w.mac1, w.mac2)) in
    let w5 =
      Written-next (8 + length msg.ephemeral + length msg.static + length msg.timestamp)
        (length msg.mac1) _ msg.mac1 b _ w4 refl
        (omega (arith, w.ephemeral, w.static, w.timestamp, w.mac1, w.mac2)) in
    let w6 =
      Written-next
        (8 + length msg.ephemeral + length msg.static + length msg.timestamp + length msg.mac1)
        (length msg.mac2) _ msg.mac2 b _ w5 refl
        (omega (arith, w.ephemeral, w.static, w.timestamp, w.mac1, w.mac2)) in
    rw right (
      ap some (
        Written-all
          (8
            + length msg.ephemeral
            + length msg.static
            + length msg.timestamp
            + length msg.mac1
            + length msg.mac2)
          _ b _ w6 (omega (arith, w.ephemeral, w.static, w.timestamp, w.mac1, w.mac2))
        ∙ simp append_assoc))

unmarshal_initiation-bytes :
    (msg old : MessageInitiation) (b : Bytes)
    → SizedInitiation msg
    → SizedInitiation old
    → b ≡ bytes_initiation msg
    → unmarshal_initiation old b ≡ some msg
unfolding unmarshal_initiation bytes_initiation
unmarshal_initiation-bytes msg old b w v h =
    let d0 : drop 0 b
        ≡ le_bytes 4 msg.type
          ++ (le_bytes 4 msg.sender
              ++ (msg.ephemeral ++ (msg.static ++ (msg.timestamp ++ (msg.mac1 ++ (msg.mac2)))))) =
      drop-zero b ∙ h in
    let d1 : drop 4 b
        ≡ le_bytes 4 msg.sender
          ++ (msg.ephemeral ++ (msg.static ++ (msg.timestamp ++ (msg.mac1 ++ (msg.mac2))))) =
      drop-next 0 4 b (le_bytes 4 msg.type)
        (le_bytes 4 msg.sender
          ++ (msg.ephemeral ++ (msg.static ++ (msg.timestamp ++ (msg.mac1 ++ (msg.mac2))))))
        d0 (length-le_bytes 4 msg.type) in
    let d2 : drop 8 b
        ≡ msg.ephemeral ++ (msg.static ++ (msg.timestamp ++ (msg.mac1 ++ (msg.mac2)))) =
      drop-next 4 4 b (le_bytes 4 msg.sender)
        (msg.ephemeral ++ (msg.static ++ (msg.timestamp ++ (msg.mac1 ++ (msg.mac2))))) d1
        (length-le_bytes 4 msg.sender) in
    let d3 : drop (8 + length old.ephemeral) b
        ≡ msg.static ++ (msg.timestamp ++ (msg.mac1 ++ (msg.mac2))) =
      drop-next 8 (length old.ephemeral) b (msg.ephemeral)
        (msg.static ++ (msg.timestamp ++ (msg.mac1 ++ (msg.mac2)))) d2
        (w.ephemeral ∙ sym v.ephemeral) in
    let d4 : drop (8 + length old.ephemeral + length old.static) b
        ≡ msg.timestamp ++ (msg.mac1 ++ (msg.mac2)) =
      drop-next (8 + length old.ephemeral) (length old.static) b (msg.static)
        (msg.timestamp ++ (msg.mac1 ++ (msg.mac2))) d3 (w.static ∙ sym v.static) in
    let d5 : drop (8 + length old.ephemeral + length old.static + length old.timestamp) b
        ≡ msg.mac1 ++ (msg.mac2) =
      drop-next (8 + length old.ephemeral + length old.static) (length old.timestamp) b
        (msg.timestamp) (msg.mac1 ++ (msg.mac2)) d4 (w.timestamp ∙ sym v.timestamp) in
    let d6 : drop
          (8 + length old.ephemeral + length old.static + length old.timestamp + length old.mac1) b
        ≡ msg.mac2 =
      drop-next (8 + length old.ephemeral + length old.static + length old.timestamp)
        (length old.mac1) b (msg.mac1) (msg.mac2) d5 (w.mac1 ∙ sym v.mac1) in
    let last : drop
          (8 + length old.ephemeral + length old.static + length old.timestamp + length old.mac1) b
        ≡ msg.mac2 ++ [] =
      d6 ∙ sym (append-nil msg.mac2) in
    let size : length b ≡ 148 =
      ap length h
      ∙ omega (
        arith,
        length-append (le_bytes 4 msg.type) (
            le_bytes 4 msg.sender
            ++ (msg.ephemeral ++ (msg.static ++ (msg.timestamp ++ (msg.mac1 ++ (msg.mac2)))))),
        length-append (le_bytes 4 msg.sender)
            (msg.ephemeral ++ (msg.static ++ (msg.timestamp ++ (msg.mac1 ++ (msg.mac2))))),
        length-append (msg.ephemeral) (msg.static ++ (msg.timestamp ++ (msg.mac1 ++ (msg.mac2)))),
        length-append (msg.static) (msg.timestamp ++ (msg.mac1 ++ (msg.mac2))),
        length-append (msg.timestamp) (msg.mac1 ++ (msg.mac2)),
        length-append (msg.mac1) (msg.mac2),
        length-le_bytes 4 msg.type,
        length-le_bytes 4 msg.sender,
        w.ephemeral,
        w.static,
        w.timestamp,
        w.mac1,
        w.mac2,
      ) in
    let right : (length b == 148) ≡ true = ground arith in
    let e0 =
      le_number-field 0 4 msg.type b
        (le_bytes 4 msg.sender
          ++ (msg.ephemeral ++ (msg.static ++ (msg.timestamp ++ (msg.mac1 ++ (msg.mac2))))))
        d0 w.type in
    let e1 =
      le_number-field 4 4 msg.sender b
        (msg.ephemeral ++ (msg.static ++ (msg.timestamp ++ (msg.mac1 ++ (msg.mac2))))) d1
        w.sender in
    let e2 =
      copy-field 8 b msg.ephemeral (msg.static ++ (msg.timestamp ++ (msg.mac1 ++ (msg.mac2))))
        old.ephemeral d2 (v.ephemeral ∙ sym w.ephemeral) in
    let e3 =
      copy-field (8 + length old.ephemeral) b msg.static (msg.timestamp ++ (msg.mac1 ++ (msg.mac2)))
        old.static d3 (v.static ∙ sym w.static) in
    let e4 =
      copy-field (8 + length old.ephemeral + length old.static) b msg.timestamp
        (msg.mac1 ++ (msg.mac2)) old.timestamp d4 (v.timestamp ∙ sym w.timestamp) in
    let e5 =
      copy-field (8 + length old.ephemeral + length old.static + length old.timestamp) b msg.mac1
        (msg.mac2) old.mac1 d5 (v.mac1 ∙ sym w.mac1) in
    let e6 =
      copy-field
        (8 + length old.ephemeral + length old.static + length old.timestamp + length old.mac1) b
        msg.mac2 [] old.mac2 last (v.mac2 ∙ sym w.mac2) in
    rw (right, e0, e1, e2, e3, e4, e5, e6) refl

-- A `MessageInitiation` of the sizes of its fields, marshalled into 148 bytes and unmarshalled
-- over any such message, is the message again.
pub unmarshal-marshal_initiation :
    (msg old : MessageInitiation) (b : Bytes)
    → SizedInitiation msg
    → SizedInitiation old
    → length b ≡ 148
    → (b' : Bytes) × (marshal_initiation msg b ≡ some b') × (unmarshal_initiation old b' ≡ some msg)
unmarshal-marshal_initiation msg old b w v h = (
  bytes_initiation msg,
  marshal_initiation-bytes msg b w h,
  unmarshal_initiation-bytes msg old (bytes_initiation msg) w v refl,
)
