-- ===== src/Tai64n.antt =====
-- tai64n/tai64n.go: the timestamps of the handshake. A time is its Unix seconds, an `int64`, and the
-- nanosecond in its second.
pub mod Order
mod Examples
use Prim.Native.Nat.{bit_and}
use wgservermgr.Prelude.{
  ℕ, ◌+◌, ◌-◌, ◌*◌, ◌/◌, ◌%◌, ◌^◌, Bool, true, false, ◌&&◌, ◌||◌, ◌==◌, ltb, List, [], ◌∷◌, ◌++◌,
}
use wgservermgr.Prelude.Words.{add64}
use wgservermgr.Prelude.Int.{ℤ, pos_part, neg_part}
use wgservermgr.Prelude.Bytes.{Bytes, be_bytes, copy_at, zeros}

abbrev pub timestamp_size : ℕ
timestamp_size = 12

abbrev pub base : ℕ
base = 0x400000000000000a

abbrev pub whitener_mask : ℕ
whitener_mask = 0x1000000 - 1

pub record UnixTime : Type 0 where
  pub unix : ℤ
  pub nanosecond : ℕ

-- `uint64(i)`
abbrev pub to_uint64 : ℤ → ℕ
to_uint64 i = (pos_part i + (2 ^ 64 - neg_part i % 2 ^ 64)) % 2 ^ 64

-- `x &^ mask` on 32 bits.
abbrev pub and_not : ℕ → ℕ → ℕ
and_not x mask = bit_and x (2 ^ 32 - 1 - mask)

unfoldable pub stamp : UnixTime → Bytes
stamp t =
    let secs = add64 base (to_uint64 t.unix) in
    let nano = and_not t.nanosecond whitener_mask in
    copy_at 8 (be_bytes 4 nano) (copy_at 0 (be_bytes 8 secs) (zeros timestamp_size))

-- `bytes.Compare(a, b) > 0`
unfoldable pub bytes_after : Bytes → Bytes → Bool
bytes_after [] b = false
bytes_after (x ∷ a) [] = true
bytes_after (x ∷ a) (y ∷ b) = ltb y x || (x == y && bytes_after a b)

-- `t1.After(t2)`
abbrev pub after : Bytes → Bytes → Bool
after t1 t2 = bytes_after t1 t2
