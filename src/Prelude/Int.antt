-- ===== src/Prelude/Int.antt =====
-- Signed integers over the native numbers, and Go's `int64`, whose operations wrap round.
use Prim.Native.Nat.{ℕ, suc, ◌+◌, ◌-◌, ◌*◌, ◌%◌, ◌^◌, ◌≤◌, ◌<◌}
use mathlib.Core.Path.{◌≡◌}
use mathlib.Core.Bool.{Bool, ◌&&◌}
use native.Mathlib.Omega.{arith}
use wgservermgr.Prelude.Tests.{ltb, leb, if◌then◌else◌}

-- `negsuc n` is -(n + 1).
pub data ℤ : Type 0 where
  pos : ℕ → ℤ
  negsuc : ℕ → ℤ

abbrev pub pos_part : ℤ → ℕ
pos_part (pos n) = n
pos_part (negsuc n) = 0

abbrev pub neg_part : ℤ → ℕ
neg_part (pos n) = 0
neg_part (negsuc n) = suc n

-- a - b, as an integer.
abbrev pub sub_ℕ : ℕ → ℕ → ℤ
sub_ℕ a b = if leb b a then pos (a - b) else negsuc (b - a - 1)

infixl 65 ◌+ℤ◌ ◌-ℤ◌
abbrev pub ◌+ℤ◌ : ℤ → ℤ → ℤ
a +ℤ b = sub_ℕ (pos_part a + pos_part b) (neg_part a + neg_part b)

abbrev pub ◌-ℤ◌ : ℤ → ℤ → ℤ
a -ℤ b = sub_ℕ (pos_part a + neg_part b) (neg_part a + pos_part b)

abbrev pub ltb_ℤ : ℤ → ℤ → Bool
ltb_ℤ a b = ltb (pos_part a + neg_part b) (pos_part b + neg_part a)

abbrev pub leb_ℤ : ℤ → ℤ → Bool
leb_ℤ a b = leb (pos_part a + neg_part b) (pos_part b + neg_part a)

abbrev pub i64_half : ℕ
i64_half = 2 ^ 63

-- The bit pattern of 64 bits read as a signed number.
abbrev pub to_signed : ℕ → ℤ
to_signed u = if ltb u i64_half then pos u else negsuc (2 ^ 64 - u - 1)

-- The `int64` that stands for an integer modulo 2 ^ 64.
unfoldable pub wrap : ℤ → ℤ
wrap z = to_signed ((pos_part z + (2 ^ 64 - neg_part z % 2 ^ 64)) % 2 ^ 64)

pub add_int64 : ℤ → ℤ → ℤ
unfolding wrap
add_int64 a b = wrap (a +ℤ b)

pub sub_int64 : ℤ → ℤ → ℤ
unfolding wrap
sub_int64 a b = wrap (a -ℤ b)

pub wrap-pos : (n : ℕ) → n < i64_half → wrap (pos n) ≡ pos n
unfolding wrap
wrap-pos n h = ground arith

pub add_int64-pos : (a b : ℕ) → a + b < i64_half → add_int64 (pos a) (pos b) ≡ pos (a + b)
unfolding add_int64
add_int64-pos a b h = ground arith

pub sub_int64-pos : (a b : ℕ) → b ≤ a → a < i64_half → sub_int64 (pos a) (pos b) ≡ pos (a - b)
unfolding sub_int64
sub_int64-pos a b h k = ground arith

-- `t.Sub(u)` of two clock readings in nanoseconds: a `time.Duration`, which stops at the ends of
-- the `int64` range.
pub sub_time : ℕ → ℕ → ℤ
sub_time t u =
    if leb u t
    then (if ltb (t - u) i64_half then pos (t - u) else pos (i64_half - 1))
    else if leb (u - t) i64_half
    then negsuc (u - t - 1)
    else negsuc (i64_half - 1)

pub sub_time_ordered : (t u : ℕ) → u ≤ t → t < i64_half → sub_time t u ≡ pos (t - u)
unfolding sub_time
sub_time_ordered t u h k = ground arith

-- k times an integer.
abbrev pub scale : ℕ → ℤ → ℤ
scale k a = sub_ℕ (k * pos_part a) (k * neg_part a)

abbrev pub eqb_ℤ : ℤ → ℤ → Bool
eqb_ℤ a b = leb_ℤ a b && leb_ℤ b a
