-- ===== src/Mgmt/Time.antt =====
-- What mgmt/ uses of Go's package `time`. A `Time` counts nanoseconds from the zero time, 1 January
-- of the year 1, and is not bounded; a `Duration` is an `int64` of nanoseconds.
pub mod Order
use wgservermgr.Prelude.{ℕ, ◌+◌, ◌-◌, ◌*◌, Bool, if◌then◌else◌}
use wgservermgr.Prelude.Int.{ℤ, pos, negsuc, ◌+ℤ◌, ◌-ℤ◌, ltb_ℤ, eqb_ℤ, scale, wrap, i64_half}

abbrev pub Time : Type 0
Time = ℤ

abbrev pub Duration : Type 0
Duration = ℤ

abbrev pub zero_time : Time
zero_time = pos 0

abbrev pub second : ℕ
second = 1_000_000_000

-- The seconds from the zero time to the start of Unix time.
abbrev pub unix_epoch : ℕ
unix_epoch = 62_135_596_800

-- `time.Unix(sec, nsec)`
unfoldable pub unix : ℤ → ℤ → Time
unix sec nsec = scale second (sec +ℤ pos unix_epoch) +ℤ nsec

-- `t.IsZero()`
unfoldable pub is_zero : Time → Bool
is_zero t = eqb_ℤ t zero_time

-- `t.After(u)`
unfoldable pub after : Time → Time → Bool
after t u = ltb_ℤ u t

-- A difference, cut off at the ends of the range of an `int64`.
unfoldable pub saturate : ℤ → Duration
saturate d =
    if ltb_ℤ (pos (i64_half - 1)) d
    then pos (i64_half - 1)
    else if ltb_ℤ d (negsuc (i64_half - 1))
    then negsuc (i64_half - 1)
    else d

-- `t.Sub(u)`
unfoldable pub sub : Time → Time → Duration
unfolding saturate
sub t u = saturate (t -ℤ u)

-- `time.Duration(n) * time.Second` for an `int` n.
unfoldable pub seconds : ℤ → Duration
unfolding wrap
seconds n = wrap (scale second n)
