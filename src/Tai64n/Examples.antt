-- ===== src/Tai64n/Examples.antt =====
-- Runs of the timestamps of tai64n/tai64n.go, and the theorem at a concrete input.
use wgservermgr.Prelude.{◌≡◌, refl, true, ltb, [], ◌∷◌, arith}
use wgservermgr.Prelude.Int.{pos, negsuc}
use wgservermgr.Prelude.Bytes.{copy_at, copy, be_bytes}
use wgservermgr.Tai64n.{stamp, after, bytes_after}
use wgservermgr.Tai64n.Order.{ticks, after-stamp}

stamp-run :
    stamp (record { unix = pos 1_700_000_000; nanosecond = 999_999_999 })
    ≡ 0x40 ∷ 0 ∷ 0 ∷ 0 ∷ 0x65 ∷ 0x53 ∷ 0xf1 ∷ 0x0a ∷ 0x3b ∷ 0 ∷ 0 ∷ 0 ∷ []
unfolding stamp copy_at copy be_bytes
stamp-run = refl

-- A second before 1970.
stamp_before-run :
    after
      (stamp (record { unix = pos 0; nanosecond = 0 }))
      (stamp (record { unix = negsuc 0; nanosecond = 0 }))
    ≡ true
unfolding stamp copy_at copy be_bytes bytes_after
stamp_before-run = refl

after-stamp_example :
    after
      (stamp (record { unix = pos 1_700_000_000; nanosecond = 20_000_000 }))
      (stamp (record { unix = pos 1_700_000_000; nanosecond = 16_000_000 }))
    ≡ ltb (ticks 1_700_000_000 16_000_000) (ticks 1_700_000_000 20_000_000)
after-stamp_example =
    after-stamp 1_700_000_000 20_000_000 1_700_000_000 16_000_000 (omega arith) (omega arith)
      (omega arith) (omega arith)
