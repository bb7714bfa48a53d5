-- ===== src/Mgmt/Time/Order.antt =====
-- How the time since an event depends on the event.
use wgservermgr.Prelude.{◌+◌, ◌≤◌, ◌≡◌, true, arith}
use wgservermgr.Prelude.Int.{ℤ, leb_ℤ, ltb_ℤ, ◌-ℤ◌, pos_part, neg_part}
use wgservermgr.Mgmt.Time.{Time, after, sub, saturate}

abbrev ◌≤ℤ◌ : ℤ → ℤ → Type 0
◌≤ℤ◌ a b = pos_part a + neg_part b ≤ pos_part b + neg_part a

saturate_mono : (x y : ℤ) → ◌≤ℤ◌ x y → leb_ℤ (saturate x) (saturate y) ≡ true
unfolding saturate
saturate_mono x y h = ground arith

diff-anti : (t u v : Time) → ltb_ℤ u v ≡ true → ◌≤ℤ◌ (t -ℤ v) (t -ℤ u)
diff-anti t u v h = ground arith

-- Less time has passed since the later of two events.
pub sub-after : (t u v : Time) → after v u ≡ true → leb_ℤ (sub t v) (sub t u) ≡ true
unfolding after sub
sub-after t u v h = saturate_mono (t -ℤ v) (t -ℤ u) (diff-anti t u v h)
