-- ===== src/Replay/Calls.antt =====
-- The calls that a user of the filter of replay/replay.go makes.
use wgservermgr.Prelude.{ℕ}

pub data Call : Type 0 where
  resets : Call
  validates : ℕ → ℕ → Call
