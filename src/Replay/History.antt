-- ===== src/Replay/History.antt =====
-- What an anti-replay filter promises, in terms of the counters it accepted since the last reset.
use wgservermgr.Prelude.{
  ℕ, ◌+◌, Bool, true, false, not, ltb, leb, ◌&&◌, List, [], ◌∷◌, contains, greatest,
}
use wgservermgr.Replay.Calls.{Call, resets, validates}

-- The accepted counters, newest first.
abbrev pub History : Type 0
History = List ℕ

-- A counter is fresh if it is below the limit, at most `window` behind the greatest accepted
-- counter, and was not accepted before.
unfoldable pub accepts : ℕ → History → ℕ → ℕ → Bool
accepts window h counter limit =
    ltb counter limit && leb (greatest h) (counter + window) && not (contains h counter)

unfoldable pub record_answer : Bool → ℕ → History → History
record_answer true counter h = counter ∷ h
record_answer false counter h = h

unfoldable pub run : ℕ → History → List Call → List Bool
run window h [] = []
run window h (resets ∷ cs) = run window [] cs
run window h (validates counter limit ∷ cs) =
    let answer = accepts window h counter limit in
    answer ∷ run window (record_answer answer counter h) cs
