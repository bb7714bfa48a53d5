-- ===== src/Replay/Examples.antt =====
-- Runs of the filter of replay/replay.go, and its theorems at concrete inputs.
use wgservermgr.Prelude.{◌≡◌, refl, arith, true, false, List, [], ◌∷◌, ◌≤◌, suc}
use wgservermgr.Replay.Calls.{Call, resets, validates}
use wgservermgr.Replay.History
use wgservermgr.Replay.Refine.{run_refines}
use wgservermgr.Replay.Once.{accepted, reset_count, accepted_once}
use wgservermgr.Replay.{
  empty, reset, run, window_size, validate_counter, check_and_set, advance, clear,
}

-- Forward by one block, a replay, the oldest counter of the window, one that is too old, a limit,
-- and the same counter after a reset.
abbrev script : List Call
script =
    validates 0 100000
    ∷ validates 70 100000
    ∷ validates 70 100000
    ∷ validates 8198 100000
    ∷ validates 71 100000
    ∷ validates 69 100000
    ∷ validates 100000 100000
    ∷ resets
    ∷ validates 70 100000
    ∷ []

run-script : run empty script ≡ true ∷ true ∷ false ∷ true ∷ true ∷ false ∷ false ∷ true ∷ []
unfolding run validate_counter check_and_set advance clear reset
run-script = refl

run_refines_example :
    (run (reset empty) script ≡ History.run window_size [] script)
    × (run empty script ≡ History.run window_size [] script)
run_refines_example = run_refines empty script (omega arith)

accepted_once_example : accepted 70 empty script ≤ suc (reset_count script)
accepted_once_example = accepted_once 70 script (omega arith)
