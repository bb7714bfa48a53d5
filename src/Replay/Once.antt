-- ===== src/Replay/Once.antt =====
-- replay/replay.go: how often one counter is accepted.
use wgservermgr.Prelude.{
  ℕ, suc, ◌+◌, ◌≤◌, ◌≡◌, ◌&&◌, ◌==◌, if◌then◌else◌, arith, List, [], ◌∷◌, contains,
}
use wgservermgr.Replay.Calls.{Call, resets, validates}
use wgservermgr.Replay.History.{History, accepts, record_answer}
use wgservermgr.Replay.Refine.{Holds, Fits, validate_counter-Holds, reset-Holds, empty-Holds}
use wgservermgr.Replay.{Filter, empty, reset, validate_counter, window_size}

-- How many of the calls accept the counter `c`.
pub accepted : ℕ → Filter → List Call → ℕ
accepted c f [] = 0
accepted c f (resets ∷ cs) = accepted c (reset f) cs
accepted c f (validates d limit ∷ cs) =
    let (f', answer) = validate_counter f d limit in
    (if answer && d == c then 1 else 0) + accepted c f' cs

pub reset_count : List Call → ℕ
reset_count [] = 0
reset_count (resets ∷ cs) = suc (reset_count cs)
reset_count (validates c limit ∷ cs) = reset_count cs

abbrev seen : History → ℕ → ℕ
seen h c = if contains h c then 1 else 0

seen_le : (h : History) (c : ℕ) → seen h c ≤ 1
seen_le h c = ground arith

-- Accepting a counter makes it seen, and a counter that is seen is not accepted.
seen_after :
    (h : History) (c d limit : ℕ)
    → (if accepts window_size h d limit && d == c then 1 else 0) + seen h c
      ≡ seen (record_answer (accepts window_size h d limit) d h) c
unfolding accepts record_answer
seen_after h c d limit = ground arith

accepted-le :
    (c : ℕ) (f : Filter) (h : History) (cs : List Call)
    → Holds f h
    → Fits cs
    → accepted c f cs + seen h c ≤ suc (reset_count cs)
unfolding accepted reset_count
accepted-le c f h [] v s = ground arith
accepted-le c f h (resets ∷ cs) v s =
    omega (arith, accepted-le c (reset f) [] cs (reset-Holds f) s, seen_le h c)
accepted-le c f h (validates d limit ∷ cs) v s =
    let step = validate_counter-Holds f h d limit v s.0 in
    rw (step.0) (omega (arith, seen_after h c d limit, accepted-le c _ _ cs step.1 s.1))

-- From the empty filter, calls with counters of 64 bits accept a counter at most once, and once
-- more for each reset among them.
pub accepted_once : (c : ℕ) (cs : List Call) → Fits cs → accepted c empty cs ≤ suc (reset_count cs)
accepted_once c cs s = omega (arith, accepted-le c empty [] cs empty-Holds s)
