-- ===== src/Replay/Refine.antt =====
-- replay/replay.go implements the history of `Replay.History`.
use native.Mathlib.Decide.{dec_lt}
use wgservermgr.Prelude.{
  ℕ, ◌+◌, ◌-◌, ◌/◌, ◌%◌, ◌≤◌, ◌<◌, max, ◌≡◌, refl, sym, ◌∙◌, ap, ap₂, Bool, true, false, not, ◌||◌,
  ◌==◌, ltb, leb, arith, inl, inr, ◌⊎◌, Bool-cases, List, [], ◌∷◌, contains, greatest,
}
use wgservermgr.Prelude.Words.{add64, sub64, shr, u64_mod}
use wgservermgr.Prelude.Bits.{bit-zero}
use wgservermgr.Replay.Calls.{Call, resets, validates}
use wgservermgr.Replay.History
use wgservermgr.Replay.History.{History, accepts, record_answer}
use wgservermgr.Replay.Ring.{
  marked, clear-hit, clear-miss, check_and_set_answer, marked-check_and_set,
}
use wgservermgr.Replay.{
  Filter, empty, ring_blocks, window_size, clear, reset, check_and_set, advance, validate_counter,
  run,
}

contains-le-greatest : (h : History) (c : ℕ) → contains h c ≡ true → c ≤ greatest h
contains-le-greatest [] c e = ground arith
contains-le-greatest (x ∷ h) c e = ground (arith, contains-le-greatest h c)

contains_above : (h : History) (c : ℕ) → greatest h < c → contains h c ≡ false
contains_above h c p = elim (Bool-cases (contains h c)) [
  | inl e ↦ absurd (omega (arith, contains-le-greatest h c e))
  | inr e ↦ e
]

-- The filter stands for the history: of the counters in the 128 blocks up to the last one, those
-- marked are those accepted.
pub record Holds (f : Filter) (h : History) : Type 0 where
  pub last_is : f.last ≡ greatest h
  pub fits : f.last < u64_mod
  pub marks :
      (c : ℕ)
      → c / 64 ≤ f.last / 64
      → f.last / 64 < c / 64 + ring_blocks
      → marked f.ring c ≡ contains h c

pub reset-Holds : (f : Filter) → Holds (reset f) []
unfolding reset
reset-Holds f = record {
  last_is = refl;
  fits = omega arith;
  marks = λ c p q. ground (arith, bit-zero (c % 64));
}

pub empty-Holds : Holds empty []
empty-Holds = record { last_is = refl; fits = omega arith; marks = λ c p q. bit-zero (c % 64) }

-- A whole round of the ring leaves no word.
clear_round :
    (i : ℕ) (ring : ℕ → ℕ) (b : ℕ)
    → i + ring_blocks < u64_mod
    → i ≤ b
    → clear ring_blocks i ring (b % ring_blocks) ≡ 0
clear_round i ring b s p =
    let b' = i + (b - i) % 128 in
    let same : b' % 128 ≡ b % 128 = omega arith in
    ap (clear ring_blocks i ring) (sym same)
    ∙ clear-hit ring_blocks i ring b' s (omega arith) (omega arith)

-- Moving the window.
module _ (f : Filter) (c : ℕ) (above : f.last < c) (small : c < u64_mod) where
  from : add64 (shr f.last 6) 1 ≡ f.last / 64 + 1
  from = omega arith

  blocks : sub64 (shr c 6) (shr f.last 6) ≡ c / 64 - f.last / 64
  blocks = omega arith

  -- Moving the window clears the words of the blocks that come into it,
  cleared :
      (d : ℕ)
      → f.last / 64 < d / 64
      → d / 64 ≤ c / 64
      → c / 64 < d / 64 + ring_blocks
      → (advance f c).ring (d / 64 % ring_blocks) ≡ 0
  unfolding advance
  cleared d p q r = elim (Bool-cases (ltb ring_blocks (c / 64 - f.last / 64))) [
    | inl far ↦
        rw (from, blocks, far)
          (clear_round (f.last / 64 + 1) f.ring (d / 64) (omega arith) (omega arith))
    | inr near ↦
        rw (from, blocks, near)
          (clear-hit (c / 64 - f.last / 64) (f.last / 64 + 1) f.ring (d / 64) (omega arith)
            (omega arith) (omega arith))
  ]

  -- and leaves those of the blocks that stay in it.
  kept :
      (d : ℕ)
      → d / 64 ≤ f.last / 64
      → c / 64 < d / 64 + ring_blocks
      → (advance f c).ring (d / 64 % ring_blocks) ≡ f.ring (d / 64 % ring_blocks)
  unfolding advance
  kept d p q = elim (Bool-cases (ltb ring_blocks (c / 64 - f.last / 64))) [
    | inl far ↦ absurd (ground arith)
    | inr near ↦
        rw (from, blocks, near)
          (clear-miss (c / 64 - f.last / 64) (f.last / 64 + 1) f.ring (d / 64) (omega arith)
            (omega arith) (omega arith))
  ]

  advance-marks :
      (h : History) (v : Holds f h) (d : ℕ)
      → d / 64 ≤ c / 64
      → c / 64 < d / 64 + ring_blocks
      → marked (advance f c).ring d ≡ contains h d
  advance-marks h v d p q = elim (dec_lt (f.last / 64) (d / 64)) [
    | yes new ↦
        rw (cleared d new p q, bit-zero (d % 64))
          (sym (contains_above h d (omega (arith, v.last_is))))
    | no old ↦ rw (kept d (omega arith) q) (v.marks d (omega arith) (omega arith))
  ]

check_and_set-last : (f : Filter) (c : ℕ) → (check_and_set f c).0.last ≡ f.last
unfolding check_and_set
check_and_set-last f c = refl

-- `check_and_set` of a counter in the window of a filter whose marks are those of the history.
module _ (f : Filter) (h : History) (c : ℕ) (fits : f.last < u64_mod) (below : c ≤ f.last)
    (near : f.last / 64 < c / 64 + ring_blocks)
    (marks : (d : ℕ)
      → d / 64 ≤ f.last / 64
      → f.last / 64 < d / 64 + ring_blocks
      → marked f.ring d ≡ contains h d) where
  answer_new : (check_and_set f c).1 ≡ not (contains h c)
  answer_new = rw (check_and_set_answer f c) (ap not (marks c (omega arith) near))

  marks_set :
      (d : ℕ)
      → d / 64 ≤ f.last / 64
      → f.last / 64 < d / 64 + ring_blocks
      → marked (check_and_set f c).0.ring d ≡ (d == c) || contains h d
  marks_set d p q =
      marked-check_and_set f c d (omega arith) (omega arith) ∙ ap (◌||◌ (d == c)) (marks d p q)

  check_and_set-Holds :
      f.last ≡ max c (greatest h)
      → Holds (check_and_set f c).0 (record_answer (not (contains h c)) c h)
  unfolding record_answer
  check_and_set-Holds last_is = elim (Bool-cases (contains h c)) [
    | inl old ↦ rw old (record {
      last_is = rw (check_and_set-last f c) (omega (arith, contains-le-greatest h c old));
      fits = rw (check_and_set-last f c) fits;
      marks = λ d p q.
          rw
            (marks_set d (ground (arith, check_and_set-last f c))
              (ground (arith, check_and_set-last f c)))
            (ground (arith, old));
    })
    | inr new ↦ rw new (record {
      last_is = rw (check_and_set-last f c) last_is;
      fits = rw (check_and_set-last f c) fits;
      marks = λ d p q.
          marks_set d (ground (arith, check_and_set-last f c))
            (ground (arith, check_and_set-last f c));
    })
  ]

accepts_in_window :
    (h : History) (c limit : ℕ)
    → c < limit
    → greatest h ≤ c + window_size
    → accepts window_size h c limit ≡ not (contains h c)
unfolding accepts
accepts_in_window h c limit p q = ground arith

-- What one call of `ValidateCounter` has to leave.
abbrev Answers : History → ℕ → ℕ → Filter × Bool → Type 0
Answers h c limit r =
    (r.1 ≡ accepts window_size h c limit)
    × Holds r.0 (record_answer (accepts window_size h c limit) c h)

module _ (f : Filter) (h : History) (c limit : ℕ) (v : Holds f h) (small : c < u64_mod) where
  refused : leb limit c ≡ true ⊎ c + window_size < greatest h → Answers h c limit (f, false)
  unfolding accepts record_answer
  refused (inl over) = (ground arith, ground arith)
  refused (inr late) = (ground arith, ground arith)

  ahead-Answers : c < limit → f.last < c → Answers h c limit (check_and_set (advance f c) c)
  unfolding advance
  ahead-Answers p q = rw (accepts_in_window h c limit p (omega (arith, v.last_is))) (
    answer_new (advance f c) h c small (omega arith) (omega arith) (advance-marks f c q small h v),
    check_and_set-Holds (advance f c) h c small (omega arith) (omega arith)
        (advance-marks f c q small h v) (omega (arith, v.last_is)),
  )

  near-Answers :
      c < limit → c ≤ f.last → f.last ≤ c + window_size → Answers h c limit (check_and_set f c)
  near-Answers p q r = rw (accepts_in_window h c limit p (omega (arith, v.last_is))) (
    answer_new f h c v.fits q (omega arith) v.marks,
    check_and_set-Holds f h c v.fits q (omega arith) v.marks (omega (arith, v.last_is)),
  )

-- One call answers as the history does, and the filter then stands for the new history.
pub validate_counter-Holds :
    (f : Filter) (h : History) (c limit : ℕ)
    → Holds f h
    → c < u64_mod
    → Answers h c limit (validate_counter f c limit)
unfolding validate_counter
validate_counter-Holds f h c limit v small = elim (Bool-cases (leb limit c)) [
  | inl over ↦ rw over (refused f h c limit v small (inl over))
  | inr under ↦ elim (Bool-cases (ltb f.last c)) [
    | inl ahead ↦
        rw (under, ahead) (ahead-Answers f h c limit v small (ground arith) (ground arith))
    | inr behind ↦ elim (Bool-cases (ltb window_size (sub64 f.last c))) [
      | inl late ↦
          rw (under, behind, late)
            (refused f h c limit v small (inr (ground (arith, v.last_is, v.fits))))
      | inr near ↦
          rw (under, behind, near)
            (near-Answers f h c limit v small (ground arith) (ground arith)
              (ground (arith, v.fits)))
    ]
  ]
]

-- Every counter that is passed is a `uint64`.
abbrev pub Fits : List Call → Type 0
Fits [] = Unit {0}
Fits (resets ∷ cs) = Fits cs
Fits (validates c limit ∷ cs) = (c < u64_mod) × Fits cs

pub run-Holds :
    (f : Filter) (h : History) (cs : List Call)
    → Holds f h
    → Fits cs
    → run f cs ≡ History.run window_size h cs
unfolding run History.run
run-Holds f h [] v s = refl
run-Holds f h (resets ∷ cs) v s = run-Holds (reset f) [] cs (reset-Holds f) s
run-Holds f h (validates c limit ∷ cs) v s =
    let step = validate_counter-Holds f h c limit v s.0 in
    ap₂ ◌∷◌ step.0 (run-Holds _ _ cs step.1 s.1)

-- A filter that starts empty, and any that was reset, answers any sequence of calls with counters
-- of 64 bits as the history does: a counter is accepted if and only if it is below its limit, at
-- most 8128 behind the greatest counter accepted since the last reset, and not one of those.
pub run_refines :
    (f : Filter) (cs : List Call)
    → Fits cs
    → (run (reset f) cs ≡ History.run window_size [] cs)
      × (run empty cs ≡ History.run window_size [] cs)
run_refines f cs s =
    (run-Holds (reset f) [] cs (reset-Holds f) s, run-Holds empty [] cs empty-Holds s)
