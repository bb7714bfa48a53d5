-- ===== src/Replay.antt =====
-- replay/replay.go: the anti-replay filter of RFC 6479, a ring of 128 words of 64 bits.
-- The array `ring` is a function of its index; every index is masked to 0..127. The children hold
-- the specification by history, and the proof that the filter implements it.
pub mod Calls
pub mod History
pub mod Ring
pub mod Refine
pub mod Once
mod Examples
use Calls.{Call, resets, validates}
use Prim.Native.Nat.{bit_and, bit_or}
use wgservermgr.Prelude.{
  ℕ, zero, suc, ◌+◌, ◌-◌, ◌^◌, ◌*◌, Bool, true, false, not, ◌==◌, ltb, leb, if◌then◌else◌, update,
  List, [], ◌∷◌,
}
use wgservermgr.Prelude.Words.{add64, sub64, shl64, shr}

abbrev pub block_bit_log : ℕ
block_bit_log = 6

abbrev pub block_bits : ℕ
block_bits = 2 ^ block_bit_log

abbrev pub ring_blocks : ℕ
ring_blocks = 2 ^ 7

abbrev pub window_size : ℕ
window_size = (ring_blocks - 1) * block_bits

abbrev pub block_mask : ℕ
block_mask = ring_blocks - 1

abbrev pub bit_mask : ℕ
bit_mask = block_bits - 1

pub record Filter : Type 0 where
  pub last : ℕ
  pub ring : ℕ → ℕ

-- The zero value.
abbrev pub empty : Filter
empty = record { last = 0; ring = λ _. 0 }

pub reset : Filter → Filter
reset f = record f { last = 0; ring = update f.ring 0 0 }

-- `for i := i; rounds left; i++ { ring[i & blockMask] = 0 }`
pub clear : ℕ → ℕ → (ℕ → ℕ) → ℕ → ℕ
clear zero i ring = ring
clear (suc rounds) i ring = clear rounds (add64 i 1) (update ring (bit_and i block_mask) 0)

-- The last five lines of `ValidateCounter`: check and set the bit.
pub check_and_set : Filter → ℕ → Filter × Bool
check_and_set f counter =
    let index_block = bit_and (shr counter block_bit_log) block_mask in
    let index_bit = bit_and counter bit_mask in
    let old = f.ring index_block in
    let new = bit_or old (shl64 1 index_bit) in
    (record f { ring = update f.ring index_block new }, not (old == new))

-- The branch that moves the window forward. `diff` is capped to clear the whole ring at most, and
-- the loop runs for `i = current + 1, ..., current + diff`.
pub advance : Filter → ℕ → Filter
advance f counter =
    let index_block = shr counter block_bit_log in
    let current = shr f.last block_bit_log in
    let diff = sub64 index_block current in
    let capped = (if ltb ring_blocks diff then ring_blocks else diff) in
    record { last = counter; ring = clear capped (add64 current 1) f.ring }

pub validate_counter : Filter → ℕ → ℕ → Filter × Bool
validate_counter f counter limit =
    if leb limit counter
    then (f, false)
    else if ltb f.last counter
    then check_and_set (advance f counter) counter
    else if ltb window_size (sub64 f.last counter)
    then (f, false)
    else check_and_set f counter

-- What the calls of `ValidateCounter` among them answer.
pub run : Filter → List Call → List Bool
run f [] = []
run f (resets ∷ cs) = run (reset f) cs
run f (validates counter limit ∷ cs) =
    let (f', answer) = validate_counter f counter limit in answer ∷ run f' cs
