-- ===== src/Replay/Ring.antt =====
-- The ring of the filter: which words the loop of `ValidateCounter` clears, and what the rest of
-- its body does to the bits.
use Prim.Native.Nat.{bit_and}
use native.Mathlib.Nat.{pow-le-pow_right, mod-eq_of_lt}
use wgservermgr.Prelude.{
  ℕ, zero, suc, ◌+◌, ◌/◌, ◌%◌, ◌^◌, ◌≤◌, ◌<◌, ◌≡◌, refl, ◌∙◌, ap, Bool, not, ◌||◌, ◌==◌, update,
  arith, inl, inr, Bool-cases,
}
use wgservermgr.Prelude.Words.{add64, shl64, shr, u64_mod}
use wgservermgr.Prelude.Bits.{bit, bit_and-mask, bit-bit_or, bit-pow, bit_or-eq}
use wgservermgr.Replay.{
  Filter, ring_blocks, block_mask, clear, check_and_set, block_bit_log, bit_mask,
}

clear-of_zero : (n i : ℕ) (ring : ℕ → ℕ) (j : ℕ) → ring j ≡ 0 → clear n i ring j ≡ 0
unfolding clear
clear-of_zero zero i ring j h = h
clear-of_zero (suc n) i ring j h =
    clear-of_zero n (add64 i 1) (update ring (bit_and i block_mask) 0) j (ground arith)

-- The loop clears the word of each block that it passes.
pub clear-hit :
    (n i : ℕ) (ring : ℕ → ℕ) (b : ℕ)
    → i + n < u64_mod
    → i ≤ b
    → b < i + n
    → clear n i ring (b % ring_blocks) ≡ 0
unfolding clear
clear-hit zero i ring b s p q = absurd (omega arith)
clear-hit (suc n) i ring b s p q = elim (Bool-cases (b == i)) [
  | inl here ↦
      clear-of_zero n (add64 i 1) (update ring (bit_and i block_mask) 0) (b % ring_blocks)
        (ground (arith, bit_and-mask 7 i))
  | inr later ↦
      clear-hit n (add64 i 1) (update ring (bit_and i block_mask) 0) b (omega arith) (ground arith)
        (omega arith)
]

-- It leaves the words of the 128 blocks before those that it has still to pass.
pub clear-miss :
    (n i : ℕ) (ring : ℕ → ℕ) (b : ℕ)
    → i + n < u64_mod
    → b < i
    → i + n ≤ b + ring_blocks
    → clear n i ring (b % ring_blocks) ≡ ring (b % ring_blocks)
unfolding clear
clear-miss zero i ring b s p q = refl
clear-miss (suc n) i ring b s p q =
    clear-miss n (add64 i 1) (update ring (bit_and i block_mask) 0) b (omega arith) (omega arith)
      (omega arith)
    ∙ ground (arith, bit_and-mask 7 i)

-- Whether the ring says that a counter was seen.
abbrev pub marked : (ℕ → ℕ) → ℕ → Bool
marked ring c = bit (ring (c / 64 % ring_blocks)) (c % 64)

shl64-one : (k : ℕ) → k < 64 → shl64 1 k ≡ 2 ^ k
shl64-one k h =
    let below : 2 ^ k ≤ 2 ^ 63 =
      pow-le-pow_right {n = 2} (omega arith) {i = k} {j = 63} (omega arith) in
    omega (arith, mod-eq_of_lt {n = 2 ^ k} {m = u64_mod} (omega arith))

module _ (f : Filter) (c : ℕ) where
  -- The indices and the mask that the code computes.
  index_block_lem : bit_and (shr c block_bit_log) block_mask ≡ c / 64 % ring_blocks
  index_block_lem = bit_and-mask 7 (c / 64)

  index_bit_lem : shl64 1 (bit_and c bit_mask) ≡ 2 ^ (c % 64)
  index_bit_lem = ap (shl64 1) (bit_and-mask 6 c) ∙ shl64-one (c % 64) (omega arith)

  -- The answer is whether the counter was unmarked.
  pub check_and_set_answer : (check_and_set f c).1 ≡ not (marked f.ring c)
  unfolding check_and_set
  check_and_set_answer =
      rw (index_block_lem, index_bit_lem)
        (ap not (bit_or-eq (c % 64) (f.ring (c / 64 % ring_blocks))))

  -- Afterwards it is marked, and of the counters whose blocks lie within 128 no other is.
  pub marked-check_and_set :
      (d : ℕ)
      → d / 64 < c / 64 + ring_blocks
      → c / 64 < d / 64 + ring_blocks
      → marked (check_and_set f c).0.ring d ≡ (d == c) || marked f.ring d
  unfolding check_and_set
  marked-check_and_set d p q =
      rw (index_block_lem, index_bit_lem)
        (ground (
          arith,
          bit-bit_or (d % 64) (f.ring (c / 64 % ring_blocks)) (2 ^ (c % 64)),
          bit-pow (c % 64) (d % 64),
        ))
