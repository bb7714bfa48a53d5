-- ===== src/Device/AllowedIps/Xor.antt =====
-- Exclusive or and the leading zeros of package math/bits, as device/allowedips.go uses them.
use Prim.Native.Nat.{bit_xor, differ, bit_xor-bitwise}
use native.Mathlib.Nat.{pow-suc}
use wgservermgr.Prelude.{
  ℕ, zero, suc, ◌+◌, ◌-◌, ◌*◌, ◌/◌, ◌%◌, ◌^◌, ◌≤◌, ◌<◌, ◌≡◌, refl, false, arith, if◌then◌else◌, ◌↔◌,
  inl, inr, Bool-cases, ◌==◌,
}
use wgservermgr.Prelude.Bits.{bit, digits_enough}

bit_xor-step : (a b : ℕ) → bit_xor a b ≡ bit_xor (a / 2) (b / 2) * 2 + differ (a % 2) (b % 2)
bit_xor-step zero b = omega (arith, bit_xor-bitwise 0 b, bit_xor-bitwise 0 (b / 2))
bit_xor-step (suc a) b = omega (
  arith,
  bit_xor-bitwise (suc a) b,
  bit_xor-bitwise (suc a / 2) (b / 2),
  digits_enough (λ c. c) differ a (suc a / 2) (suc a / 2) (b / 2) (omega arith) (omega arith),
)

differ_iff : (x y : ℕ) → (differ x y ≡ 0) ↔ (x ≡ y)
differ_iff zero zero = (λ h. refl, λ h. refl)
differ_iff zero (suc y) = ground arith
differ_iff (suc x) zero = ground arith
differ_iff (suc x) (suc y) = ground (arith, differ_iff x y)

differ-le : (x y : ℕ) → x ≤ 1 → y ≤ 1 → differ x y ≤ 1
differ-le zero y p q = q
differ-le (suc x) zero p q = p
differ-le (suc x) (suc y) p q = differ-le x y (omega arith) (omega arith)

-- A bit of the exclusive or is unset where the two bits are the same.
pub bit-bit_xor : (k a b : ℕ) → (bit (bit_xor a b) k ≡ false) ↔ (bit a k ≡ bit b k)
unfolding bit
bit-bit_xor zero a b = ground (
  arith,
  bit_xor-step a b,
  differ_iff (a % 2) (b % 2),
  differ-le (a % 2) (b % 2) (omega arith) (omega arith),
)
bit-bit_xor (suc k) a b =
    let half : bit_xor a b / 2 ≡ bit_xor (a / 2) (b / 2) =
      omega (arith, bit_xor-step a b, differ-le (a % 2) (b % 2) (omega arith) (omega arith)) in
    rw half (bit-bit_xor k (a / 2) (b / 2))

bit_xor_self_below : (n x : ℕ) → x ≤ n → bit_xor x x ≡ 0
bit_xor_self_below n zero h = omega (arith, bit_xor-bitwise 0 0)
bit_xor_self_below zero (suc x) h = absurd (omega arith)
bit_xor_self_below (suc n) (suc x) h = omega (
  arith,
  bit_xor-step (suc x) (suc x),
  bit_xor_self_below n (suc x / 2) (omega arith),
  (differ_iff (suc x % 2) (suc x % 2)).1 refl,
)

pub bit_xor_self : (x : ℕ) → bit_xor x x ≡ 0
bit_xor_self x = bit_xor_self_below x x (omega arith)

-- Words with the same bits are the same.
pub bits_same : (w a b : ℕ) → a < 2 ^ w → b < 2 ^ w → ((j : ℕ) → j < w → bit a j ≡ bit b j) → a ≡ b
unfolding bit
bits_same zero a b p q h = omega arith
bits_same (suc w) a b p q h =
    let half : a / 2 ≡ b / 2 =
      bits_same w (a / 2) (b / 2) (omega (arith, pow-suc 2 w)) (omega (arith, pow-suc 2 w))
        (λ j s. h (suc j) (omega arith)) in
    ground (arith, h 0 (omega arith), half)

-- `LeadingZeros32` and `LeadingZeros64`, at 32 and 64 bits.
unfoldable pub leading_zeros : ℕ → ℕ → ℕ
leading_zeros zero x = 0
leading_zeros (suc w) x = if bit x w then 0 else suc (leading_zeros w x)

pub leading_zeros-le : (w x : ℕ) → leading_zeros w x ≤ w
unfolding leading_zeros
leading_zeros-le zero x = omega arith
leading_zeros-le (suc w) x = ground (arith, leading_zeros-le w x)

pub leading_zeros-unset :
    (w x c j : ℕ) → c ≤ leading_zeros w x → w ≤ j + c → j < w → bit x j ≡ false
unfolding leading_zeros
leading_zeros-unset zero x c j h p q = absurd (omega arith)
leading_zeros-unset (suc w) x c j h p q = elim (Bool-cases (bit x w)) [
  | inl set_ ↦ absurd (ground arith)
  | inr unset ↦ elim (Bool-cases (j == w)) [
    | inl top ↦ ground arith
    | inr low ↦ leading_zeros-unset w x (c - 1) j (ground arith) (ground arith) (ground arith)
  ]
]

pub le-leading_zeros :
    (w x c : ℕ) → c ≤ w → ((j : ℕ) → w ≤ j + c → j < w → bit x j ≡ false) → c ≤ leading_zeros w x
unfolding leading_zeros
le-leading_zeros w x zero p h = omega arith
le-leading_zeros zero x (suc c) p h = absurd (omega arith)
le-leading_zeros (suc w) x (suc c) p h =
    rw (h w (omega arith) (omega arith)) (
      omega
        (arith, le-leading_zeros w x c (omega arith) (λ j s t. h j (omega arith) (omega arith))))
