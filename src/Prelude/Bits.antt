-- ===== src/Prelude/Bits.antt =====
-- Bit tests, and the laws of `bit_or` and `bit_and` that the models use, for every width.
use Prim.Native.Nat.{
  ℕ, zero, suc, ◌+◌, ◌-◌, ◌*◌, ◌/◌, ◌%◌, ◌^◌, ◌≤◌, ◌<◌, min, max, bit_and, bit_or, digits,
  bit_and-bitwise, bit_or-bitwise,
}
use mathlib.Core.Path.{◌≡◌, refl, sym, ap, ◌∙◌}
use mathlib.Core.Logic.{◌≢◌, inl, inr}
use mathlib.Core.Bool.{Bool, true, false, ◌||◌, ◌&&◌}
use native.Mathlib.Omega.{arith}
use native.Mathlib.Nat.{pow-suc, pow-succ', one-le-pow, div-add-mod, div-div-eq-div-mul}
use wgservermgr.Prelude.Tests.{◌==◌, Bool-cases}

-- Bit `k` of a number.
unfoldable pub bit : ℕ → ℕ → Bool
bit x zero = x % 2 == 1
bit x (suc k) = bit (x / 2) k

-- Both operations are `digits`, whose count of digits to go may be any number that is enough.
module _ (z : ℕ → ℕ) (f : ℕ → ℕ → ℕ) where
  pub digits_enough : (n m a b : ℕ) → a ≤ n → a ≤ m → digits z f n a b ≡ digits z f m a b
  digits_enough zero zero zero b p q = refl
  digits_enough zero (suc m) zero b p q = refl
  digits_enough (suc n) zero zero b p q = refl
  digits_enough (suc n) (suc m) zero b p q = refl
  digits_enough zero m (suc a) b p q = absurd (omega arith)
  digits_enough (suc n) zero (suc a) b p q = absurd (omega arith)
  digits_enough (suc n) (suc m) (suc a) b p q =
      omega (arith, digits_enough n m (suc a / 2) (b / 2) (omega arith) (omega arith))

pub bit_or-step : (a b : ℕ) → bit_or a b ≡ bit_or (a / 2) (b / 2) * 2 + max (a % 2) (b % 2)
bit_or-step zero b = omega (arith, bit_or-bitwise 0 b, bit_or-bitwise 0 (b / 2))
bit_or-step (suc a) b = omega (
  arith,
  bit_or-bitwise (suc a) b,
  bit_or-bitwise (suc a / 2) (b / 2),
  digits_enough (λ c. c) max a (suc a / 2) (suc a / 2) (b / 2) (omega arith) (omega arith),
)

pub bit_and-step : (a b : ℕ) → bit_and a b ≡ bit_and (a / 2) (b / 2) * 2 + min (a % 2) (b % 2)
bit_and-step zero b = omega (arith, bit_and-bitwise 0 b, bit_and-bitwise 0 (b / 2))
bit_and-step (suc a) b = omega (
  arith,
  bit_and-bitwise (suc a) b,
  bit_and-bitwise (suc a / 2) (b / 2),
  digits_enough (λ c. 0) min a (suc a / 2) (suc a / 2) (b / 2) (omega arith) (omega arith),
)

-- A bit of the disjunction is the disjunction of the bits.
pub bit-bit_or : (k a b : ℕ) → bit (bit_or a b) k ≡ bit a k || bit b k
unfolding bit
bit-bit_or zero a b = ground (arith, bit_or-step a b)
bit-bit_or (suc k) a b =
    let half : bit_or a b / 2 ≡ bit_or (a / 2) (b / 2) = omega (arith, bit_or-step a b) in
    rw half (bit-bit_or k (a / 2) (b / 2))

pub bit-bit_and : (k a b : ℕ) → bit (bit_and a b) k ≡ bit a k && bit b k
unfolding bit
bit-bit_and zero a b = ground (arith, bit_and-step a b)
bit-bit_and (suc k) a b =
    let half : bit_and a b / 2 ≡ bit_and (a / 2) (b / 2) = omega (arith, bit_and-step a b) in
    rw half (bit-bit_and k (a / 2) (b / 2))

pub bit-zero : (k : ℕ) → bit 0 k ≡ false
unfolding bit
bit-zero zero = refl
bit-zero (suc k) = bit-zero k

two_pow_half : (k : ℕ) → 2 ^ suc k / 2 ≡ 2 ^ k
two_pow_half k = omega (arith, pow-suc 2 k)

-- `1 << k` has bit `k` and no other.
pub bit-pow : (k j : ℕ) → bit (2 ^ k) j ≡ (j == k)
unfolding bit
bit-pow zero zero = refl
bit-pow zero (suc j) = bit-zero j ∙ (ground arith)
bit-pow (suc k) zero = ground (arith, pow-suc 2 k)
bit-pow (suc k) (suc j) = rw (two_pow_half k) (bit-pow k j ∙ (ground arith))

-- The bound on `x` is what the recursion is on.
bit_or-zero_below : (n x : ℕ) → x ≤ n → bit_or x 0 ≡ x
bit_or-zero_below n zero h = omega (arith, bit_or-bitwise 0 0)
bit_or-zero_below zero (suc x) h = absurd (omega arith)
bit_or-zero_below (suc n) (suc x) h =
    omega (arith, bit_or-step (suc x) 0, bit_or-zero_below n (suc x / 2) (omega arith))

pub bit_or-zero : (x : ℕ) → bit_or x 0 ≡ x
bit_or-zero x = bit_or-zero_below x x (omega arith)

-- Setting a bit that is set changes nothing, and setting one that is not changes the word.
bit_or-set : (k x : ℕ) → bit x k ≡ true → bit_or x (2 ^ k) ≡ x
unfolding bit
bit_or-set zero x h = ground (arith, bit_or-step x 1, bit_or-zero (x / 2))
bit_or-set (suc k) x h =
    let here = ap (bit_or (x / 2)) (two_pow_half k) in
    omega (arith, bit_or-step x (2 ^ suc k), here, pow-suc 2 k, bit_or-set k (x / 2) h)

bit_or-unset : (k x : ℕ) → bit x k ≡ false → x ≢ bit_or x (2 ^ k)
bit_or-unset k x h e = ground (arith, ap (λ w. bit w k) e, bit-bit_or k x (2 ^ k), bit-pow k k)

pub bit_or-eq : (k x : ℕ) → (x == bit_or x (2 ^ k)) ≡ bit x k
bit_or-eq k x = elim (Bool-cases (bit x k)) [
  | inl old ↦ ground (arith, bit_or-set k x old)
  | inr new ↦ ground (arith, bit_or-unset k x new)
]

bit_and-zero_below : (n x : ℕ) → x ≤ n → bit_and x 0 ≡ 0
bit_and-zero_below n zero h = omega (arith, bit_and-bitwise 0 0)
bit_and-zero_below zero (suc x) h = absurd (omega arith)
bit_and-zero_below (suc n) (suc x) h =
    omega (arith, bit_and-step (suc x) 0, bit_and-zero_below n (suc x / 2) (omega arith))

pub div-pow-suc : (k x : ℕ) → x / 2 ^ suc k ≡ x / 2 / 2 ^ k
div-pow-suc k x = ap (◌/◌ x) (pow-succ' 2 k) ∙ sym (div-div-eq-div-mul x 2 (2 ^ k))

mod-pow-suc : (k x : ℕ) → x % 2 ^ suc k ≡ (x / 2) % 2 ^ k * 2 + x % 2
mod-pow-suc k x = omega (
  arith,
  pow-suc 2 k,
  div-add-mod x (2 ^ suc k),
  div-add-mod (x / 2) (2 ^ k),
  ap (λ (t : ℕ). 2 ^ suc k * t) (div-pow-suc k x),
  ap (λ (t : ℕ). t * (x / 2 / 2 ^ k)) (pow-suc 2 k),
)

-- A bit of the remainder and of the quotient by a power of two.
pub bit-mod : (w k x : ℕ) → k < w → bit (x % 2 ^ w) k ≡ bit x k
unfolding bit
bit-mod zero k x h = absurd (omega arith)
bit-mod (suc w) zero x h = ground (arith, mod-pow-suc w x)
bit-mod (suc w) (suc k) x h =
    let half : x % 2 ^ suc w / 2 ≡ x / 2 % 2 ^ w = omega (arith, mod-pow-suc w x) in
    rw half (bit-mod w k (x / 2) (omega arith))

pub bit-div : (w k x : ℕ) → bit (x / 2 ^ w) k ≡ bit x (w + k)
unfolding bit
bit-div zero k x =
    let whole : x / 2 ^ 0 ≡ x = omega arith in
    let here : 0 + k ≡ k = omega arith in rw (whole, here) refl
bit-div (suc w) k x =
    let later : suc w + k ≡ suc (w + k) = omega arith in
    rw (div-pow-suc w x, later) (bit-div w k (x / 2))

-- `x & (2 ^ k - 1)` is the remainder by `2 ^ k`.
pub bit_and-mask : (k x : ℕ) → bit_and x (2 ^ k - 1) ≡ x % 2 ^ k
bit_and-mask zero x = omega (arith, bit_and-zero_below x x (omega arith))
bit_and-mask (suc k) x = omega (
  arith,
  bit_and-step x (2 ^ suc k - 1),
  pow-suc 2 k,
  one-le-pow k 2,
  mod-pow-suc k x,
  ap (bit_and (x / 2)) halved,
  bit_and-mask k (x / 2),
)
  where
    halved : (2 ^ suc k - 1) / 2 ≡ 2 ^ k - 1
    halved = omega (arith, pow-suc 2 k)

-- The mask with the bits from `k` up to `w`.
pub bit-mask : (w k j : ℕ) → k ≤ j → j < w → bit (2 ^ w - 2 ^ k) j ≡ true
unfolding bit
bit-mask zero k j p q = absurd (omega arith)
bit-mask (suc w) zero zero p q = ground (arith, pow-suc 2 w, one-le-pow w 2)
bit-mask (suc w) zero (suc j) p q =
    let half : (2 ^ suc w - 2 ^ 0) / 2 ≡ 2 ^ w - 2 ^ 0 = omega (arith, pow-suc 2 w) in
    rw half (bit-mask w 0 j (omega arith) (omega arith))
bit-mask (suc w) (suc k) zero p q = absurd (omega arith)
bit-mask (suc w) (suc k) (suc j) p q =
    let half : (2 ^ suc w - 2 ^ suc k) / 2 ≡ 2 ^ w - 2 ^ k =
      omega (arith, pow-suc 2 w, pow-suc 2 k) in
    rw half (bit-mask w k j (omega arith) (omega arith))
