-- ===== src/Tai64n/Order.antt =====
-- tai64n/tai64n.go: timestamps are in the order of the times, in steps of 2 ^ 24 nanoseconds.
use Prim.Native.Nat.{bit_and}
use native.Mathlib.Nat.{
  pow-suc, mod-eq_of_lt, mul-le-mul_right, div-add-mod, div-div-eq-div-mul, one-le-pow, mod-lt,
}
use wgservermgr.Prelude.{
  ℕ, zero, suc, ◌+◌, ◌-◌, ◌*◌, ◌/◌, ◌%◌, ◌^◌, ◌≤◌, ◌<◌, ◌≡◌, refl, sym, ap, ◌∙◌, not, ◌&&◌, ◌||◌,
  ◌==◌, ltb, [], ◌∷◌, ◌++◌, arith, inl, inr, Bool-cases, length,
}
use wgservermgr.Prelude.Bits.{div-pow-suc, bit_and-step, bit_and-mask}
use wgservermgr.Prelude.Words.{add64}
use wgservermgr.Prelude.Int.{pos}
use wgservermgr.Prelude.Bytes.{Bytes, be_bytes, zeros, Written-first, Written-next, Written-all}
use wgservermgr.Tai64n.{stamp, bytes_after, after, base, whitener_mask, and_not, to_uint64}

-- The bits from `k` on.
bit_and-high : (w k x : ℕ) → k ≤ w → x < 2 ^ w → bit_and x (2 ^ w - 2 ^ k) ≡ x / 2 ^ k * 2 ^ k
bit_and-high w zero x h p =
    let whole : x % 2 ^ w ≡ x = mod-eq_of_lt p in omega (arith, bit_and-mask w x, whole)
bit_and-high zero (suc k) x h p = absurd (omega arith)
bit_and-high (suc w) (suc k) x h p =
    let half : (2 ^ suc w - 2 ^ suc k) / 2 ≡ 2 ^ w - 2 ^ k =
      omega (arith, pow-suc 2 w, pow-suc 2 k) in
    let even : (2 ^ suc w - 2 ^ suc k) % 2 ≡ 0 = omega (arith, pow-suc 2 w, pow-suc 2 k) in
    omega (
      arith,
      bit_and-step x (2 ^ suc w - 2 ^ suc k),
      ap (bit_and (x / 2)) half,
      even,
      bit_and-high w k (x / 2) (omega arith) (omega (arith, pow-suc 2 w)),
      div-pow-suc k x,
      ap (λ (t : ℕ). t * 2 ^ suc k) (div-pow-suc k x),
      ap (λ (t : ℕ). x / 2 / 2 ^ k * t) (pow-suc 2 k),
    )

length-be_bytes : (n v : ℕ) → length (be_bytes n v) ≡ n
unfolding be_bytes
length-be_bytes zero v = refl
length-be_bytes (suc n) v = ap suc (length-be_bytes n v)

-- The first digit of a number of digits of base `p`, and the others.
digits_order :
    (x y r s p : ℕ) → r < p → s < p → ltb (y * p + s) (x * p + r) ≡ (ltb y x || (x == y && ltb s r))
digits_order x y r s p h k = elim (Bool-cases (ltb y x)) [
  | inl less ↦
      let step : suc y * p ≤ x * p = mul-le-mul_right p (ground arith) in ground (arith, step)
  | inr not_less ↦ elim (Bool-cases (ltb x y)) [
    | inl less ↦
        let step : suc x * p ≤ y * p = mul-le-mul_right p (ground arith) in ground (arith, step)
    | inr not_more ↦ let same : x ≡ y = ground arith in rw same (ground arith)
  ]
]

top_digit : (n a : ℕ) → a % 256 ^ suc n ≡ a / 256 ^ n % 256 * 256 ^ n + a % 256 ^ n
top_digit n a = omega (
  arith,
  pow-suc 256 n,
  div-add-mod a (256 ^ suc n),
  div-add-mod a (256 ^ n),
  div-add-mod (a / 256 ^ n) 256,
  ap (λ (t : ℕ). 256 ^ n * t) (div-add-mod (a / 256 ^ n) 256),
  ap (λ (t : ℕ). 256 ^ suc n * t) quotient,
  ap (λ (t : ℕ). t * (a / 256 ^ n / 256)) (pow-suc 256 n),
)
  where
    quotient : a / 256 ^ suc n ≡ a / 256 ^ n / 256
    quotient = ap (◌/◌ a) (pow-suc 256 n) ∙ sym (div-div-eq-div-mul a (256 ^ n) 256)

bytes_after-be_bytes :
    (n a b : ℕ) → bytes_after (be_bytes n a) (be_bytes n b) ≡ ltb (b % 256 ^ n) (a % 256 ^ n)
unfolding bytes_after be_bytes
bytes_after-be_bytes zero a b = ground arith
bytes_after-be_bytes (suc n) a b =
    let positive : 0 < 256 ^ n = one-le-pow n 256 (omega arith) in
    rw (top_digit n a, top_digit n b, bytes_after-be_bytes n a b)
      (sym (digits_order _ _ _ _ _ (mod-lt a positive) (mod-lt b positive)))

bytes_after-append :
    (a b c d : Bytes)
    → length a ≡ length b
    → bytes_after (a ++ c) (b ++ d)
      ≡ (bytes_after a b || (not (bytes_after b a) && bytes_after c d))
unfolding bytes_after
bytes_after-append [] [] c d h = refl
bytes_after-append [] (y ∷ b) c d h = absurd (omega arith)
bytes_after-append (x ∷ a) [] c d h = absurd (omega arith)
bytes_after-append (x ∷ a) (y ∷ b) c d h = ground (arith, bytes_after-append a b c d (omega arith))

-- A time in steps of 2 ^ 24 nanoseconds, of which a second has less than 64.
abbrev pub ticks : ℕ → ℕ → ℕ
ticks unix nanosecond = unix * 64 + nanosecond / 2 ^ 24

stamp-bytes :
    (unix nanosecond : ℕ)
    → unix < 2 ^ 63
    → nanosecond < 10 ^ 9
    → stamp (record { unix = pos unix; nanosecond = nanosecond })
      ≡ be_bytes 8 (base + unix) ++ be_bytes 4 (nanosecond / 2 ^ 24 * 2 ^ 24)
unfolding stamp
stamp-bytes unix nanosecond p q =
    let low : to_uint64 (pos unix) ≡ unix = omega arith in
    let secs : add64 base (to_uint64 (pos unix)) ≡ base + unix = omega (arith, low) in
    let nano : and_not nanosecond whitener_mask ≡ nanosecond / 2 ^ 24 * 2 ^ 24 =
      bit_and-high 32 24 nanosecond (omega arith) (omega arith) in
    let w0 =
      Written-first (be_bytes 8 (base + unix)) (zeros 12) 8 (length-be_bytes 8 _) (omega arith) in
    let w1 =
      Written-next 8 4 _ (be_bytes 4 (nanosecond / 2 ^ 24 * 2 ^ 24)) (zeros 12) _ w0
        (length-be_bytes 4 _) (omega arith) in
    rw (secs, nano) (Written-all 12 _ (zeros 12) _ w1 (omega arith))

-- For times from 1970 whose seconds are below 2 ^ 63 and whose nanoseconds are below 10 ^ 9, the
-- stamp of one is after that of another if and only if it is later in ticks of 2 ^ 24 nanoseconds
-- within each second.
pub after-stamp :
    (unix nanosecond unix' nanosecond' : ℕ)
    → unix < 2 ^ 63
    → unix' < 2 ^ 63
    → nanosecond < 10 ^ 9
    → nanosecond' < 10 ^ 9
    → after
        (stamp (record { unix = pos unix; nanosecond = nanosecond }))
        (stamp (record { unix = pos unix'; nanosecond = nanosecond' }))
      ≡ ltb (ticks unix' nanosecond') (ticks unix nanosecond)
after-stamp unix nanosecond unix' nanosecond' p p' q q' =
    rw (stamp-bytes unix nanosecond p q, stamp-bytes unix' nanosecond' p' q')
      (bytes_after-append _ _ _ _ (length-be_bytes 8 _ ∙ sym (length-be_bytes 8 _))
        ∙ ground (
          arith,
          bytes_after-be_bytes 8 (base + unix) (base + unix'),
          bytes_after-be_bytes 8 (base + unix') (base + unix),
          bytes_after-be_bytes 4 (nanosecond / 2 ^ 24 * 2 ^ 24) (nanosecond' / 2 ^ 24 * 2 ^ 24),
        ))
