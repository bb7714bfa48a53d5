-- ===== src/Device/AllowedIps/Addresses.antt =====
-- The addresses of device/allowedips.go: the byte strings of 4 and 16 bytes, each as the number that
-- its bytes spell, the most significant byte first.
use Prim.Native.Nat.{bit_and, bit_xor}
use wgservermgr.Prelude.{
  ℕ, ◌+◌, ◌-◌, ◌*◌, ◌/◌, ◌%◌, ◌^◌, ◌≤◌, ◌<◌, ◌≡◌, sym, ◌∙◌, ap, subst, Bool, true, not, arith,
  if◌then◌else◌, ◌↔◌, inl, inr, Bool-cases, ◌==◌, ltb, leb, ◌&&◌, ==_iff,
}
use wgservermgr.Prelude.Words.{u64_mod}
use wgservermgr.Prelude.Bits.{bit, bit-zero, bit-mask, bit-bit_and, bit-mod, bit-div}
use wgservermgr.Device.AllowedIps.Xor.{
  bit-bit_xor, bit_xor_self, bits_same, leading_zeros, leading_zeros-le, leading_zeros-unset,
  le-leading_zeros,
}

-- The first word of 64 bits of 16 bytes, and the second.
abbrev pub first_word : ℕ → ℕ
first_word a = a / u64_mod % u64_mod

abbrev pub second_word : ℕ → ℕ
second_word a = a % u64_mod

-- `commonBits` on 4 bytes.
unfoldable pub common_bits4 : ℕ → ℕ → ℕ
common_bits4 a b = leading_zeros 32 (bit_xor a b)

-- `commonBits` on 16 bytes.
unfoldable pub common_bits16 : ℕ → ℕ → ℕ
common_bits16 a b =
    let x = bit_xor (first_word a) (first_word b) in
    if not (x == 0)
    then leading_zeros 64 x
    else 64 + leading_zeros 64 (bit_xor (second_word a) (second_word b))

-- The bit of an address at a place, counted from the most significant of `size` bytes.
abbrev pub bit_at : ℕ → ℕ → ℕ → Bool
bit_at size i a = bit a (8 * size - 1 - i)

-- The first bits of two addresses are the same.
abbrev pub Agree : ℕ → ℕ → ℕ → ℕ → Type 0
Agree size c a b = (i : ℕ) → i < c → bit_at size i a ≡ bit_at size i b

-- A family of addresses: the bytes of an address, and how `commonBits` compares two of them.
pub record Family : Type 0 where
  pub size : ℕ
  pub common_bits : ℕ → ℕ → ℕ
  pub common_bits-le : (a b : ℕ) → common_bits a b ≤ 8 * size
  pub common_bits_iff : (a b c : ℕ) → c ≤ 8 * size → (c ≤ common_bits a b) ↔ Agree size c a b

bits_agree :
    (w a b c : ℕ)
    → c ≤ w
    → (c ≤ leading_zeros w (bit_xor a b)) ↔ ((j : ℕ) → w ≤ j + c → j < w → bit a j ≡ bit b j)
bits_agree w a b c p = (
  λ h j s t. (bit-bit_xor j a b).0 (leading_zeros-unset w (bit_xor a b) c j h s t),
  λ h. le-leading_zeros w (bit_xor a b) c p (λ j s t. (bit-bit_xor j a b).1 (h j s t)),
)

pub common_bits4-le : (a b : ℕ) → common_bits4 a b ≤ 32
unfolding common_bits4
common_bits4-le a b = leading_zeros-le 32 (bit_xor a b)

pub common_bits4_iff : (a b c : ℕ) → c ≤ 32 → (c ≤ common_bits4 a b) ↔ Agree 4 c a b
unfolding common_bits4
common_bits4_iff a b c p = (
  λ h i s. (bits_agree 32 a b c p).0 h (31 - i) (omega arith) (omega arith),
  λ h.
      (bits_agree 32 a b c p).1
        (λ j s t. subst (λ k. bit a k ≡ bit b k) (omega arith) (h (31 - j) (omega arith))),
)

first_bit : (a j : ℕ) → j < 64 → bit a (64 + j) ≡ bit (first_word a) j
first_bit a j s = sym (bit-div 64 j a) ∙ sym (bit-mod 64 j (a / u64_mod) s)

same_words :
    (a b : ℕ)
    → (bit_xor (first_word a) (first_word b) ≡ 0)
      ↔ ((j : ℕ) → j < 64 → bit a (64 + j) ≡ bit b (64 + j))
same_words a b = (
  λ h j s. first_bit a j s ∙ (bit-bit_xor j _ _).0 (rw h (bit-zero j)) ∙ sym (first_bit b j s),
  λ h.
      rw
        (bits_same 64 (first_word a) (first_word b) (omega arith) (omega arith)
          (λ j s. sym (first_bit a j s) ∙ h j s ∙ first_bit b j s))
        (bit_xor_self (first_word b)),
)

first-Agree :
    (a b c : ℕ)
    → c ≤ 64
    → (c ≤ leading_zeros 64 (bit_xor (first_word a) (first_word b))) ↔ Agree 16 c a b
first-Agree a b c p = (
  λ h i s.
      subst (λ k. bit a k ≡ bit b k) {x = 64 + (63 - i)} (omega arith)
        (first_bit a (63 - i) (omega arith)
          ∙ (bits_agree 64 _ _ c p).0 h (63 - i) (omega arith) (omega arith)
          ∙ sym (first_bit b (63 - i) (omega arith))),
  λ h. (bits_agree 64 _ _ c p).1 (λ j s t.
      sym (first_bit a j t)
      ∙ subst (λ k. bit a k ≡ bit b k) {x = 127 - (63 - j)} (omega arith) (h (63 - j) (omega arith))
      ∙ first_bit b j t),
)

second-Agree :
    (a b c : ℕ)
    → c ≤ 64
    → (c ≤ leading_zeros 64 (bit_xor (second_word a) (second_word b)))
      ↔ ((i : ℕ) → 64 ≤ i → i < 64 + c → bit_at 16 i a ≡ bit_at 16 i b)
second-Agree a b c p = (
  λ h i s t.
      sym (bit-mod 64 (127 - i) a (omega arith))
      ∙ (bits_agree 64 _ _ c p).0 h (127 - i) (omega arith) (omega arith)
      ∙ bit-mod 64 (127 - i) b (omega arith),
  λ h. (bits_agree 64 _ _ c p).1 (λ j s t.
      bit-mod 64 j a t
      ∙ subst (λ k. bit a k ≡ bit b k) {x = 127 - (127 - j)} (omega arith)
          (h (127 - j) (omega arith) (omega arith))
      ∙ sym (bit-mod 64 j b t)),
)

first_same : (a b c : ℕ) → 64 ≤ c → Agree 16 c a b → bit_xor (first_word a) (first_word b) ≡ 0
first_same a b c p h = (same_words a b).1 (λ j s.
    subst (λ k. bit a k ≡ bit b k) {x = 127 - (63 - j)} (omega arith) (h (63 - j) (omega arith)))

-- The first words are the same: the comparison goes on in the second.
beyond_first :
    (a b c : ℕ)
    → c ≤ 128
    → bit_xor (first_word a) (first_word b) ≡ 0
    → (c ≤ 64 + leading_zeros 64 (bit_xor (second_word a) (second_word b))) ↔ Agree 16 c a b
beyond_first a b c p same = (
  λ h i s. elim (Bool-cases (ltb i 64)) [
    | inl low ↦
        subst (λ k. bit a k ≡ bit b k) {x = 64 + (63 - i)} (ground arith)
          ((same_words a b).0 same (63 - i) (omega arith))
    | inr high ↦
        (second-Agree a b (c - 64) (omega arith)).0 (omega arith) i (ground arith) (ground arith)
  ],
  λ h. elim (Bool-cases (leb c 64)) [
    | inl short ↦ ground arith
    | inr long ↦
        omega (arith, (second-Agree a b (c - 64) (omega arith)).1 (λ i s t. h i (ground arith)))
  ],
)

-- For any length up to 128, `commonBits` of two addresses of 16 bytes is at least that length if
-- and only if the first so many bits of the two are the same, across both words of 64 bits.
pub common_bits16_iff : (a b c : ℕ) → c ≤ 128 → (c ≤ common_bits16 a b) ↔ Agree 16 c a b
unfolding common_bits16
common_bits16_iff a b c p = elim (Bool-cases (bit_xor (first_word a) (first_word b) == 0)) [
  | inl same ↦ rw same (beyond_first a b c p ((==_iff _ 0).0 same))
  | inr other ↦ rw other (
    λ h.
        let below = leading_zeros-le 64 (bit_xor (first_word a) (first_word b)) in
        (first-Agree a b c (omega arith)).0 h,
    λ h. elim (Bool-cases (leb c 64)) [
      | inl short ↦ (first-Agree a b c (ground arith)).1 h
      | inr long ↦ absurd (ground (arith, first_same a b c (ground arith) h))
    ],
  )
]

pub common_bits16-le : (a b : ℕ) → common_bits16 a b ≤ 128
unfolding common_bits16
common_bits16-le a b = ground (
  arith,
  leading_zeros-le 64 (bit_xor (first_word a) (first_word b)),
  leading_zeros-le 64 (bit_xor (second_word a) (second_word b)),
)

abbrev pub ipv4 : Family
ipv4 = record {
  size = 4;
  common_bits = common_bits4;
  common_bits-le = λ a b. common_bits4-le a b;
  common_bits_iff = common_bits4_iff;
}

abbrev pub ipv6 : Family
ipv6 = record {
  size = 16;
  common_bits = common_bits16;
  common_bits-le = common_bits16-le;
  common_bits_iff = common_bits16_iff;
}

module _ (f : Family) where
  -- `choose` at a node: the bit of `ip` at `bitAtShift` of the byte `bitAtByte`. Past the last byte,
  -- where the code would panic, it reads a byte 0.
  unfoldable pub choose : ℕ → ℕ → Bool
  choose cidr ip =
      let byte = ip / 2 ^ (8 * (f.size - 1 - cidr / 8)) % 256 in
      ltb (cidr / 8) f.size && (byte / 2 ^ (7 - cidr % 8) % 2 == 1)

  -- `net.CIDRMask` as a number: as many set bits, then zeros.
  abbrev pub cidr_mask : ℕ → ℕ
  cidr_mask cidr = 2 ^ (8 * f.size) - 2 ^ (8 * f.size - cidr)

  -- `maskSelf`.
  unfoldable pub mask_self : ℕ → ℕ → ℕ
  mask_self cidr bits = bit_and bits (cidr_mask cidr)

  pub choose-bit_at : (c a : ℕ) → c < 8 * f.size → choose c a ≡ bit_at f.size c a
  unfolding choose bit
  choose-bit_at c a h =
      let p = 8 * (f.size - 1 - c / 8) in
      let s = 7 - c % 8 in
      let inside : ltb (c / 8) f.size ≡ true = ground arith in
      let place : p + (s + 0) ≡ 8 * f.size - 1 - c = omega arith in
      rw inside (
        bit-div s 0 (a / 2 ^ p % 256)
        ∙ bit-mod 8 (s + 0) (a / 2 ^ p) (omega arith)
        ∙ bit-div p (s + 0) a
        ∙ ap (bit a) place)

  pub mask_self-bit_at :
      (c i a : ℕ) → c ≤ 8 * f.size → i < c → bit_at f.size i (mask_self c a) ≡ bit_at f.size i a
  unfolding mask_self
  mask_self-bit_at c i a p q =
      rw
        (
          bit-bit_and (8 * f.size - 1 - i) a (cidr_mask c),
          bit-mask (8 * f.size) (8 * f.size - c) (8 * f.size - 1 - i) (omega arith) (omega arith),
        )
        (ground arith)
