-- ===== src/Device/AllowedIps/Prefixes.antt =====
-- Laws of prefixes, which the proofs about the trie of device/allowedips.go use.
use wgservermgr.Prelude.{
  ℕ, suc, ◌*◌, ◌≤◌, ◌<◌, ◌≡◌, ◌≢◌, sym, ◌∙◌, true, arith, ◌↔◌, inl, inr, Bool-cases, ltb, subst,
}
use wgservermgr.Device.AllowedIps.Addresses.{
  Family, Agree, bit_at, choose, mask_self, choose-bit_at, mask_self-bit_at,
}
use wgservermgr.Device.AllowedIps.Trie.{agrees}

module _ (f : Family) where
  pub agrees_iff : (c a b : ℕ) → c ≤ 8 * f.size → (agrees f c a b ≡ true) ↔ Agree f.size c a b
  agrees_iff c a b p = (
    λ h. (f.common_bits_iff a b c p).0 (ground arith),
    λ h. ground (arith, (f.common_bits_iff a b c p).1 h),
  )

  pub agrees_sym : (c a b : ℕ) → c ≤ 8 * f.size → agrees f c a b ≡ true → agrees f c b a ≡ true
  agrees_sym c a b p h = (agrees_iff c b a p).1 (λ i s. sym ((agrees_iff c a b p).0 h i s))

  pub agrees_trans :
      (c a b x : ℕ)
      → c ≤ 8 * f.size
      → agrees f c a b ≡ true
      → agrees f c b x ≡ true
      → agrees f c a x ≡ true
  agrees_trans c a b x p h k =
      (agrees_iff c a x p).1 (λ i s. (agrees_iff c a b p).0 h i s ∙ (agrees_iff c b x p).0 k i s)

  -- Addresses with the same prefix have it in common with the same addresses.
  pub agrees_same :
      (c a b x : ℕ) → c ≤ 8 * f.size → agrees f c a b ≡ true → agrees f c a x ≡ agrees f c b x
  agrees_same c a b x p h = elim (Bool-cases (agrees f c b x)) [
    | inl held ↦ agrees_trans c a b x p h held ∙ sym held
    | inr other ↦ elim (Bool-cases (agrees f c a x)) [
      | inl held ↦ absurd (ground (arith, agrees_trans c b a x p (agrees_sym c a b p h) held))
      | inr other' ↦ other' ∙ sym other
    ]
  ]

  pub agrees-choose :
      (c d a b : ℕ) → c < d → d ≤ 8 * f.size → agrees f d a b ≡ true → choose f c a ≡ choose f c b
  agrees-choose c d a b p q h =
      choose-bit_at f c a (omega arith)
      ∙ (agrees_iff d a b q).0 h c p
      ∙ sym (choose-bit_at f c b (omega arith))

  -- Addresses that agree in one more bit have it in common.
  pub agrees-suc :
      (c a b : ℕ)
      → c < 8 * f.size
      → agrees f c a b ≡ true
      → choose f c a ≡ choose f c b
      → agrees f (suc c) a b ≡ true
  agrees-suc c a b p h same =
      let bit_same : bit_at f.size c a ≡ bit_at f.size c b =
        sym (choose-bit_at f c a p) ∙ same ∙ choose-bit_at f c b p in
      (agrees_iff (suc c) a b (omega arith)).1 (λ i s. elim (Bool-cases (ltb i c)) [
        | inl low ↦ (agrees_iff c a b (omega arith)).0 h i (ground arith)
        | inr high ↦ subst (λ j. bit_at f.size j a ≡ bit_at f.size j b) (ground arith) bit_same
      ])

  -- The first bit that is not in common differs.
  pub choose-ne :
      (a b : ℕ)
      → f.common_bits a b < 8 * f.size
      → choose f (f.common_bits a b) a ≢ choose f (f.common_bits a b) b
  choose-ne a b p same = ground (arith, agrees-suc (f.common_bits a b) a b p (ground arith) same)

  pub agrees-mask : (c a : ℕ) → c ≤ 8 * f.size → agrees f c (mask_self f c a) a ≡ true
  agrees-mask c a p = (agrees_iff c _ a p).1 (λ i s. mask_self-bit_at f c i a p s)
