-- ===== src/Device/AllowedIps/Ordered.antt =====
-- device/allowedips.go: `insert` keeps the trie well-formed.
use wgservermgr.Prelude.{
  ℕ, suc, ◌*◌, ◌≤◌, ◌<◌, ◌≡◌, ◌≢◌, refl, sym, ◌∙◌, Bool, true, false, ◌&&◌, Option, none, some,
  arith, inl, inr, Bool-cases, ltb, leb, ◌==◌,
}
use wgservermgr.Device.AllowedIps.Addresses.{Family, choose, mask_self}
use wgservermgr.Device.AllowedIps.Trie.{Trie, nil, entry, agrees, insert, insert_above, set_child}
use wgservermgr.Device.AllowedIps.Prefixes.{
  agrees_sym, agrees_trans, agrees-choose, agrees-suc, agrees-mask, choose-ne,
}
use wgservermgr.Device.AllowedIps.Inserted.{Inside, WellFormed, insert-entry, apart-lt}

-- What two prefixes have in common is inside where both are.
unfoldable pub Closed : Family → (ℕ → ℕ → Type 0) → Type 0
Closed f Within =
    (a b d c : ℕ)
    → Within a d
    → Within b c
    → f.common_bits a b < d
    → f.common_bits a b < c
    → c ≤ 8 * f.size
    → Within (mask_self f (f.common_bits a b) b) (f.common_bits a b)

module _ (f : Family) where
  pub Inside-Closed : (bits cidr : ℕ) (side : Bool) → Closed f (Inside f bits cidr side)
  unfolding Closed
  Inside-Closed bits cidr side a b d c v w p q fits =
      let k = f.common_bits a b in
      let within : cidr ≤ 8 * f.size = omega (arith, w.0) in
      let same : agrees f cidr a b ≡ true =
        agrees_trans f cidr a bits b within (agrees_sym f cidr bits a within v.1) w.1 in
      let longer : agrees f (suc cidr) a b ≡ true =
        agrees-suc f cidr a b (omega (arith, w.0)) same (v.2 ∙ sym w.2) in
      let mask = agrees-mask f k b (omega arith) in
      let mask' : agrees f cidr (mask_self f k b) b ≡ true = ground (arith, mask, longer) in
      (
        ground (arith, longer),
        agrees_trans f cidr bits b (mask_self f k b) within w.1
            (agrees_sym f cidr _ b within mask'),
        agrees-choose f cidr k (mask_self f k b) b (ground (arith, longer)) (omega arith) mask
            ∙ w.2,
      )

  module _ (Within : ℕ → ℕ → Type 0) (q : Option ℕ) (b k : ℕ) (w : Within b k)
      (fits : k ≤ 8 * f.size) where
    set_child-WellFormed :
        (side : Bool) (t : Trie)
        → WellFormed f (Inside f b k side) t
        → WellFormed f Within (set_child side t (entry q b k nil nil))
    unfolding WellFormed
    set_child-WellFormed true t v = (w, fits, tt, v)
    set_child-WellFormed false t v = (w, fits, v, tt)

    set_both-WellFormed :
        (side side' : Bool) (t t' : Trie)
        → side ≢ side'
        → WellFormed f (Inside f b k side) t
        → WellFormed f (Inside f b k side') t'
        → WellFormed f Within (set_child side t (set_child side' t' (entry q b k nil nil)))
    unfolding WellFormed
    set_both-WellFormed true true t t' ne v v' = absurd (ne refl)
    set_both-WellFormed true false t t' ne v v' = (w, fits, v', v)
    set_both-WellFormed false true t t' ne v v' = (w, fits, v, v')
    set_both-WellFormed false false t t' ne v v' = absurd (ne refl)

  module _ (ip c p : ℕ) (fits : c ≤ 8 * f.size) where
    above-WellFormed :
        (Within : ℕ → ℕ → Type 0)
        → Closed f Within
        → Within (mask_self f c ip) c
        → (q : Option ℕ) (bits e : ℕ) (l r : Trie) → WellFormed f Within (entry q bits e l r)
        → leb e c && agrees f e bits ip ≡ false
        → WellFormed f Within (insert_above f (mask_self f c ip) c p bits (entry q bits e l r))
    unfolding WellFormed insert_above Closed
    above-WellFormed Within closed w q bits e l r v apart =
        elim (Bool-cases (ltb (f.common_bits bits (mask_self f c ip)) c)) [
          | inl short ↦
              let k = f.common_bits bits m in
              let differs : (c == f.common_bits bits m) ≡ false = ground arith in
              let longer : k < e = longer_than k (omega arith) (ground arith) in
              let mask = agrees-mask f k m (ground arith) in
              let mask' =
                agrees_trans f k (mask_self f k m) m bits (ground arith) mask
                  (agrees_sym f k bits m (ground arith) (ground arith)) in
              rw (short, differs)
                (set_both-WellFormed Within none (mask_self f k m) k
                  (closed bits m e c v.0 w longer (ground arith) fits) (ground arith) (choose f k m)
                  (choose f k bits) _ _ (λ same. choose-ne f bits m (ground arith) (sym same))
                  ((ground arith, mask, refl), fits, tt, tt) ((longer, mask', refl), v.1, v.2, v.3))
          | inr long ↦
              let same : (c == c) ≡ true = ground arith in
              let longer : c < e = longer_than c (ground arith) (omega arith) in
              rw (long, same)
                (set_child-WellFormed Within (some p) m c w fits (choose f c bits) _
                  ((longer, agrees_sym f c bits m fits (ground arith), refl), v.1, v.2, v.3))
        ]
      where
        m : ℕ
        m = mask_self f c ip

        longer_than : (k : ℕ) → k ≤ f.common_bits bits (mask_self f c ip) → k ≤ c → k < e
        longer_than k common short = elim (Bool-cases (leb e c)) [
          | inl under ↦ omega (arith, apart-lt f ip c p 0 0 bits e fits apart (ground arith))
          | inr over ↦ ground arith
        ]

    pub insert-WellFormed :
        (Within : ℕ → ℕ → Type 0)
        → Closed f Within
        → Within (mask_self f c ip) c
        → (t : Trie) → WellFormed f Within t
        → WellFormed f Within (insert f ip c p t)
    unfolding WellFormed insert
    insert-WellFormed Within closed w nil v = (w, fits, tt, tt)
    insert-WellFormed Within closed w (entry q bits e l r) v =
        rw (insert-entry f ip c p 0 0 q bits e l r)
          (elim (Bool-cases (leb e c && agrees f e bits ip)) [
            | inl into ↦ elim (Bool-cases (e == c)) [
              | inl same ↦ rw (into, same) v
              | inr longer ↦ elim (Bool-cases (choose f e ip)) [
                | inl one ↦
                    rw (into, longer, one)
                      (
                        v.0,
                        v.1,
                        v.2,
                        insert-WellFormed (Inside f bits e true) (Inside-Closed bits e true)
                            (inside true into longer one) r v.3,
                      )
                | inr zero_ ↦
                    rw (into, longer, zero_)
                      (
                        v.0,
                        v.1,
                        insert-WellFormed (Inside f bits e false) (Inside-Closed bits e false)
                            (inside false into longer zero_) l v.2,
                        v.3,
                      )
              ]
            ]
            | inr apart ↦ rw apart (above-WellFormed Within closed w q bits e l r v apart)
          ])
      where
        inside :
            (side : Bool)
            → leb e c && agrees f e bits ip ≡ true
            → (e == c) ≡ false
            → choose f e ip ≡ side
            → Inside f bits e side (mask_self f c ip) c
        inside side into longer way =
            let mask = agrees-mask f c ip fits in
            (
              ground arith,
              agrees_trans f e bits ip _ (ground arith) (ground arith)
                  (agrees_sym f e _ ip (ground arith) (ground arith)),
              agrees-choose f e c (mask_self f c ip) ip (ground arith) fits mask ∙ way,
            )
