-- ===== src/Device/AllowedIps/Inserted.antt =====
-- device/allowedips.go: what `insert` changes in the map from prefixes to peers that a trie holds.
use wgservermgr.Prelude.{
  ℕ, ◌*◌, ◌≤◌, ◌<◌, ◌≡◌, ◌≢◌, refl, sym, ◌∙◌, Bool, true, false, ◌&&◌, Option, none, some, arith,
  ◌⊎◌, inl, inr, Bool-cases, ltb, leb, ◌==◌, subst, ap, if◌then◌else◌,
}
use wgservermgr.Device.AllowedIps.Addresses.{Family, choose, mask_self}
use wgservermgr.Device.AllowedIps.Trie.{
  Trie, nil, entry, agrees, exact_peer, new_node, insert_above, insert, set_child,
}
use wgservermgr.Device.AllowedIps.Prefixes.{
  agrees_trans, agrees_same, agrees-choose, choose-ne, agrees-mask,
}

-- The prefix of a child is longer than its parent's, begins with it, and goes on with the bit of the
-- side that the child is on.
abbrev pub Inside : Family → ℕ → ℕ → Bool → ℕ → ℕ → Type 0
Inside f parent_bits parent_cidr side bits cidr =
    (parent_cidr < cidr)
    × (agrees f parent_cidr parent_bits bits ≡ true)
    × (choose f parent_cidr bits ≡ side)

-- Every node is inside the prefix of the node above it, and no prefix is longer than an address.
unfoldable pub WellFormed : Family → (ℕ → ℕ → Type 0) → Trie → Type 0
WellFormed f Within nil = Unit
WellFormed f Within (entry peer bits cidr child0 child1) =
    Within bits cidr
    × (cidr ≤ 8 * f.size)
    × WellFormed f (Inside f bits cidr false) child0
    × WellFormed f (Inside f bits cidr true) child1

module _ (f : Family) (ip c p x d : ℕ) where
  -- The peer of a prefix once `p` has that of the first `c` bits of `ip`.
  abbrev pub routed : Option ℕ → Option ℕ
  routed old = if (d == c) && agrees f c ip x then some p else old

  pub exact_peer-entry :
      (q : Option ℕ) (bits e : ℕ) (l r : Trie)
      → exact_peer f x d (entry q bits e l r) ≡ (
          if leb e d && agrees f e bits x
          then (if e == d
              then q
              else if choose f e x
              then exact_peer f x d r
              else exact_peer f x d l)
          else none)
  unfolding exact_peer
  exact_peer-entry q bits e l r = refl

  pub insert-entry :
      (q : Option ℕ) (bits e : ℕ) (l r : Trie)
      → insert f ip c p (entry q bits e l r) ≡ (
          if leb e c && agrees f e bits ip
          then (if e == c
              then entry (some p) bits e l r
              else if choose f e ip
              then entry q bits e l (insert f ip c p r)
              else entry q bits e (insert f ip c p l) r)
          else insert_above f (mask_self f c ip) c p bits (entry q bits e l r))
  unfolding insert
  insert-entry q bits e l r = refl

  new_node-exact : c ≤ 8 * f.size → exact_peer f x d (new_node f ip c p) ≡ routed none
  unfolding exact_peer
  new_node-exact fits =
      exact_peer-entry _ _ _ nil nil
      ∙ ground (arith, agrees_same f c (mask_self f c ip) ip x fits (agrees-mask f c ip fits))

  pub exact_peer-nil : exact_peer f x d nil ≡ none
  unfolding exact_peer
  exact_peer-nil = refl

  masked_same : c ≤ 8 * f.size → agrees f c (mask_self f c ip) x ≡ agrees f c ip x
  masked_same fits = agrees_same f c (mask_self f c ip) ip x fits (agrees-mask f c ip fits)

  -- A node that is in the way of an insertion has a longer prefix than what they have in common.
  pub apart-lt :
      (bits e : ℕ)
      → c ≤ 8 * f.size
      → leb e c && agrees f e bits ip ≡ false
      → e ≤ c
      → f.common_bits bits (mask_self f c ip) < e
  apart-lt bits e fits apart short = elim (Bool-cases (agrees f e bits (mask_self f c ip))) [
    | inr less ↦ ground arith
    | inl held ↦
        let mask = agrees-mask f c ip fits in
        absurd (ground (arith, agrees_trans f e bits (mask_self f c ip) ip (omega arith) held))
  ]

  -- `m` is the masked address, and the node in the way is longer than what it has in common with it.
  module _ (m : ℕ) (m_same : agrees f c m x ≡ agrees f c ip x) (q : Option ℕ) (bits e : ℕ)
      (l r : Trie) (fits : c ≤ 8 * f.size) (within : e ≤ 8 * f.size)
      (apart : e ≤ c → f.common_bits bits m < e) where
    longer_than : (k : ℕ) → k ≤ f.common_bits bits m → k ≤ c → k < e
    longer_than k common short = elim (Bool-cases (leb e c)) [
      | inl under ↦ omega (arith, apart (ground arith))
      | inr over ↦ ground arith
    ]

    -- Where an address goes that has the prefix of the node in the way.
    down_side :
        (k : ℕ)
        → k < e
        → (agrees f e bits x ≡ false)
          ⊎ ((agrees f k bits x ≡ true) × (choose f k bits ≡ choose f k x))
    down_side k longer = elim (Bool-cases (agrees f e bits x)) [
      | inr other ↦ inl other
      | inl held ↦ inr (ground arith, agrees-choose f k e bits x longer within held)
    ]

    new_side :
        (k : ℕ)
        → k < c
        → (agrees f c m x ≡ false) ⊎ ((agrees f k m x ≡ true) × (choose f k m ≡ choose f k x))
    new_side k longer = elim (Bool-cases (agrees f c m x)) [
      | inr other ↦ inl other
      | inl held ↦ inr (ground arith, agrees-choose f k c m x longer fits held)
    ]

    above_down :
        c ≤ f.common_bits bits m
        → exact_peer f x d
            (set_child (choose f c bits) (entry q bits e l r) (entry (some p) m c nil nil))
          ≡ routed (exact_peer f x d (entry q bits e l r))
    above_down common =
        let down = exact_peer-entry q bits e l r in
        let same = agrees_same f c bits m x fits (ground arith) in
        let side = down_side c (longer_than c common (omega arith)) in
        elim (Bool-cases (choose f c bits)) [
          | inl one ↦ rw one (
              exact_peer-entry (some p) m c nil (entry q bits e l r)
              ∙ ground (arith, exact_peer-nil, down, same, side))
          | inr zero_ ↦ rw zero_ (
              exact_peer-entry (some p) m c (entry q bits e l r) nil
              ∙ ground (arith, exact_peer-nil, down, same, side))
        ]

    above_both :
        (k : ℕ)
        → k ≡ f.common_bits bits m
        → k < c
        → exact_peer f x d (
            set_child (choose f k m) (entry (some p) m c nil nil) (
              set_child
                (choose f k bits)
                (entry q bits e l r)
                (entry none (mask_self f k m) k nil nil)))
          ≡ routed (exact_peer f x d (entry q bits e l r))
    above_both k is short =
        let longer = longer_than k (omega arith) (omega arith) in
        let down = exact_peer-entry q bits e l r in
        let node = exact_peer-entry (some p) m c nil nil in
        let glue =
          agrees_same f k (mask_self f k m) m x (omega arith) (agrees-mask f k m (omega arith)) in
        let same = agrees_same f k bits m x (omega arith) (ground arith) in
        let side = down_side k longer in
        let side' = new_side k short in
        let split : choose f k bits ≢ choose f k m =
          subst (λ j. choose f j bits ≢ choose f j m) (sym is) (choose-ne f bits m (omega arith)) in
        elim (Bool-cases (choose f k bits)) [
          | inl one ↦ elim (Bool-cases (choose f k m)) [
            | inl one' ↦ absurd (split (one ∙ sym one'))
            | inr zero_ ↦
                rw (one, zero_)
                  (exact_peer-entry none (mask_self f k m) k (entry (some p) m c nil nil)
                      (entry q bits e l r)
                    ∙ ground (arith, exact_peer-nil, down, node, glue, same, side, side'))
          ]
          | inr zero_ ↦ elim (Bool-cases (choose f k m)) [
            | inl one ↦
                rw (zero_, one)
                  (exact_peer-entry none (mask_self f k m) k (entry q bits e l r)
                      (entry (some p) m c nil nil)
                    ∙ ground (arith, exact_peer-nil, down, node, glue, same, side, side'))
            | inr zero_' ↦ absurd (split (zero_ ∙ sym zero_'))
          ]
        ]

  above-exact :
      (q : Option ℕ) (bits e : ℕ) (l r : Trie)
      → c ≤ 8 * f.size
      → e ≤ 8 * f.size
      → leb e c && agrees f e bits ip ≡ false
      → exact_peer f x d (insert_above f (mask_self f c ip) c p bits (entry q bits e l r))
        ≡ routed (exact_peer f x d (entry q bits e l r))
  unfolding insert_above
  above-exact q bits e l r fits within apart =
      elim (Bool-cases (ltb (f.common_bits bits (mask_self f c ip)) c)) [
        | inl short ↦
            let differs : (c == f.common_bits bits (mask_self f c ip)) ≡ false = ground arith in
            rw (short, differs)
              (above_both (mask_self f c ip) (masked_same fits) q bits e l r fits within
                (apart-lt bits e fits apart) _ refl (ground arith))
        | inr long ↦
            let same : (c == c) ≡ true = ground arith in
            rw (long, same)
              (above_down (mask_self f c ip) (masked_same fits) q bits e l r fits within
                (apart-lt bits e fits apart) (ground arith))
      ]

  -- An address with the new prefix goes the way of the insertion.
  below :
      (bits e : ℕ)
      → e < c
      → c ≤ 8 * f.size
      → agrees f e bits ip ≡ true
      → (agrees f c ip x ≡ false) ⊎ ((agrees f e bits x ≡ true) × (choose f e ip ≡ choose f e x))
  below bits e longer fits into = elim (Bool-cases (agrees f c ip x)) [
    | inr other ↦ inl other
    | inl held ↦ inr (
      agrees_trans f e bits ip x (omega arith) into (ground arith),
      agrees-choose f e c ip x longer fits held,
    )
  ]

  -- `insert` into a well-formed trie, of a prefix no longer than an address, gives its peer to
  -- the node that `nodePlacement` finds exactly for this prefix, and leaves the peer of every
  -- other prefix as it was.
  pub insert-exact :
      (t : Trie) (Within : ℕ → ℕ → Type 0)
      → WellFormed f Within t
      → c ≤ 8 * f.size
      → exact_peer f x d (insert f ip c p t) ≡ routed (exact_peer f x d t)
  unfolding insert WellFormed
  insert-exact nil Within v fits = new_node-exact fits ∙ ap routed (sym exact_peer-nil)
  insert-exact (entry q bits e l r) Within v fits =
      let right = insert-exact r (Inside f bits e true) v.3 fits in
      let left = insert-exact l (Inside f bits e false) v.2 fits in
      rw (insert-entry q bits e l r, exact_peer-entry q bits e l r)
        (elim (Bool-cases (leb e c && agrees f e bits ip)) [
          | inl into ↦ elim (Bool-cases (e == c)) [
            | inl same ↦
                rw (into, same)
                  (exact_peer-entry (some p) bits e l r
                    ∙ ground (arith, agrees_same f e bits ip x (omega arith)))
            | inr longer ↦ elim (Bool-cases (choose f e ip)) [
              | inl one ↦
                  rw (into, longer, one)
                    (exact_peer-entry q bits e l (insert f ip c p r)
                      ∙ ground (arith, right, below bits e (ground arith) fits (ground arith)))
              | inr zero_ ↦
                  rw (into, longer, zero_)
                    (exact_peer-entry q bits e (insert f ip c p l) r
                      ∙ ground (arith, left, below bits e (ground arith) fits (ground arith)))
            ]
          ]
          | inr apart ↦
              rw apart (
                above-exact q bits e l r fits v.1 apart ∙ ap routed (exact_peer-entry q bits e l r))
        ])
