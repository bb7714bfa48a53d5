-- ===== src/Device/AllowedIps/Routes.antt =====
-- device/allowedips.go: a trie that insertions made answers as the list of its routes does.
use wgservermgr.Prelude.{
  ℕ, zero, suc, ◌*◌, ◌≤◌, ◌≡◌, refl, sym, ◌∙◌, Bool, true, not, ◌&&◌, Option, none, some, arith,
  inl, inr, Bool-cases, ltb, ◌==◌, if◌then◌else◌, List, [], ◌∷◌, ap, ◌↔◌, subst,
}
use wgservermgr.Device.AllowedIps.Addresses.{Family, Agree, bit_at}
use wgservermgr.Device.AllowedIps.Trie.{Trie, nil, agrees, exact_peer, lookup, insert}
use wgservermgr.Device.AllowedIps.Prefixes.{agrees_iff}
use wgservermgr.Device.AllowedIps.Inserted.{WellFormed, insert-exact, exact_peer-nil}
use wgservermgr.Device.AllowedIps.Ordered.{Closed, insert-WellFormed}
use wgservermgr.Device.AllowedIps.Longest.{
  longest, longest-same, found_at-none, lookup-longest_from,
}

-- The arguments of one call of `insert`.
pub record Route : Type 0 where
  pub ip : ℕ
  pub cidr : ℕ
  pub peer : ℕ

-- The calls of `insert`, the first of the list first.
unfoldable pub inserts : Family → List Route → Trie → Trie
inserts f [] t = t
inserts f (r ∷ rs) t = inserts f rs (insert f r.ip r.cidr r.peer t)

unfoldable pub AllFit : Family → List Route → Type 0
AllFit f [] = Unit
AllFit f (r ∷ rs) = (r.cidr ≤ 8 * f.size) × AllFit f rs

-- Bit by bit, the first `cidr` bits of two addresses of `size` bytes are the same.
unfoldable pub same_prefix : ℕ → ℕ → ℕ → ℕ → Bool
same_prefix size zero a b = true
same_prefix size (suc cidr) a b =
    let rest = same_prefix size cidr a b in
    (if bit_at size cidr a then bit_at size cidr b else not (bit_at size cidr b)) && rest

same_prefix_iff : (size c a b : ℕ) → (same_prefix size c a b ≡ true) ↔ Agree size c a b
unfolding same_prefix
same_prefix_iff size zero a b = (λ h i s. absurd (omega arith), λ h. refl)
same_prefix_iff size (suc c) a b = (
  λ h i s. elim (Bool-cases (ltb i c)) [
    | inl low ↦ (same_prefix_iff size c a b).0 (ground arith) i (ground arith)
    | inr high ↦
        subst (λ j. bit_at size j a ≡ bit_at size j b) {x = c} (ground arith) (ground arith)
  ],
  λ h.
      let rest = (same_prefix_iff size c a b).1 (λ i s. h i (omega arith)) in
      let here = h c (omega arith) in ground arith,
)

-- The peer that the last route of a prefix names, the first `cidr` bits of `ip`.
unfoldable pub peer_of : ℕ → ℕ → ℕ → List Route → Option ℕ → Option ℕ
peer_of size ip cidr [] old = old
peer_of size ip cidr (r ∷ rs) old =
    peer_of size ip cidr rs
      (if (cidr == r.cidr) && same_prefix size cidr r.ip ip then some r.peer else old)

module _ (f : Family) (x : ℕ) where
  agrees-same_prefix : (c ip : ℕ) → c ≤ 8 * f.size → agrees f c ip x ≡ same_prefix f.size c ip x
  agrees-same_prefix c ip fits = elim (Bool-cases (same_prefix f.size c ip x)) [
    | inl same ↦ (agrees_iff f c ip x fits).1 ((same_prefix_iff f.size c ip x).0 same) ∙ sym same
    | inr other ↦ elim (Bool-cases (agrees f c ip x)) [
      | inr other' ↦ other' ∙ sym other
      | inl held ↦
          absurd
            (ground (arith, (same_prefix_iff f.size c ip x).1 ((agrees_iff f c ip x fits).0 held)))
    ]
  ]

  closed : Closed f (λ _ _. Unit)
  unfolding Closed
  closed a b d c v w p q fits = tt

  -- One insertion does to the peer of a prefix what `peer_of` does.
  insert-peer_of :
      (d : ℕ) (r : Route) (t : Trie)
      → WellFormed f (λ _ _. Unit) t
      → r.cidr ≤ 8 * f.size
      → exact_peer f x d (insert f r.ip r.cidr r.peer t)
        ≡ (if (d == r.cidr) && same_prefix f.size d r.ip x then some r.peer else exact_peer f x d t)
  insert-peer_of d r t v fits =
      insert-exact f r.ip r.cidr r.peer x d t (λ _ _. Unit) v fits
      ∙ (elim (Bool-cases (d == r.cidr)) [
        | inr other ↦ rw other refl
        | inl same ↦
            let is : d ≡ r.cidr = ground arith in rw (is, agrees-same_prefix r.cidr r.ip fits) refl
      ])

  -- Insertions do to the peers of prefixes what `peer_of` does, and keep the trie well-formed.
  pub inserts-exact :
      (d : ℕ) (rs : List Route) (t : Trie)
      → AllFit f rs
      → WellFormed f (λ _ _. Unit) t
      → (exact_peer f x d (inserts f rs t) ≡ peer_of f.size x d rs (exact_peer f x d t))
        × WellFormed f (λ _ _. Unit) (inserts f rs t)
  unfolding AllFit peer_of inserts
  inserts-exact d [] t fit v = (refl, v)
  inserts-exact d (r ∷ rs) t fit v =
      let v' = insert-WellFormed f r.ip r.cidr r.peer fit.0 (λ _ _. Unit) closed tt t v in
      let rest = inserts-exact d rs (insert f r.ip r.cidr r.peer t) fit.1 v' in
      (rest.0 ∙ ap (peer_of f.size x d rs) (insert-peer_of d r t v fit.0), rest.1)

  -- In a trie that any calls of `insert` with prefixes no longer than an address have made from
  -- an empty one, `lookup` finds the peer of the longest prefix of the address, and of a prefix
  -- inserted twice the last peer.
  pub lookup-longest :
      (rs : List Route)
      → AllFit f rs
      → lookup f x (inserts f rs nil) none
        ≡ longest (λ cidr. peer_of f.size x cidr rs none) (8 * f.size)
  unfolding WellFormed
  lookup-longest rs fit =
      lookup-longest_from f x (λ _ _. Unit) (inserts f rs nil) none
        (inserts-exact 0 rs nil fit tt).1
      ∙ found_at-none _
      ∙ longest-same _ _ (8 * f.size) (λ d.
        (inserts-exact d rs nil fit tt).0 ∙ ap (peer_of f.size x d rs) (exact_peer-nil f 0 0 0 x d))
