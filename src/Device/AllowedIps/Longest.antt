-- ===== src/Device/AllowedIps/Longest.antt =====
-- device/allowedips.go: `lookup` finds the peer of the longest prefix of an address, whatever
-- insertions made the trie.
use wgservermgr.Prelude.{
  ℕ, zero, suc, ◌*◌, ◌/◌, ◌≤◌, ◌<◌, ◌≡◌, refl, sym, ◌∙◌, Bool, true, false, ◌&&◌, Option, none,
  some, arith, inl, inr, Bool-cases, leb, ◌==◌, ap, if◌then◌else◌,
}
use wgservermgr.Device.AllowedIps.Addresses.{Family, choose}
use wgservermgr.Device.AllowedIps.Trie.{Trie, nil, entry, agrees, exact_peer, found_at, lookup}
use wgservermgr.Device.AllowedIps.Inserted.{Inside, WellFormed, exact_peer-entry, exact_peer-nil}

-- The last of the peers at the places up to `n`.
unfoldable pub longest : (ℕ → Option ℕ) → ℕ → Option ℕ
longest s zero = s zero
longest s (suc n) = found_at (s (suc n)) (longest s n)

longest-none : (s : ℕ → Option ℕ) (n : ℕ) → ((d : ℕ) → d ≤ n → s d ≡ none) → longest s n ≡ none
unfolding longest
longest-none s zero h = h 0 (omega arith)
longest-none s (suc n) h =
    rw (h (suc n) (omega arith)) (longest-none s n (λ d p. h d (omega arith)))

pub longest-same :
    (s s' : ℕ → Option ℕ) (n : ℕ) → ((d : ℕ) → s d ≡ s' d) → longest s n ≡ longest s' n
unfolding longest
longest-same s s' zero h = h 0
longest-same s s' (suc n) h = rw (h (suc n), longest-same s s' n h) refl

found_at_assoc : (a b c : Option ℕ) → found_at a (found_at b c) ≡ found_at (found_at a b) c
found_at_assoc none b c = refl
found_at_assoc (some a) b c = refl

pub found_at-none : (a : Option ℕ) → found_at a none ≡ a
found_at-none none = refl
found_at-none (some a) = refl

-- Nothing is below the place `e`, and above it stands what `s'` has.
longest-above :
    (s s' : ℕ → Option ℕ) (e n : ℕ)
    → e ≤ n
    → ((d : ℕ) → d < e → s d ≡ none)
    → ((d : ℕ) → e < d → s d ≡ s' d)
    → ((d : ℕ) → d ≤ e → s' d ≡ none)
    → longest s n ≡ found_at (longest s' n) (s e)
unfolding longest
longest-above s s' e zero p low high none_ = rw (none_ 0 (omega arith)) (ap s (omega arith))
longest-above s s' e (suc n) p low high none_ = elim (Bool-cases (e == suc n)) [
  | inl last ↦
      let here : e ≡ suc n = ground arith in
      rw
        (
          none_ (suc n) (omega arith),
          longest-none s n (λ d q. low d (omega arith)),
          longest-none s' n (λ d q. none_ d (omega arith)),
        )
        (found_at-none (s (suc n)) ∙ ap s (sym here))
  | inr more ↦
      rw (high (suc n) (ground arith), longest-above s s' e n (ground arith) low high none_)
        (found_at_assoc (s' (suc n)) (longest s' n) (s e))
]

module _ (f : Family) (x : ℕ) where
  -- A child has no node of a prefix that is no longer than its parent's.
  exact_peer-short :
      (parent_bits parent_cidr : ℕ) (side : Bool) (t : Trie)
      → WellFormed f (Inside f parent_bits parent_cidr side) t
      → (d : ℕ) → d ≤ parent_cidr
      → exact_peer f x d t ≡ none
  unfolding WellFormed
  exact_peer-short b c side nil v d h = exact_peer-nil f 0 0 0 x d
  exact_peer-short b c side (entry q bits e l r) v d h =
      let longer = v.0.0 in exact_peer-entry f 0 0 0 x d q bits e l r ∙ ground arith

  longest-entry :
      (q : Option ℕ) (bits e : ℕ) (l r t : Trie) (side : Bool)
      → agrees f e bits x ≡ true
      → e ≤ 8 * f.size
      → WellFormed f (Inside f bits e side) t
      → (if choose f e x then r else l) ≡ t
      → longest (λ d. exact_peer f x d (entry q bits e l r)) (8 * f.size)
        ≡ found_at (longest (λ d. exact_peer f x d t) (8 * f.size)) q
  longest-entry q bits e l r t side held within v way =
      longest-above (λ d. exact_peer f x d (entry q bits e l r)) (λ d. exact_peer f x d t) e
        (8 * f.size) within (λ d p. at d ∙ ground arith) (λ d p. at d ∙ rw (← way) (chosen d p))
        (λ d p. exact_peer-short bits e side t v d p)
      ∙ ap (found_at _) (at e ∙ ground arith)
    where
      at :
          (d : ℕ)
          → exact_peer f x d (entry q bits e l r) ≡ (
              if leb e d && agrees f e bits x
              then (if e == d
                  then q
                  else if choose f e x
                  then exact_peer f x d r
                  else exact_peer f x d l)
              else none)
      at d = exact_peer-entry f 0 0 0 x d q bits e l r

      chosen :
          (d : ℕ)
          → e < d
          → (if leb e d && agrees f e bits x
              then (if e == d
                  then q
                  else if choose f e x
                  then exact_peer f x d r
                  else exact_peer f x d l)
              else none)
            ≡ exact_peer f x d (if choose f e x then r else l)
      chosen d p = elim (Bool-cases (choose f e x)) [
        | inl one ↦ rw one (ground arith)
        | inr zero_ ↦ rw zero_ (ground arith)
      ]

  pub lookup-longest_from :
      (Within : ℕ → ℕ → Type 0) (t : Trie) (found : Option ℕ)
      → WellFormed f Within t
      → lookup f x t found ≡ found_at (longest (λ d. exact_peer f x d t) (8 * f.size)) found
  unfolding lookup WellFormed
  lookup-longest_from Within nil found v =
      rw (longest-none (λ d. exact_peer f x d nil) (8 * f.size) (λ d h. exact_peer-nil f 0 0 0 x d))
        refl
  lookup-longest_from Within (entry q bits e l r) found v = elim (Bool-cases (agrees f e bits x)) [
    | inr other ↦
        rw
          (longest-none (λ d. exact_peer f x d (entry q bits e l r)) (8 * f.size)
            (λ d h. exact_peer-entry f 0 0 0 x d q bits e l r ∙ ground arith))
          (ground arith)
    | inl held ↦ elim (Bool-cases (choose f e x)) [
      | inl one ↦ rw (longest-entry q bits e l r r true held v.1 v.3 (rw one refl)) (
          ground (
            arith,
            found_at_assoc (longest (λ d. exact_peer f x d r) (8 * f.size)) q found,
            lookup-longest_from (Inside f bits e true) r (found_at q found) v.3,
            last r true v.3,
          ))
      | inr zero_ ↦ rw (longest-entry q bits e l r l false held v.1 v.2 (rw zero_ refl)) (
          ground (
            arith,
            found_at_assoc (longest (λ d. exact_peer f x d l) (8 * f.size)) q found,
            lookup-longest_from (Inside f bits e false) l (found_at q found) v.2,
            last l false v.2,
          ))
    ]
  ]
    where
      -- Below a prefix of all bits there is nothing.
      last :
          (t : Trie) (side : Bool)
          → WellFormed f (Inside f bits e side) t
          → (e / 8 == f.size) ≡ true
          → longest (λ d. exact_peer f x d t) (8 * f.size) ≡ none
      last t side w full =
          longest-none (λ d. exact_peer f x d t) (8 * f.size)
            (λ d h. exact_peer-short bits e side t w d (ground arith))
