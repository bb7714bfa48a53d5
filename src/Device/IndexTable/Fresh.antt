-- ===== src/Device/IndexTable/Fresh.antt =====
-- device/indextable.go: an index is given once, and a new one is given as soon as one is free.
use wgservermgr.Prelude.{
  ℕ, ◌≡◌, refl, sym, ap, subst, ◌∙◌, Option, none, some, List, [], ◌∷◌, ◌⊎◌, inl, inr, Option-cases,
  Bool-cases, ◌==◌, if◌then◌else◌,
}
use wgservermgr.Prelude.Maps.{nat_key, lookup, insert, lookup-insert, same_refl}
use wgservermgr.Device.IndexTable.{
  IndexTableEntry, Table, Round, Outcome, given, failed, running, handshake_entry, or_zero,
  check_and_take, new_index, swap_index, lookup_index,
}

some_injective : {i j : ℕ} → some i ≡ some j → i ≡ j
some_injective h = cc

none-some : (e : IndexTableEntry) → ¬ (none ≡ some e)
none-some e h = cc

-- A round draws this.
unfoldable pub Drawn : Option ℕ → List Round → Type 0
Drawn i [] = ⊥
Drawn i (r ∷ rs) = (r.random ≡ i) ⊎ Drawn i rs

-- The table as other goroutines leave it: the changes of the rounds, in their order, some left out.
unfoldable pub Others : List Round → Table → Table → Type 0
Others [] table found = found ≡ table
Others (r ∷ rs) table found = Others rs table found ⊎ Others rs (r.meanwhile table) found

Others-refl : (rs : List Round) (table : Table) → Others rs table table
unfolding Others
Others-refl [] table = refl
Others-refl (r ∷ rs) table = inl (Others-refl rs table)

-- What an outcome says, from a table at the start. An index that is given was drawn, and it was
-- free in the table as others left it, to which only its entry was added. A failure is one of
-- `randUint32`, and then and before the end nothing is written.
unfoldable pub Ended : ℕ → ℕ → List Round → Table → Outcome → Type 0
Ended peer handshake rs table (given i table') =
    Drawn (some i) rs
    × ((found : Table) × Others rs table found
        × (lookup i found ≡ none)
        × (table' ≡ insert i (handshake_entry peer handshake) found))
Ended peer handshake rs table (failed table') = Drawn none rs × Others rs table table'
Ended peer handshake rs table (running table') = Others rs table table'

-- Nobody else takes the index between the checks of a round.
unfoldable pub LeftFree : ℕ → List Round → Type 0
LeftFree i [] = Unit
LeftFree i (r ∷ rs) =
    ((table : Table) → lookup i table ≡ none → lookup i (r.meanwhile table) ≡ none) × LeftFree i rs

unfoldable pub IsGiven : Outcome → Type 0
IsGiven (given i table) = Unit
IsGiven (failed table) = ⊥
IsGiven (running table) = ⊥

module _ (peer handshake : ℕ) where
  -- What holds of the later rounds holds of all, where the first one changed the table or not.
  Ended-later :
      (r : Round) (rs : List Round) (table now : Table) (o : Outcome)
      → ((found : Table) → Others rs now found → Others (r ∷ rs) table found)
      → Ended peer handshake rs now o
      → Ended peer handshake (r ∷ rs) table o
  unfolding Ended Drawn
  Ended-later r rs table now (given i table') all (drawn, wrote) =
      let (found, others, free, written) = wrote in
      (inr drawn, (found, all found others, free, written))
  Ended-later r rs table now (failed table') all (drawn, others) = (inr drawn, all table' others)
  Ended-later r rs table now (running table') all others = all table' others

  -- Whatever other goroutines do to the table between the two checks of a round,
  -- `NewIndexForHandshake` writes only to add one entry: an index that it gives was drawn, and
  -- the new table is one without an entry for the index, with the entry added; that one is what
  -- the changes of some rounds, one after the other, have made of the table at the start. Where
  -- it fails, a draw failed, and then, as where no round is left, the table is what such changes
  -- have made.
  pub new_index-Ended :
      (rs : List Round) (table : Table)
      → Ended peer handshake rs table (new_index peer handshake rs table)
  unfolding new_index check_and_take Ended Drawn Others
  new_index-Ended [] table = refl
  new_index-Ended (r ∷ rs) table = elim (Option-cases r.random) [
    | inl error ↦ rw error (inl refl, inl (Others-refl rs table))
    | inr (i, drawn) ↦ elim (Option-cases (lookup i table)) [
      | inr (_, taken) ↦
          rw (drawn, taken)
            (Ended-later (record { random = some i; meanwhile = r.meanwhile }) rs table table _
              (λ found others. inl others) (new_index-Ended rs table))
      | inl free ↦ elim (Option-cases (lookup i (r.meanwhile table))) [
        | inr (_, taken) ↦
            rw (drawn, free, check_and_take, taken)
              (Ended-later (record { random = some i; meanwhile = r.meanwhile }) rs table _ _
                (λ found others. inr others) (new_index-Ended rs (r.meanwhile table)))
        | inl still ↦
            rw (drawn, free, check_and_take, still)
              (inl refl, (r.meanwhile table, inr (Others-refl rs (r.meanwhile table)), still, refl))
      ]
    ]
  ]

  -- `NewIndexForHandshake` gives an index within any rounds that draw, without a failed draw, one
  -- index that is free and that nobody else takes between the checks of these rounds.
  pub new_index-IsGiven :
      (i : ℕ) (rs : List Round) (table : Table)
      → Drawn (some i) rs
      → ¬ (Drawn none rs)
      → LeftFree i rs
      → lookup i table ≡ none
      → IsGiven (new_index peer handshake rs table)
  unfolding new_index check_and_take IsGiven Drawn LeftFree
  new_index-IsGiven i [] table d errors left free = d
  new_index-IsGiven i (r ∷ rs) table d errors left free = elim (Option-cases r.random) [
    | inl error ↦ absurd (errors (inl error))
    | inr (j, drawn) ↦ elim (Option-cases (lookup j table)) [
      | inr (_, taken) ↦
          rw (drawn, taken)
            (new_index-IsGiven i rs table (later j drawn table _ taken free) (λ e. errors (inr e))
              left.1 free)
      | inl free' ↦ elim (Option-cases (lookup j (r.meanwhile table))) [
        | inr (_, taken) ↦
            rw (drawn, free', check_and_take, taken)
              (new_index-IsGiven i rs (r.meanwhile table)
                (later j drawn (r.meanwhile table) _ taken (left.0 table free))
                (λ e. errors (inr e)) left.1 (left.0 table free))
        | inl still ↦ rw (drawn, free', check_and_take, still) tt
      ]
    ]
  ]
    where
      -- The round did not draw the index that is free, so a later one does.
      later :
          (j : ℕ)
          → r.random ≡ some j
          → (now : Table) (e : IndexTableEntry) → lookup j now ≡ some e
          → lookup i now ≡ none
          → Drawn (some i) rs
      later j drawn now e taken open_ = elim d [
        | inr rest ↦ rest
        | inl here ↦
            let same : j ≡ i = some_injective (sym drawn ∙ here) in
            let both : none ≡ some e = sym open_ ∙ ap (λ k. lookup k now) (sym same) ∙ taken in
            absurd (none-some e both)
      ]

-- After an entry for a handshake is written and its index swapped for a keypair, a lookup of the
-- index finds the peer, the keypair and no handshake, and a lookup of any other index what it
-- found before.
pub swap_index-lookup :
    (i j peer handshake : ℕ) (keypair : Option ℕ) (table : Table)
    → lookup_index j (swap_index i keypair (insert i (handshake_entry peer handshake) table)) ≡ (
        if nat_key.same i j
        then record { peer = some peer; handshake = none; keypair = keypair }
        else lookup_index j table)
unfolding swap_index lookup_index
swap_index-lookup i j peer handshake keypair table =
    let entry = record (handshake_entry peer handshake) { handshake = none; keypair = keypair } in
    let before = insert i (handshake_entry peer handshake) table in
    rw (swap_index, same_refl i, lookup_index)
      (ap or_zero (lookup-insert i j entry before) ∙ (elim (Bool-cases (i == j)) [
        | inl same ↦ rw same refl
        | inr other ↦
            rw other (
              ap or_zero (lookup-insert i j (handshake_entry peer handshake) table) ∙ rw other refl)
      ]))

-- The index that is given finds the handshake.
pub new_index-lookup :
    (peer handshake : ℕ) (rs : List Round) (table : Table) (i : ℕ) (table' : Table)
    → new_index peer handshake rs table ≡ given i table'
    → lookup i table' ≡ some (handshake_entry peer handshake)
unfolding Ended
new_index-lookup peer handshake rs table i table' h =
    let ended : Ended peer handshake rs table (given i table') =
      subst (λ o. Ended peer handshake rs table o) h (new_index-Ended peer handshake rs table) in
    let (before, others, free, written) = ended.1 in
    ap (lookup i) written
    ∙ lookup-insert i i (handshake_entry peer handshake) before
    ∙ rw (same_refl i)
