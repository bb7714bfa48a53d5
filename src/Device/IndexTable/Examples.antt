-- ===== src/Device/IndexTable/Examples.antt =====
-- Runs of the index table of device/indextable.go, and its theorems at concrete inputs.
use wgservermgr.Prelude.{ℕ, ◌≡◌, refl, ◌∙◌, none, some, List, [], ◌∷◌, inl, inr}
use wgservermgr.Prelude.Maps.{nat_key, insert, lookup-insert}
use wgservermgr.Device.IndexTable.{
  Table, Round, given, zero_entry, handshake_entry, check_and_take, new_index, delete_index,
  swap_index, lookup_index,
}
use wgservermgr.Device.IndexTable.Fresh.{
  Ended, Drawn, LeftFree, IsGiven, new_index-Ended, new_index-IsGiven,
}

abbrev others : Table
others = insert 7 (handshake_entry 1 11) []

-- The first draw is taken, another goroutine takes the second between the two checks, and the
-- third is free.
abbrev rounds : List Round
rounds =
    record { random = some 7; meanwhile = λ t. t }
    ∷ record { random = some 8; meanwhile = λ t. insert 8 (handshake_entry 2 12) t }
    ∷ record { random = some 9; meanwhile = λ t. t }
    ∷ []

new_index-run :
    new_index 3 13 rounds others
    ≡ given 9 (insert 9 (handshake_entry 3 13) (insert 8 (handshake_entry 2 12) others))
unfolding new_index check_and_take
new_index-run = refl

swap_index-run :
    lookup_index 7 (swap_index 7 (some 21) others)
    ≡ record { peer = some 1; handshake = none; keypair = some 21 }
unfolding lookup_index swap_index
swap_index-run = refl

delete_index-run : lookup_index 7 (delete_index 7 others) ≡ zero_entry
unfolding lookup_index delete_index
delete_index-run = refl

some-none : {i : ℕ} → ¬ (some i ≡ none)
some-none h = cc

drawn : Drawn (some 9) rounds
unfolding Drawn
drawn = inr (inr (inl refl))

no_error : ¬ (Drawn none rounds)
unfolding Drawn
no_error (inl h) = some-none h
no_error (inr (inl h)) = some-none h
no_error (inr (inr (inl h))) = some-none h
no_error (inr (inr (inr h))) = h

left_free : LeftFree 9 rounds
unfolding LeftFree
left_free = (λ t e. e, (λ t e. lookup-insert 8 9 (handshake_entry 2 12) t ∙ e, (λ t e. e, tt)))

new_index-Ended_example : Ended 3 13 rounds others (new_index 3 13 rounds others)
new_index-Ended_example = new_index-Ended 3 13 rounds others

new_index-IsGiven_example : IsGiven (new_index 3 13 rounds others)
new_index-IsGiven_example = new_index-IsGiven 3 13 9 rounds others drawn no_error left_free refl
