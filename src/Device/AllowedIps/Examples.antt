-- ===== src/Device/AllowedIps/Examples.antt =====
-- Runs of the trie of device/allowedips.go, and its theorems at concrete inputs.
use wgservermgr.Prelude.{
  ℕ, ◌+◌, ◌*◌, ◌^◌, ◌≡◌, refl, none, some, arith, List, [], ◌∷◌, map, ◌==◌, ◌&&◌, if◌then◌else◌,
}
use wgservermgr.Prelude.Bits.{bit}
use wgservermgr.Device.AllowedIps.Addresses.{ipv4, common_bits4, common_bits16, choose, mask_self}
use wgservermgr.Device.AllowedIps.Xor.{leading_zeros}
use wgservermgr.Device.AllowedIps.Trie.{nil, agrees, exact_peer, lookup, insert, insert_above}
use wgservermgr.Device.AllowedIps.Inserted.{WellFormed, insert-exact}
use wgservermgr.Device.AllowedIps.Longest.{longest}
use wgservermgr.Device.AllowedIps.Routes.{
  Route, inserts, AllFit, peer_of, inserts-exact, lookup-longest,
}

abbrev address : ℕ → ℕ → ℕ → ℕ → ℕ
address a b c d = ((a * 256 + b) * 256 + c) * 256 + d

-- 10.1.2.3/32, 0.0.0.0/0, 10.0.0.0/8 with host bits that the trie masks, 10.1.0.0/16 twice, and
-- 192.168.1.0/24.
abbrev routes : List Route
routes =
    record { ip = address 10 1 2 3; cidr = 32; peer = 3 }
    ∷ record { ip = address 0 0 0 0; cidr = 0; peer = 4 }
    ∷ record { ip = address 10 9 9 9; cidr = 8; peer = 1 }
    ∷ record { ip = address 10 1 0 0; cidr = 16; peer = 5 }
    ∷ record { ip = address 10 1 0 0; cidr = 16; peer = 2 }
    ∷ record { ip = address 192 168 1 0; cidr = 24; peer = 6 }
    ∷ []

lookups :
    map
      (λ x. lookup ipv4 x (inserts ipv4 routes nil) none)
      (address 10 1 2 3
        ∷ address 10 1 2 4
        ∷ address 10 2 0 1
        ∷ address 192 168 1 7
        ∷ address 192 168 2 7
        ∷ [])
    ≡ some 3 ∷ some 2 ∷ some 1 ∷ some 6 ∷ some 4 ∷ []
unfolding lookup inserts insert insert_above choose mask_self common_bits4 leading_zeros bit
lookups = refl

routes_fit : AllFit ipv4 routes
unfolding AllFit
routes_fit = omega arith

lookup-longest_example :
    lookup ipv4 (address 10 1 2 4) (inserts ipv4 routes nil) none
    ≡ longest (λ cidr. peer_of 4 (address 10 1 2 4) cidr routes none) 32
lookup-longest_example = lookup-longest ipv4 (address 10 1 2 4) routes routes_fit

routes-WellFormed : WellFormed ipv4 (λ _ _. Unit) (inserts ipv4 routes nil)
unfolding WellFormed
routes-WellFormed = (inserts-exact ipv4 0 0 routes nil routes_fit tt).1

insert-exact_example :
    exact_peer ipv4
      (address 10 1 2 4)
      24
      (insert ipv4 (address 10 1 2 0) 24 7 (inserts ipv4 routes nil))
    ≡ (if (24 == 24) && agrees ipv4 24 (address 10 1 2 0) (address 10 1 2 4)
        then some 7
        else exact_peer ipv4 (address 10 1 2 4) 24 (inserts ipv4 routes nil))
insert-exact_example =
    insert-exact ipv4 (address 10 1 2 0) 24 7 (address 10 1 2 4) 24 (inserts ipv4 routes nil)
      (λ _ _. Unit) routes-WellFormed (omega arith)

in_common : common_bits16 (5 * 2 ^ 64) (5 * 2 ^ 64 + 2 ^ 61) ≡ 66
unfolding common_bits16 leading_zeros bit
in_common = refl
