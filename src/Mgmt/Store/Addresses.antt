-- ===== src/Mgmt/Store/Addresses.antt =====
-- mgmt/store/store.go: the search of `allocateIP` for a free host of the subnet.
use native.Mathlib.Decide.{ℕ_discrete}
use wgservermgr.Prelude.{
  ℕ, zero, suc, ◌+◌, ◌-◌, ◌%◌, ◌^◌, ◌≤◌, ◌<◌, ◌≡◌, true, false, leb, if◌then◌else◌, List, [], ◌∷◌,
  Option, none, some, contains, arith, Bool-cases, inl, inr,
}
use wgservermgr.Prelude.Words.{u32_mod}

-- The four bytes of an IPv4 address.
pub record Addr4 : Type 0 where
  pub b0 : ℕ
  pub b1 : ℕ
  pub b2 : ℕ
  pub b3 : ℕ

pub record IsAddr4 (a : Addr4) : Type 0 where
  pub byte0 : a.b0 < 256
  pub byte1 : a.b1 < 256
  pub byte2 : a.b2 < 256
  pub byte3 : a.b3 < 256

-- `netip.Prefix` of an IPv4 subnet.
pub record Prefix : Type 0 where
  pub addr : Addr4
  pub bits : ℕ

unfoldable pub ip_to_host : Addr4 → ℕ
ip_to_host a = a.b3

-- `uint32(1<<(32-bits) - 2)`: both the shift and the difference are of 32 bits.
unfoldable pub max_hosts : ℕ → ℕ
max_hosts bits = (2 ^ (32 - bits) % u32_mod + u32_mod - 2) % u32_mod

-- `for host := host; host <= maxHosts; host++`, with fuel. The outer option says that the fuel was
-- enough, the inner one that a host was free.
unfoldable pub search_host : ℕ → ℕ → ℕ → List ℕ → Option (Option ℕ)
search_host zero host last used = none
search_host (suc fuel) host last used =
    let rest = search_host fuel ((host + 1) % u32_mod) last used in
    if leb host last then (if contains used host then rest else some (some host)) else some none

-- More rounds than there are values of a byte: no host above 255 is ever in use.
abbrev pub search_fuel : ℕ
search_fuel = 256

unfoldable pub host_addr : Prefix → ℕ → Addr4
host_addr subnet host = record {
  b0 = subnet.addr.b0;
  b1 = subnet.addr.b1;
  b2 = subnet.addr.b2;
  b3 = host % 256;
}

-- The hosts in use are last bytes.
abbrev pub AllBytes : List ℕ → Type 0
AllBytes [] = Unit {0}
AllBytes (x ∷ xs) = (x < 256) × AllBytes xs

pub contains-lt : (xs : List ℕ) (a : ℕ) → AllBytes xs → contains xs a ≡ true → a < 256
contains-lt [] a b h = cc
contains-lt (x ∷ xs) a b h = ground (arith, contains-lt xs a b.1)

-- What the search finds from `host` on: the least host that is not in use, or none at all.
pub data Found (host last : ℕ) (used : List ℕ) : Option ℕ → Type 0 where
  least :
      (h : ℕ)
      → host ≤ h
      → h ≤ last
      → contains used h ≡ false
      → ((k : ℕ) → host ≤ k → k < h → contains used k ≡ true)
      → Found host last used (some h)
  full : ((k : ℕ) → host ≤ k → k ≤ last → contains used k ≡ true) → Found host last used none

Found-earlier :
    (host last : ℕ) (used : List ℕ) {r : Option ℕ}
    → contains used host ≡ true
    → Found (host + 1) last used r
    → Found host last used r
Found-earlier host last used taken (least h p q free below) =
    least h (omega arith) q free (λ k x y. extend k x (below k) y)
  where
    extend :
        (k : ℕ)
        → host ≤ k
        → (host + 1 ≤ k → k < h → contains used k ≡ true)
        → k < h
        → contains used k ≡ true
    extend k x f y = elim (ℕ_discrete host k) [ yes e ↦ rw (← e) taken | no ne ↦ f (omega arith) y ]
Found-earlier host last used taken (full below) = full (λ k x y. extend k x (below k) y)
  where
    extend :
        (k : ℕ)
        → host ≤ k
        → (host + 1 ≤ k → k ≤ last → contains used k ≡ true)
        → k ≤ last
        → contains used k ≡ true
    extend k x f y = elim (ℕ_discrete host k) [ yes e ↦ rw (← e) taken | no ne ↦ f (omega arith) y ]

search_host-Found_from :
    (fuel host last : ℕ) (used : List ℕ)
    → AllBytes used
    → last < u32_mod
    → host ≤ 256
    → 256 < host + fuel
    → (r : Option ℕ) × (search_host fuel host last used ≡ some r) × Found host last used r
unfolding search_host
search_host-Found_from zero host last used b s p q = absurd (omega arith)
search_host-Found_from (suc fuel) host last used b s p q = elim (Bool-cases (leb host last)) [
  | inr past ↦ (none, rw past, full (λ k x y. absurd (ground arith)))
  | inl within ↦ elim (Bool-cases (contains used host)) [
    | inr free ↦ (
      some host,
      rw (within, free),
      least host (omega arith) (ground arith) free (λ k x y. absurd (omega arith)),
    )
    | inl taken ↦
        let (r, e, found) =
          search_host-Found_from fuel (host + 1) last used b s
            (omega (arith, contains-lt used host b taken)) (omega arith) in
        (r, rw (within, taken, next) e, Found-earlier host last used taken found)
  ]
]
  where
    next : (host + 1) % u32_mod ≡ host + 1
    next = omega arith

-- The search ends within its fuel, on the least host from 2 to `last` that is not in use, or with
-- no host if all are.
pub search_host-Found :
    (last : ℕ) (used : List ℕ)
    → AllBytes used
    → last < u32_mod
    → (r : Option ℕ) × (search_host search_fuel 2 last used ≡ some r) × Found 2 last used r
search_host-Found last used b s =
    search_host-Found_from search_fuel 2 last used b s (omega arith) (omega arith)
