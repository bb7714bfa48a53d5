-- ===== src/Mgmt/Store/Allocate.antt =====
-- mgmt/store/store.go: which address `allocateIP` gives to a new user.
use Prim.Native.String.{String}
use native.Mathlib.Nat.{pow-le-pow_right}
use wgservermgr.Prelude.{
  ℕ, ◌-◌, ◌%◌, ◌^◌, ◌≤◌, ◌<◌, ◌≡◌, refl, sym, ◌∙◌, ap, subst, true, false, List, [], ◌∷◌, Option,
  some, contains, arith, Bool-cases, inl, inr, Option-cases,
}
use wgservermgr.Prelude.Words.{u32_mod}
use wgservermgr.Mgmt.Result.{Result, ok, err, no_available_ips, >>=-eq-ok}
use wgservermgr.Mgmt.Store.Addresses.{
  Addr4, IsAddr4, Prefix, ip_to_host, max_hosts, host_addr, AllBytes, Found, least, full,
  search_host-Found, contains-lt,
}
use wgservermgr.Mgmt.Store.Sqlite.{Sqlite, Formats, In, addresses}
use wgservermgr.Mgmt.Store.Users.{used_hosts, allocated, allocate_ip}

max_hosts-lt : (bits : ℕ) → max_hosts bits < u32_mod
unfolding max_hosts
max_hosts-lt bits = omega arith

pow_between : (lo hi k : ℕ) → lo ≤ k → k ≤ hi → (2 ^ lo ≤ 2 ^ k) × (2 ^ k ≤ 2 ^ hi)
pow_between lo hi k p q = (
  pow-le-pow_right {n = 2} (omega arith) {i = lo} {j = k} p,
  pow-le-pow_right {n = 2} (omega arith) {i = k} {j = hi} q,
)

-- Of a subnet from /24 to /31 the hosts are numbered as they should be.
pub max_hosts_narrow :
    (bits : ℕ)
    → 24 ≤ bits
    → bits ≤ 31
    → (max_hosts bits ≡ 2 ^ (32 - bits) - 2) × (max_hosts bits ≤ 254)
unfolding max_hosts
max_hosts_narrow bits p q =
    let b = pow_between 1 8 (32 - bits) (omega arith) (omega arith) in
    (omega (arith, b), omega (arith, b))

-- Of a wider one host 256 is among them.
pub max_hosts_wide : (bits : ℕ) → bits ≤ 23 → 256 ≤ max_hosts bits
unfolding max_hosts
max_hosts_wide bits p =
    let b = pow_between 9 32 (32 - bits) (omega arith) (omega arith) in omega (arith, b)

ok_injective {ℓ} : {A : Type ℓ} {x y : A} → ok x ≡ ok y → x ≡ y
ok_injective h = cc

module _ (s : Sqlite) (f : Formats) where
  used_hosts-AllBytes : (ips : List String) → AllBytes (used_hosts s f ips)
  unfolding used_hosts ip_to_host
  used_hosts-AllBytes [] = tt
  used_hosts-AllBytes (ip ∷ ips) = elim (Option-cases (f.parse_addr ip)) [
    | inl e ↦ rw (e, used_hosts) (used_hosts-AllBytes ips)
    | inr (a, e) ↦ rw (e, used_hosts) ((f.parse_addr_bytes ip a e).byte3, used_hosts-AllBytes ips)
  ]

  used_hosts-below : (ips : List String) → contains (used_hosts s f ips) 256 ≡ false
  used_hosts-below ips = elim (Bool-cases (contains (used_hosts s f ips) 256)) [
    | inl e ↦
        absurd (omega (arith, contains-lt (used_hosts s f ips) 256 (used_hosts-AllBytes ips) e))
    | inr e ↦ e
  ]

  -- The host of an address that is listed is in use.
  used_hosts-contains :
      (ip : String) (a : Addr4) (ips : List String)
      → f.parse_addr ip ≡ some a
      → In ip ips
      → contains (used_hosts s f ips) a.b3 ≡ true
  unfolding used_hosts ip_to_host
  used_hosts-contains ip a [] e h = absurd h
  used_hosts-contains ip a (x ∷ ips) e (inl same) = rw (← same, e, used_hosts) (ground arith)
  used_hosts-contains ip a (x ∷ ips) e (inr later) = elim (Option-cases (f.parse_addr x)) [
    | inl p ↦ rw (p, used_hosts) (used_hosts-contains ip a ips e later)
    | inr (b, p) ↦ rw (p, used_hosts) (ground (arith, used_hosts-contains ip a ips e later))
  ]

  module _ (subnet : Prefix) where
    -- What `allocateIP` does once it has read the addresses.
    pub data Allocated (db : s.Db) (ips : List String) : Result (String × ℕ) → Type 0 where
      gave :
          (h : ℕ)
          → 2 ≤ h
          → h ≤ max_hosts subnet.bits
          → contains (used_hosts s f ips) h ≡ false
          → ((k : ℕ) → 2 ≤ k → k < h → contains (used_hosts s f ips) k ≡ true)
          → Allocated db ips (ok (f.show_addr (host_addr subnet h), h))
      refused :
          ((k : ℕ) → 2 ≤ k → k ≤ max_hosts subnet.bits → contains (used_hosts s f ips) k ≡ true)
          → Allocated db ips (err no_available_ips)

    Found-Allocated :
        (db : s.Db) (ips : List String) {r : Option ℕ}
        → Found 2 (max_hosts subnet.bits) (used_hosts s f ips) r
        → Allocated db ips (allocated s f subnet (some r))
    unfolding allocated
    Found-Allocated db ips (least h p q free below) = gave h p q free below
    Found-Allocated db ips (full below) = refused below

    -- Once it has read the addresses, `allocateIP` gives the least host from 2 to the last that
    -- is not in use, with its address, or fails where all are in use; its search ends within its
    -- fuel.
    pub allocate_ip-Allocated :
        (db : s.Db) (ips : List String)
        → s.select_ips db ≡ ok ips
        → Allocated db ips (allocate_ip s f subnet db)
    unfolding allocate_ip
    allocate_ip-Allocated db ips e =
        let (r, q, found) =
          search_host-Found (max_hosts subnet.bits) (used_hosts s f ips) (used_hosts-AllBytes ips)
            (max_hosts-lt subnet.bits) in
        rw (e, q) (Found-Allocated db ips found)

  module _ (subnet : Prefix) (valid : IsAddr4 subnet.addr) where
    host_addr-parses :
        (h : ℕ) → f.parse_addr (f.show_addr (host_addr subnet h)) ≡ some (host_addr subnet h)
    unfolding host_addr
    host_addr-parses h = f.parse_addr-show_addr (host_addr subnet h) (record {
      byte0 = valid.byte0;
      byte1 = valid.byte1;
      byte2 = valid.byte2;
      byte3 = omega arith;
    })

    -- A host below 256 is in use if a row has its address.
    row-In_use :
        (h : ℕ) (db : s.Db) (ips : List String)
        → s.select_ips db ≡ ok ips
        → h < 256
        → In (f.show_addr (host_addr subnet h)) (addresses (s.rows db))
        → contains (used_hosts s f ips) h ≡ true
    unfolding host_addr
    row-In_use h db ips e small i =
        subst (λ (k : ℕ). contains (used_hosts s f ips) k ≡ true) byte
          (used_hosts-contains (f.show_addr (host_addr subnet h)) (host_addr subnet h) ips
            (host_addr-parses h)
            ((s.select_ips_rows db ips e (f.show_addr (host_addr subnet h))).1 i))
      where
        byte : h % 256 ≡ h
        byte = omega arith

    -- What `allocateIP` gives is the address of a host of the subnet that no row has.
    pub record FreeHost (db : s.Db) (r : String × ℕ) : Type 0 where
      pub address : r.0 ≡ f.show_addr (host_addr subnet r.1)
      pub above_server : 2 ≤ r.1
      pub within : r.1 ≤ max_hosts subnet.bits
      pub free : r.1 < 256 → ¬ (In r.0 (addresses (s.rows db)))

    Allocated-FreeHost :
        (db : s.Db) (ips : List String) (o : Result (String × ℕ)) {r : String × ℕ}
        → s.select_ips db ≡ ok ips
        → Allocated subnet db ips o
        → o ≡ ok r
        → FreeHost db r
    Allocated-FreeHost db ips _ e (refused below) h = absurd (cc)
    Allocated-FreeHost db ips _ {r} e (gave k p q free below) h =
        subst (FreeHost db) (ok_injective h) (record {
          address = refl;
          above_server = p;
          within = q;
          free = λ small i. cc (row-In_use k db ips e small i, free);
        })

    allocate_ip_reads :
        (db : s.Db) {r : String × ℕ}
        → allocate_ip s f subnet db ≡ ok r
        → (ips : List String) × (s.select_ips db ≡ ok ips)
    unfolding allocate_ip
    allocate_ip_reads db h = let (ips, e, _) = >>=-eq-ok (s.select_ips db) _ h in (ips, e)

    pub allocate_ip-FreeHost :
        (db : s.Db) {r : String × ℕ} → allocate_ip s f subnet db ≡ ok r → FreeHost db r
    allocate_ip-FreeHost db h =
        let (ips, e) = allocate_ip_reads db h in
        Allocated-FreeHost db ips (allocate_ip s f subnet db) e
          (allocate_ip-Allocated subnet db ips e) h

    -- Every host from 2 to 255 has a row.
    abbrev pub AllHosts : s.Db → Type 0
    AllHosts db =
        (h : ℕ) → 2 ≤ h → h < 256 → In (f.show_addr (host_addr subnet h)) (addresses (s.rows db))

    Allocated-host256 :
        (db : s.Db) (ips : List String) (o : Result (String × ℕ)) {r : String × ℕ}
        → s.select_ips db ≡ ok ips
        → subnet.bits ≤ 23
        → AllHosts db
        → Allocated subnet db ips o
        → o ≡ ok r
        → r ≡ (f.show_addr (host_addr subnet 256), 256)
    Allocated-host256 db ips _ e wide all (refused below) h = absurd (cc)
    Allocated-host256 db ips _ e wide all (gave k p q free below) h =
        sym (ok_injective h) ∙ ap (λ (n : ℕ). (f.show_addr (host_addr subnet n), n)) only
      where
        low : k < 256 → ⊥
        low small = cc (row-In_use k db ips e small (all k p small), free)

        high : 256 < k → ⊥
        high large = cc (used_hosts-below ips, below 256 (omega arith) large)

        only : k ≡ 256
        only = omega (arith, low, high)

-- On a subnet from /24 to /31 whose address is four bytes, an address that `allocateIP` gives is
-- the subnet's with a number from 2 to the number of hosts less 2 as its last byte, that number
-- is the class id, and no row of the table has the address.
pub allocate_ip-free :
    (s : Sqlite) (f : Formats) (subnet : Prefix) (db : s.Db) (ip : String) (class_id : ℕ)
    → IsAddr4 subnet.addr
    → 24 ≤ subnet.bits
    → subnet.bits ≤ 31
    → allocate_ip s f subnet db ≡ ok (ip, class_id)
    → (ip ≡ f.show_addr (host_addr subnet class_id))
      × (2 ≤ class_id)
      × (class_id ≤ 2 ^ (32 - subnet.bits) - 2)
      × ¬ (In ip (addresses (s.rows db)))
allocate_ip-free s f subnet db ip class_id valid lo hi h =
    let free = allocate_ip-FreeHost s f subnet valid db h in
    let narrow = max_hosts_narrow subnet.bits lo hi in
    let within = free.within in
    (
      free.address,
      free.above_server,
      omega (arith, narrow, within),
      free.free (omega (arith, narrow, within)),
    )

-- On a subnet wider than /24, once each host from 2 to 255 has a row, `allocateIP` gives no address
-- but that of host 256, whose last byte wraps round to 0, whether or not a row has it already.
pub allocate_ip-wraps :
    (s : Sqlite) (f : Formats) (subnet : Prefix) (db : s.Db) (ip : String) (class_id : ℕ)
    → IsAddr4 subnet.addr
    → subnet.bits ≤ 23
    → ((h : ℕ) → 2 ≤ h → h < 256 → In (f.show_addr (host_addr subnet h)) (addresses (s.rows db)))
    → allocate_ip s f subnet db ≡ ok (ip, class_id)
    → (ip ≡ f.show_addr (record (subnet.addr) { b3 = 0 })) × (class_id ≡ 256)
unfolding host_addr
allocate_ip-wraps s f subnet db ip class_id valid wide all h =
    let (ips, e) = allocate_ip_reads s f subnet valid db h in
    let r =
      Allocated-host256 s f subnet valid db ips (allocate_ip s f subnet db) e wide all
        (allocate_ip-Allocated s f subnet db ips e) h in
    (ap (λ (p : String × ℕ). p.0) r, ap (λ (p : String × ℕ). p.1) r)
