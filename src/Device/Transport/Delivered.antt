-- ===== src/Device/Transport/Delivered.antt =====
-- device/send.go and receive.go: what one side sends with a keypair arrives at the other.
use wgservermgr.Prelude.{
  ℕ, zero, suc, ◌+◌, ◌^◌, ◌≤◌, ◌<◌, ◌≡◌, refl, ap, ap₂, ◌∙◌, true, false, some, [], ◌∷◌, ◌++◌, ltb,
  length, arith,
}
use wgservermgr.Prelude.Int.{pos, ◌+ℤ◌, ltb_ℤ}
use wgservermgr.Prelude.Bytes.{
  Bytes, take, drop, le_bytes, le_number, length-append, take-append, le_number-le_bytes,
}
use wgservermgr.Mgmt.Time.{Time}
use wgservermgr.Device.IndexTable.{lookup_index}
use wgservermgr.Device.Noise.Keys.{Primitives}
use wgservermgr.Device.Noise.State.{Keypair, Device}
use wgservermgr.Tun.Checksum.{be_number}
use wgservermgr.Device.Transport.Timers.{reject_after_time}
use wgservermgr.Device.Transport.Cipher.{
  padded, transport_header, transport_nonce, encrypt, decrypt, usable_keypair, receive_keypair,
  message_transport_size,
}
use wgservermgr.Device.Transport.Packets.{
  AllowedIps, lookup_allowed, ip_version, accept_packet, is_peer,
}

-- A field that lies in the first of two parts.
pub take-append_part : (n : ℕ) (a b : Bytes) → n ≤ length a → take n (a ++ b) ≡ take n a
unfolding take
take-append_part zero a b le = refl
take-append_part (suc n) [] b le = ground arith
take-append_part (suc n) (x ∷ a) b le = ap (λ t. x ∷ t) (take-append_part n a b (omega arith))

pub field_part :
    (m n : ℕ) (a b : Bytes) → m + n ≤ length a → take n (drop m (a ++ b)) ≡ take n (drop m a)
unfolding drop
field_part zero n a b le = take-append_part n a b (omega arith)
field_part (suc m) n [] b le = ground arith
field_part (suc m) n (x ∷ a) b le = field_part m n a b (omega arith)

abbrev fields : ℕ → ℕ → Bytes → Bytes
fields index nonce rest = transport_header index nonce ++ rest

type_field : (index nonce : ℕ) (rest : Bytes) → le_number (take 4 (fields index nonce rest)) ≡ 4
unfolding take le_bytes le_number
type_field index nonce rest = refl

index_field :
    (index nonce : ℕ) (rest : Bytes)
    → index < 2 ^ 32
    → le_number (take 4 (drop 4 (fields index nonce rest))) ≡ index
unfolding take drop le_bytes
index_field index nonce rest lt = le_number-le_bytes 4 index lt

nonce_field :
    (index nonce : ℕ) (rest : Bytes)
    → nonce < 2 ^ 64
    → le_number (take 8 (drop 8 (fields index nonce rest))) ≡ nonce
unfolding take drop le_bytes
nonce_field index nonce rest lt = le_number-le_bytes 8 nonce lt

content_field : (index nonce : ℕ) (rest : Bytes) → drop 16 (fields index nonce rest) ≡ rest
unfolding drop le_bytes
content_field index nonce rest = refl

length-fields :
    (index nonce : ℕ) (rest : Bytes) → length (fields index nonce rest) ≡ 16 + length rest
unfolding le_bytes
length-fields index nonce rest = omega arith

module _ (d : Device) where
  -- The two ends of a session: the keypair `a` here is the keypair `k` of the device there.
  pub record Paired (a : Keypair) (k peer : ℕ) : Type 0 where
    pub key : a.send ≡ (d.keypairs k).receive
    pub small : a.remote_index < 2 ^ 32
    pub entry_peer : (lookup_index a.remote_index d.index_table).peer ≡ some peer
    pub entry_keypair : (lookup_index a.remote_index d.index_table).keypair ≡ some k

module _ (c : Primitives) (now : Time) (d : Device) (mtu nonce : ℕ) (packet : Bytes) where
  usable :
      (a : Keypair) (k peer : ℕ)
      → Paired d a k peer
      → ltb_ℤ ((d.keypairs k).created +ℤ pos reject_after_time) now ≡ false
      → (i : ℕ) → i ≡ a.remote_index
      → (let entry = lookup_index i d.index_table in
          usable_keypair now d entry.peer entry.keypair ≡ some (some peer, k))
  unfolding usable_keypair
  usable a k peer p fresh i e =
      ap
        (λ i.
          usable_keypair now d (lookup_index i d.index_table).peer
            (lookup_index i d.index_table).keypair)
        e
      ∙ ap₂ (usable_keypair now d) p.entry_peer p.entry_keypair
      ∙ rw fresh

  encrypt-receive_keypair :
      (a : Keypair) (k peer : ℕ)
      → Paired d a k peer
      → ltb_ℤ ((d.keypairs k).created +ℤ pos reject_after_time) now ≡ false
      → ltb (length (encrypt c mtu a nonce packet)) message_transport_size ≡ false
      → receive_keypair now d (encrypt c mtu a nonce packet) ≡ some (some peer, k)
  unfolding receive_keypair encrypt
  encrypt-receive_keypair a k peer p fresh long =
      let rest = c.seal a.send (transport_nonce nonce) (padded mtu packet) [] in
      rw (long, type_field a.remote_index nonce rest)
        (usable a k peer p fresh _ (index_field a.remote_index nonce rest p.small))

  encrypt-decrypt :
      (a : Keypair) (k peer : ℕ)
      → Paired d a k peer
      → nonce < 2 ^ 64
      → decrypt c k (d.keypairs k) (encrypt c mtu a nonce packet)
        ≡ record { keypair = k; counter = nonce; packet = some (padded mtu packet) }
  unfolding decrypt encrypt
  encrypt-decrypt a k peer p lt =
      let rest = c.seal a.send (transport_nonce nonce) (padded mtu packet) [] in
      rw
        (nonce_field a.remote_index nonce rest lt, content_field a.remote_index nonce rest, ← p.key)
        (ap (λ o. record { keypair = k; counter = nonce; packet = o })
          (c.unseal-seal a.send (transport_nonce nonce) (padded mtu packet) []))

encrypt-long :
    (c : Primitives)
    → ((key nonce text ad : Bytes) → length (c.seal key nonce text ad) ≡ length text + 16)
    → (mtu : ℕ) (a : Keypair) (nonce : ℕ) (packet : Bytes)
    → ltb (length (encrypt c mtu a nonce packet)) message_transport_size ≡ false
unfolding encrypt
encrypt-long c tag mtu a nonce packet =
    let n =
      length-fields a.remote_index nonce
        (c.seal a.send (transport_nonce nonce) (padded mtu packet) []) in
    let t = tag a.send (transport_nonce nonce) (padded mtu packet) [] in ground (arith, n, t)

-- A whole IPv4 packet, and one whose source is an address of the peer.
unfoldable pub IsIpv4 : Bytes → Type 0
IsIpv4 packet =
    (ip_version packet ≡ 4)
    × (20 ≤ length packet)
    × (be_number (take 2 (drop 2 packet)) ≡ length packet)

take_all : (a b : Bytes) → take (length a) (a ++ b) ≡ a
take_all a b = take-append a b (length a) refl

pub ip_version-append : (a b : Bytes) → 1 ≤ length a → ip_version (a ++ b) ≡ ip_version a
ip_version-append [] b le = ground arith
ip_version-append (x ∷ a) b le = refl

-- The padding of a packet is cut off.
accept-padding :
    (table : AllowedIps) (peer : ℕ) (packet rest : Bytes)
    → IsIpv4 packet
    → is_peer (lookup_allowed table (take 4 (drop 12 packet))) peer ≡ true
    → accept_packet table peer (packet ++ rest) ≡ some packet
unfolding accept_packet IsIpv4
accept-padding table peer packet rest (version, long, total) own =
    let n = length-append packet rest in
    let version' = ip_version-append packet rest (omega arith) ∙ version in
    let total' = ap be_number (field_part 2 2 packet rest (omega arith)) ∙ total in
    let own' =
      ap (λ a. is_peer (lookup_allowed table a) peer) (field_part 12 4 packet rest (omega arith))
      ∙ own in
    let fits : ltb (length (packet ++ rest)) 20 ≡ false = ground (arith, n) in
    let whole : ltb (length (packet ++ rest)) (length packet) ≡ false = ground (arith, n) in
    let head : ltb (length packet) 20 ≡ false = ground arith in
    rw (version', total', fits, whole, head, own') (ap some (take_all packet rest))

module _ (c : Primitives) where
  -- Let a device hold the other end of a keypair of the peer: it receives with the key that the
  -- peer sends with, and its index table has that end and the peer under the remote index of the
  -- keypair, a number of 32 bits. While that end is not older than `RejectAfterTime`, and where
  -- the peer sends, with a nonce of 64 bits, a whole IPv4 packet from one of its addresses, the
  -- device finds that end for the message, opens it, and after the check of the source address is
  -- left with the very packet that was sent. The hypotheses on the AEAD are that what is sealed
  -- opens, and that its tag has 16 bytes.
  pub encrypt-Delivered :
      (tag : (key nonce text ad : Bytes) → length (c.seal key nonce text ad) ≡ length text + 16)
      (now : Time) (d : Device) (mtu nonce : ℕ) (packet : Bytes) (a : Keypair) (k peer : ℕ)
      (table : AllowedIps)
      → Paired d a k peer
      → ltb_ℤ ((d.keypairs k).created +ℤ pos reject_after_time) now ≡ false
      → nonce < 2 ^ 64
      → IsIpv4 packet
      → is_peer (lookup_allowed table (take 4 (drop 12 packet))) peer ≡ true
      → let msg = encrypt c mtu a nonce packet in
        (receive_keypair now d msg ≡ some (some peer, k))
        × (decrypt c k (d.keypairs k) msg
            ≡ record { keypair = k; counter = nonce; packet = some (padded mtu packet) })
        × (accept_packet table peer (padded mtu packet) ≡ some packet)
  encrypt-Delivered tag now d mtu nonce packet a k peer table p fresh lt v4 own = (
    encrypt-receive_keypair c now d mtu nonce packet a k peer p fresh
        (encrypt-long c tag mtu a nonce packet),
    encrypt-decrypt c now d mtu nonce packet a k peer p lt,
    accept-padding table peer packet _ v4 own,
  )
