-- ===== src/Device/Transport/Packets.antt =====
-- device/send.go, receive.go and ip.go: the IP packets inside, and the peers that their addresses
-- belong to.
use wgservermgr.Prelude.{
  ℕ, ◌+◌, ◌/◌, ◌%◌, ◌^◌, Bool, false, ◌||◌, Option, none, some, [], ◌∷◌, ltb, ◌==◌, length,
  if◌then◌else◌,
}
use wgservermgr.Prelude.Bytes.{Bytes, take, drop}
use wgservermgr.Tun.Checksum.{be_number}
use wgservermgr.Device.AllowedIps.Addresses.{ipv4, ipv6}
use wgservermgr.Device.AllowedIps.Trie.{Trie}
use wgservermgr.Device.AllowedIps.Trie

-- `AllowedIPs`
pub record AllowedIps : Type 0 where
  pub ipv4 : Trie
  pub ipv6 : Trie

-- `AllowedIPs.Lookup`; no caller has an address of another length.
unfoldable pub lookup_allowed : AllowedIps → Bytes → Option ℕ
lookup_allowed table ip =
    if length ip == 16
    then Trie.lookup ipv6 (be_number ip) table.ipv6 none
    else Trie.lookup ipv4 (be_number ip) table.ipv4 none

-- `packet[0] >> 4`, where there is a byte.
abbrev pub ip_version : Bytes → ℕ
ip_version [] = 0
ip_version (x ∷ b) = x / 16

abbrev pub ipv4_header_len : ℕ
ipv4_header_len = 20

abbrev pub ipv6_header_len : ℕ
ipv6_header_len = 40

-- The switch of `RoutineReadFromTUN`: the peer that a packet goes to.
unfoldable pub destination : AllowedIps → Bytes → Option ℕ
destination table packet =
    if ip_version packet == 4
    then (if ltb (length packet) ipv4_header_len
        then none
        else lookup_allowed table (take 4 (drop 16 packet)))
    else if ip_version packet == 6
    then (if ltb (length packet) ipv6_header_len
        then none
        else lookup_allowed table (take 16 (drop 24 packet)))
    else none

-- `allowedips.Lookup(src) != peer`
abbrev pub is_peer : Option ℕ → ℕ → Bool
is_peer none peer = false
is_peer (some p) peer = p == peer

-- The switch of `RoutineSequentialReceiver`: the packet for the TUN device, cut off where the IP
-- header says, none where it is dropped. The length of IPv6 is a `uint16`, which may
-- wrap round; the address is a slice of the whole buffer then.
unfoldable pub accept_packet : AllowedIps → ℕ → Bytes → Option Bytes
accept_packet table peer packet =
    let total = be_number (take 2 (drop 2 packet)) in
    let length6 = (be_number (take 2 (drop 4 packet)) + ipv6_header_len) % 2 ^ 16 in
    if ip_version packet == 4
    then (if ltb (length packet) ipv4_header_len
        then none
        else if ltb (length packet) total || ltb total ipv4_header_len
        then none
        else if is_peer (lookup_allowed table (take 4 (drop 12 packet))) peer
        then some (take total packet)
        else none)
    else if ip_version packet == 6
    then (if ltb (length packet) ipv6_header_len
        then none
        else if ltb (length packet) length6
        then none
        else if is_peer (lookup_allowed table (take 16 (drop 8 packet))) peer
        then some (take length6 packet)
        else none)
    else none
