-- ===== src/Device/Transport/Accepted.antt =====
-- device/receive.go: the packets that reach the TUN device.
use wgservermgr.Prelude.{
  ℕ, ◌+◌, ◌^◌, ◌≤◌, ◌<◌, ◌≡◌, sym, ap, ◌∙◌, Bool, true, false, some, ◌++◌, ◌==◌, length, arith, inl,
  inr, ◌⊎◌, subst, Bool-cases,
}
use wgservermgr.Prelude.Bytes.{Bytes, take, drop, take-drop, length-take}
use wgservermgr.Tun.Checksum.{be_number}
use wgservermgr.Device.Transport.Packets.{
  AllowedIps, lookup_allowed, ip_version, is_peer, accept_packet, ipv4_header_len, ipv6_header_len,
}
use wgservermgr.Device.Transport.Delivered.{field_part, ip_version-append}

module _ (table : AllowedIps) (peer : ℕ) where
  abbrev total_length : Bytes → ℕ
  total_length packet = be_number (take 2 (drop 2 packet))

  abbrev payload_length : Bytes → ℕ
  payload_length packet = be_number (take 2 (drop 4 packet))

  -- Whether the address of that many bytes at that place is the peer's.
  abbrev from_peer : ℕ → ℕ → Bytes → Bool
  from_peer offset size packet =
      is_peer (lookup_allowed table (take size (drop offset packet))) peer

  accept-v4 :
      (packet p : Bytes)
      → accept_packet table peer packet ≡ some p
      → (ip_version packet == 4) ≡ true
      → (p ≡ take (total_length packet) packet)
        × (ipv4_header_len ≤ total_length packet)
        × (total_length packet ≤ length packet)
        × (from_peer 12 4 packet ≡ true)
  unfolding accept_packet
  accept-v4 packet p e v = ground (arith, e, v)

  accept-version :
      (packet p : Bytes)
      → accept_packet table peer packet ≡ some p
      → (ip_version packet == 4) ≡ false
      → ip_version packet ≡ 6
  unfolding accept_packet
  accept-version packet p e v = ground (arith, e, v)

  accept-v6 :
      (packet p : Bytes)
      → accept_packet table peer packet ≡ some p
      → (ip_version packet == 4) ≡ false
      → payload_length packet + ipv6_header_len < 2 ^ 16
      → (p ≡ take (payload_length packet + ipv6_header_len) packet)
        × (payload_length packet + ipv6_header_len ≤ length packet)
        × (from_peer 8 16 packet ≡ true)
  unfolding accept_packet
  accept-v6 packet p e v lt = ground (arith, e, v, lt)

  -- A whole IP packet, as long as its header says, whose source address of the version in that
  -- header is one of the peer's.
  abbrev pub IsFromPeer : Bytes → Type 0
  IsFromPeer p =
      ((ip_version p ≡ 4)
        × (ipv4_header_len ≤ length p)
        × (total_length p ≡ length p)
        × (from_peer 12 4 p ≡ true))
      ⊎ ((ip_version p ≡ 6)
          × (ipv6_header_len ≤ length p)
          × (payload_length p + ipv6_header_len ≡ length p)
          × (from_peer 8 16 p ≡ true))

  -- A field of a packet is a field of what is left of it.
  prefix_field :
      (offset size n : ℕ) (packet : Bytes)
      → n ≤ length packet
      → offset + size ≤ n
      → take size (drop offset (take n packet)) ≡ take size (drop offset packet)
  prefix_field offset size n packet le fits =
      sym (
        field_part offset size (take n packet) (drop n packet)
          (subst (λ m. offset + size ≤ m) (sym (length-take n packet le)) fits))
      ∙ ap (λ b. take size (drop offset b)) (take-drop n packet)

  from_peer-prefix :
      (offset size n : ℕ) (packet : Bytes)
      → n ≤ length packet
      → offset + size ≤ n
      → from_peer offset size (take n packet) ≡ from_peer offset size packet
  from_peer-prefix offset size n packet le fits =
      ap (λ a. is_peer (lookup_allowed table a) peer) (prefix_field offset size n packet le fits)

  version_prefix :
      (n : ℕ) (packet : Bytes)
      → 1 ≤ n
      → n ≤ length packet
      → ip_version (take n packet) ≡ ip_version packet
  version_prefix n packet le fits =
      sym (
        ip_version-append (take n packet) (drop n packet)
          (subst (λ m. 1 ≤ m) (sym (length-take n packet fits)) le))
      ∙ ap ip_version (take-drop n packet)

  -- A packet that `RoutineSequentialReceiver` hands to the TUN device starts the content received
  -- and is a whole packet of version 4 or 6: at least as long as a header of its version, exactly
  -- as long as its own header says, and with a source address, taken from where that version has
  -- it, that belongs to the peer. For a content of version 6 the condition is that its payload
  -- length with 40 added fits 16 bits.
  pub accept_packet-Accepted :
      (packet p : Bytes)
      → (ip_version packet ≡ 6 → payload_length packet + ipv6_header_len < 2 ^ 16)
      → accept_packet table peer packet ≡ some p
      → (rest : Bytes) × (packet ≡ p ++ rest) × IsFromPeer p
  accept_packet-Accepted packet p lt e = elim (Bool-cases (ip_version packet == 4)) [
    | inl v ↦
        let (same, long, fits, own) = accept-v4 packet p e v in
        let n = total_length packet in
        (
          drop n packet,
          subst (λ q. packet ≡ q ++ drop n packet) (sym same) (sym (take-drop n packet)),
          subst IsFromPeer (sym same) (
              inl (
                version_prefix n packet (omega (arith, long)) fits ∙ ground (arith, v),
                subst (λ m. ipv4_header_len ≤ m) (sym (length-take n packet fits)) long,
                ap be_number (prefix_field 2 2 n packet fits (omega (arith, long)))
                    ∙ sym (length-take n packet fits),
                from_peer-prefix 12 4 n packet fits (omega (arith, long)) ∙ own,
              )),
        )
    | inr v ↦
        let six = accept-version packet p e v in
        let (same, fits, own) = accept-v6 packet p e v (lt six) in
        let n = payload_length packet + ipv6_header_len in
        (
          drop n packet,
          subst (λ q. packet ≡ q ++ drop n packet) (sym same) (sym (take-drop n packet)),
          subst IsFromPeer (sym same) (
              inr (
                version_prefix n packet (omega arith) fits ∙ six,
                subst (λ m. ipv6_header_len ≤ m) (sym (length-take n packet fits)) (omega arith),
                ap (λ b. be_number b + ipv6_header_len)
                      (prefix_field 4 2 n packet fits (omega arith))
                    ∙ sym (length-take n packet fits),
                from_peer-prefix 8 16 n packet fits (omega arith) ∙ own,
              )),
        )
  ]
