-- ===== src/Device/Transport/Padding.antt =====
-- device/send.go: how much a packet is padded.
use wgservermgr.Prelude.{ℕ, ◌+◌, ◌%◌, ◌≤◌, ◌<◌, ◌≡◌, ◌⊎◌, arith}
use wgservermgr.Device.Transport.Cipher.{calculate_padding_size, padding_multiple}

-- A packet is padded by less than PaddingMultiple, which is what `paddingZeros` holds. Without an
-- MTU it ends up as a multiple of it; a packet within the MTU stays within it, and is padded to a
-- multiple or up to the MTU.
pub calculate_padding_size-bounds :
    (size mtu : ℕ)
    → (calculate_padding_size size mtu < padding_multiple)
      × (mtu ≡ 0 → (size + calculate_padding_size size mtu) % padding_multiple ≡ 0)
      × (0 < mtu
          → size ≤ mtu
          → (size + calculate_padding_size size mtu ≤ mtu)
            × (((size + calculate_padding_size size mtu) % padding_multiple ≡ 0)
                ⊎ (size + calculate_padding_size size mtu ≡ mtu)))
unfolding calculate_padding_size
calculate_padding_size-bounds size mtu = ground arith
