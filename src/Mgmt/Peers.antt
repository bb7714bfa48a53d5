-- ===== src/Mgmt/Peers.antt =====
-- mgmt/peers/device.go: what the device tells of a peer.
use Prim.Native.String.{String}
use wgservermgr.Prelude.{ℕ, Bool, false, ◌&&◌, if◌then◌else◌}
use wgservermgr.Prelude.Int.{ℤ, pos, eqb_ℤ, leb_ℤ}
use wgservermgr.Mgmt.Time.{Time, Duration, zero_time, unix, is_zero, sub}

pub record PeerInfo : Type 0 where
  pub public_key : String
  pub endpoint : String
  pub tx_bytes : ℕ
  pub rx_bytes : ℕ
  pub last_handshake_sec : ℤ
  pub last_handshake_nsec : ℤ

unfoldable pub last_handshake : PeerInfo → Time
last_handshake info =
    if eqb_ℤ info.last_handshake_sec (pos 0) && eqb_ℤ info.last_handshake_nsec (pos 0)
    then zero_time
    else unix info.last_handshake_sec info.last_handshake_nsec

-- `now` is the clock's reading in `time.Since`.
unfoldable pub has_recent_handshake : PeerInfo → Duration → Time → Bool
has_recent_handshake info idle now =
    let hs = last_handshake info in if is_zero hs then false else leb_ℤ (sub now hs) idle
