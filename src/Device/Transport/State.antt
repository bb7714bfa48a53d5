-- ===== src/Device/Transport/State.antt =====
-- device/peer.go, device.go, send.go: a peer with what lies between its packets and the socket, and
-- the device around it.
use wgservermgr.Prelude.{ℕ, Bool, ◌&&◌, true, false, Option, List}
use wgservermgr.Prelude.Bytes.{Bytes}
use wgservermgr.Mgmt.Time.{Time}
use wgservermgr.Device.Cookie.{CookiePrimitives, CookieGenerator}
use wgservermgr.Device.Noise.Keys.{Primitives}
use wgservermgr.Device.Noise.State.{Device, Draws}
use wgservermgr.Device.Transport.Timers.{Timers}

-- `deviceState`
pub data DeviceState : Type 0 where
  device_down device_up device_closed : DeviceState

-- `isUp` and `isClosed`
abbrev pub is_up : DeviceState → Bool
is_up device_up = true
is_up _ = false

abbrev pub is_closed : DeviceState → Bool
is_closed device_closed = true
is_closed _ = false

-- `QueueOutboundElement`: `keypair` is the number of the keypair.
pub record Element : Type 0 where
  pub packet : Bytes
  pub nonce : ℕ
  pub keypair : Option ℕ

-- One call of `bind.Send`: the endpoint, whether its source was cleared just before, the buffers.
pub record Transmission : Type 0 where
  pub endpoint : ℕ
  pub cleared : Bool
  pub buffers : List Bytes

-- `outbound` holds what `queue.outbound` and `queue.encryption` hold, `wire` the calls of `bind.Send`
-- so far. An endpoint is a number.
pub record Link : Type 0 where
  pub device : Device
  pub state : DeviceState
  pub timers : Timers
  pub persistent_keepalive_interval : ℕ
  pub last_sent_handshake : Time
  pub last_handshake_nano : Time
  pub cookie_generator : CookieGenerator
  pub endpoint : Option ℕ
  pub clear_src_on_tx : Bool
  pub disable_roaming : Bool
  pub tx_bytes : ℕ
  pub rx_bytes : ℕ
  pub staged : List (List Element)
  pub outbound : List (List Element)
  pub wire : List Transmission

-- The peer that a `Link` is about, with the packages its handshake stands on.
pub record Host : Type 0 where
  pub primitives : Primitives
  pub cookies : CookiePrimitives
  pub peer : ℕ

-- What one event takes from outside: the reading of the clock, `tai64n.Now`, the draws of a
-- handshake message, `fastrandn`, the MTU, whether `bind.Send` gives no error, and
-- whether it sent the buffers again without offload, with no error then.
pub record Outside : Type 0 where
  pub now : Time
  pub timestamp : Bytes
  pub draws : Draws
  pub jitter : ℕ
  pub mtu : ℕ
  pub send_ok : Bool
  pub retried_ok : Bool

abbrev pub is_running : Host → Link → Bool
is_running h l = (l.device.peers h.peer).is_running

-- `timersActive`
abbrev pub timers_active : Host → Link → Bool
timers_active h l = is_running h l && is_up l.state
