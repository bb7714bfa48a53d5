-- ===== src/Device/Noise.antt =====
-- device/noise-protocol.go and its helpers: the Noise handshake of WireGuard.
pub mod Messages
pub mod Keys
pub mod State
pub mod Initiation
pub mod Response
pub mod Session
pub mod Agreement
pub mod Answer
pub mod Turns
pub mod Secret
pub mod Stale
pub mod Clear
pub mod Examples
