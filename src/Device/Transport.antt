-- ===== src/Device/Transport.antt =====
-- device/timers.go, send.go, receive.go and peer.go: a peer between the handshake and the socket.
pub mod Timers
pub mod State
pub mod Send
pub mod Events
pub mod Nonces
pub mod Initiating
pub mod Steady
pub mod Cipher
pub mod Packets
pub mod Delivered
pub mod Padding
pub mod Expire
pub mod Life
pub mod Receive
pub mod Quiet
pub mod Retry
pub mod Sends
pub mod Accepted
pub mod Handshaking
pub mod Guarded
pub mod Staged
pub mod Examples
pub mod Race
