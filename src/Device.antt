-- ===== src/Device.antt =====
-- device/: the tables of the WireGuard device.
pub mod AllowedIps
pub mod IndexTable
pub mod Noise
pub mod Cookie
pub mod Transport
