-- ===== src/Tun.antt =====
-- tun/: packets of the network devices.
pub mod Checksum
