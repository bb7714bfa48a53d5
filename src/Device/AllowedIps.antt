-- ===== src/Device/AllowedIps.antt =====
-- device/allowedips.go: the tries that map a destination address to the peer that may have it.
-- Addresses holds the bits of addresses (with Xor), Trie the operations; Prefixes, Inserted, Longest,
-- Ordered and Routes prove.
pub mod Addresses
pub mod Xor
pub mod Trie
pub mod Prefixes
pub mod Inserted
pub mod Longest
pub mod Ordered
pub mod Routes
mod Examples
