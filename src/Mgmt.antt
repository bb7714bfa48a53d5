-- ===== src/Mgmt.antt =====
-- The management layer, mgmt/.
pub mod Time
pub mod Result
pub mod Peers
pub mod Store
pub mod Session
pub mod Api
pub mod Config
