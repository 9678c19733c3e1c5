-- ===== src/Storage.antt =====
-- internal/storage: what the gateway keeps outside its process.
pub mod Redis
pub mod Tasks
pub mod Rows
pub mod Merging
pub mod Records
pub mod Catalog
pub mod Tenancy
