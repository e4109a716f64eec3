-- ===== src/Sync.antt =====
-- The sync engine (internal/sync).
pub mod Filter
pub mod Catalog
pub mod Repo
pub mod Stars
pub mod Stats
pub mod Coordinator
pub mod Workers
