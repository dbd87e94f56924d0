-- ===== src/Cache.antt =====
-- The package cache: in-memory caches with expiry (cache/*.go).
pub mod Expiring
pub mod Fixed
pub mod Lru
