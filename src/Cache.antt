-- ===== src/Cache.antt =====
-- plugins/cache.
pub mod Store
