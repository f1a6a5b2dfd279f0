-- ===== src/Idempotency.antt =====
-- plugins/idempotency.
pub mod Store
pub mod Hooks
