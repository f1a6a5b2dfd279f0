-- ===== src/Session.antt =====
-- plugins/session.
pub mod Store
pub mod Stored
pub mod Plugin
