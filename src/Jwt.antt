-- ===== src/Jwt.antt =====
-- plugins/jwt.
pub mod Verify
