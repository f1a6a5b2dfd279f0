-- ===== src/Http.antt =====
-- ts/http: requests and responses.
pub mod Headers
pub mod Reply
pub mod Schema
