-- ===== src/Net/Noise.antt =====
-- ts/net/noise: the Noise XX handshake.
pub mod Symmetric
pub mod Handshake
