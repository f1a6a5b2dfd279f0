-- ===== src/Net.antt =====
-- ts/net: the secure datagram layers.
pub mod Bytes
pub mod ReplayFilter
pub mod Cipher
pub mod Session
pub mod Noise
pub mod SecureDatagram
pub mod SecureUdp
pub mod Tcp
