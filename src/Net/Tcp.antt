-- ===== src/Net/Tcp.antt =====
-- ts/net/tcp.ts.
pub mod Socket
pub mod Dispatch
pub mod Server
pub mod Options
