-- ===== src/Tests.antt =====
-- Tests of the models on concrete inputs, and the theorems at inputs that meet their hypotheses.
mod Stores
mod Pipeline
mod Datagrams
mod Handshake
mod Idempotency
mod Sessions
mod Caches
mod Jwt
mod SecureUdp
mod Tcp
mod Schema
mod Limits
mod IpFilters
