-- ===== src/Xpr.antt =====
-- src/chains/xpr: the Antelope chain's dialect and transaction decoder.
pub mod Dialect
pub mod Rpc
pub mod Relay
pub mod Keyauth
pub mod Broadcaster
pub mod Paths
pub mod Decode
pub mod Tests
