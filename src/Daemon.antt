-- ===== src/Daemon.antt =====
-- src/daemon: the requests and the decision pipeline of src/daemon/server.ts, with what it calls.
pub mod Keys
pub mod State
pub mod Schema
pub mod Protocol
pub mod Gates
pub mod Submit
pub mod Sign
pub mod Handle
pub mod Relay
pub mod Admin
