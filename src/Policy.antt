-- ===== src/Policy.antt =====
-- src/core/policy: the policy document, its validation, the chain's dialect and the engine.
pub mod Types
pub mod Vocabulary
pub mod Schema
pub mod Onchain
pub mod Predicates
pub mod Engine
pub mod Tests
