-- ===== src/Onboarding.antt =====
-- src/onboarding and its chain side in src/chains/xpr: how an agent's account and key come to be.
pub mod Actions
pub mod Shapes
pub mod Validate
pub mod Landed
pub mod Flow
pub mod Tests
