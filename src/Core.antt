-- ===== src/Core.antt =====
-- crates/fairypam-agent-core: the signed profile, the target, and the safety state machine.
pub mod Error
pub mod Target
pub mod Profile
pub mod Title
pub mod Supervisor
pub mod State
pub mod Samples
mod Tests
