-- ===== src/Input.antt =====
-- crates/fairypam-agent-input: the actions of a profile and the executor of input leases.
pub mod Action
pub mod Lease
mod Tests
