-- ===== src/Task.antt =====
-- bins/fairypam-agent/src/task_attempt.rs: the ledger of a task attempt, and the contract it is for.
pub mod Wire
pub mod Contract
pub mod Data
pub mod State
pub mod Runtime
pub mod Held
pub mod Once
pub mod Grant
pub mod Doubt
pub mod Cleanup
pub mod Claim
pub mod Ledger
mod Tests
