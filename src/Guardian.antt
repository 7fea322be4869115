-- ===== src/Guardian.antt =====
-- The Guardian process: bins/fairypam-agent-guardian and the protocol that it shares with the agent.
pub mod Protocol
pub mod Monitor
mod Tests
