-- ===== src/Transport.antt =====
-- crates/fairypam-agent-transport: the delays between attempts to connect.
pub mod Backoff
mod Tests
