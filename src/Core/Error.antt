-- ===== src/Core/Error.antt =====
-- crates/fairypam-agent-core/src/lib.rs: the error of the agent's core. Its message is text for
-- people, which no code inspects, and is left out.
use fairypam_rust_agent.Base.{String}

pub record AgentError : Type 0 where
  pub code : String
