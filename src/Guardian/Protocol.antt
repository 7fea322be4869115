-- ===== src/Guardian/Protocol.antt =====
-- crates/fairypam-agent-guardian-protocol/src/lib.rs: the messages between the agent and the
-- Guardian.
use fairypam_rust_agent.Base.{
  ℕ, Bool, not, ◌&&◌, ◌||◌, Option, List, Bytes, String, all, is_empty, ◌==◌, is_ascii_lowercase,
  is_ascii_digit, if◌then◌else◌,
}
use fairypam_rust_agent.Base.Result.{Result, ok, err}

-- The two that carry text carry it for people only.
pub data ProtocolError : Type 0 where
  invalid_action_id message_too_large protocol_incompatible invalid_message io : ProtocolError

-- `ActionId` holds text that its constructor has checked.
abbrev pub ActionId : Type 0
ActionId = Bytes

abbrev pub is_action_id_byte : ℕ → Bool
is_action_id_byte b =
    is_ascii_lowercase b || (is_ascii_digit b || (b == b'.' || (b == b'_' || b == b'-')))

unfoldable pub new_action_id : Bytes → Result ProtocolError ActionId
new_action_id value =
    let valid = not (is_empty value) && all is_action_id_byte value in
    if not valid then err invalid_action_id else ok value

pub data MouseButton : Type 0 where
  left right middle x1 x2 : MouseButton

pub data PhysicalHold : Type 0 where
  scan_code : (action_id : ActionId) (code : ℕ) (extended : Bool) → PhysicalHold
  mouse_button : (action_id : ActionId) (button : MouseButton) → PhysicalHold

abbrev pub action_id : PhysicalHold → ActionId
action_id (scan_code id code extended) = id
action_id (mouse_button id button) = id

pub data ReleaseReason : Type 0 where
  lease_expired focus_lost session_changed emergency_stop guardian_failure agent_exited
        heartbeat_expired agent_disconnected platform_failure :
      ReleaseReason

pub data GuardianRequest : Type 0 where
  register_agent :
      (agent_pid agent_process_handle heartbeat_timeout_ms : ℕ) (isolation_key_name : Option Bytes)
      → GuardianRequest
  heartbeat : (sequence : ℕ) → GuardianRequest
  worker_health : (ready : Bool) → GuardianRequest
  register_intent : (sequence : ℕ) (holds : List PhysicalHold) → GuardianRequest
  commit_holds : (sequence : ℕ) → GuardianRequest
  release_all : (reason : ReleaseReason) → GuardianRequest
  status : GuardianRequest

pub data GuardianResponse : Type 0 where
  ack : (isolation_status : Option ℕ) (activation_pending : Bool) → GuardianResponse
  status : (agent_pid : Option ℕ) (committed_hold_count last_sequence : ℕ) → GuardianResponse
  error : (code message : String) → GuardianResponse
