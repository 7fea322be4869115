-- ===== src/Task/Wire.antt =====
-- proto/fairypam/internal/v1/state.proto: the messages of a task attempt. A field that holds a
-- number of an enumeration is an `i32`, here its 32-bit pattern, of which the code asks only which
-- number it is; a sub-message is an `Option`, as the generated code has it.
use fairypam_rust_agent.Base.Int.{ℤ}
use fairypam_rust_agent.Base.{ℕ, Bool, Option, Bytes, String}
use fairypam_rust_agent.Core.State.{SessionIdentity}

pub data TaskCommandOutcomeState : Type 0 where
  unspecified applied not_applied uncertain : TaskCommandOutcomeState

pub data TaskAttemptState : Type 0 where
  unspecified not_found claimed target_ready active stopping terminal : TaskAttemptState

pub data TaskSideEffectState : Type 0 where
  unspecified no_effect intent_recorded applied not_applied uncertain : TaskSideEffectState

pub data TaskInputState : Type 0 where
  unspecified released active unknown : TaskInputState

pub data TaskCaptureState : Type 0 where
  unspecified not_started running stopped unknown : TaskCaptureState

pub data TaskOwnedTargetState : Type 0 where
  unspecified not_started running closed unknown : TaskOwnedTargetState

-- `as i32`, for each enumeration.
abbrev pub outcome_code : TaskCommandOutcomeState → ℕ
outcome_code TaskCommandOutcomeState.unspecified = 0
outcome_code TaskCommandOutcomeState.applied = 1
outcome_code TaskCommandOutcomeState.not_applied = 2
outcome_code TaskCommandOutcomeState.uncertain = 3

abbrev pub attempt_code : TaskAttemptState → ℕ
attempt_code TaskAttemptState.unspecified = 0
attempt_code TaskAttemptState.not_found = 1
attempt_code TaskAttemptState.claimed = 2
attempt_code TaskAttemptState.target_ready = 3
attempt_code TaskAttemptState.active = 4
attempt_code TaskAttemptState.stopping = 5
attempt_code TaskAttemptState.terminal = 6

abbrev pub side_effect_code : TaskSideEffectState → ℕ
side_effect_code TaskSideEffectState.unspecified = 0
side_effect_code TaskSideEffectState.no_effect = 1
side_effect_code TaskSideEffectState.intent_recorded = 2
side_effect_code TaskSideEffectState.applied = 3
side_effect_code TaskSideEffectState.not_applied = 4
side_effect_code TaskSideEffectState.uncertain = 5

abbrev pub input_code : TaskInputState → ℕ
input_code TaskInputState.unspecified = 0
input_code TaskInputState.released = 1
input_code TaskInputState.active = 2
input_code TaskInputState.unknown = 3

abbrev pub capture_code : TaskCaptureState → ℕ
capture_code TaskCaptureState.unspecified = 0
capture_code TaskCaptureState.not_started = 1
capture_code TaskCaptureState.running = 2
capture_code TaskCaptureState.stopped = 3
capture_code TaskCaptureState.unknown = 4

abbrev pub owned_target_code : TaskOwnedTargetState → ℕ
owned_target_code TaskOwnedTargetState.unspecified = 0
owned_target_code TaskOwnedTargetState.not_started = 1
owned_target_code TaskOwnedTargetState.running = 2
owned_target_code TaskOwnedTargetState.closed = 3
owned_target_code TaskOwnedTargetState.unknown = 4

pub record CommandRef : Type 0 where
  pub session : Option SessionIdentity
  pub command_id : Bytes
  pub sequence : ℕ
  pub expires_at_unix_ms : ℤ

pub record AttemptRef : Type 0 where
  pub task_run_id : Bytes
  pub attempt_id : Bytes
  pub contract_version : ℕ
  pub contract_digest : Bytes

pub record TaskCommandRef : Type 0 where
  pub command : Option CommandRef
  pub attempt : Option AttemptRef
  pub payload_digest : Bytes

pub record TaskCommandOutcomeV1 : Type 0 where
  pub attempt : Option AttemptRef
  pub command_id : Bytes
  pub payload_digest : Bytes
  pub outcome : ℕ
  pub source_frame_sequence : Option ℕ
  pub error_code : Option String

pub record TaskAttemptReceiptV1 : Type 0 where
  pub receipt_version : ℕ
  pub attempt : Option AttemptRef
  pub attempt_state : ℕ
  pub last_command_id : Bytes
  pub last_command_sequence : ℕ
  pub last_command_generation : ℕ
  pub last_command_payload_digest : Bytes
  pub side_effect_state : ℕ
  pub last_side_effect_command_id : Bytes
  pub input_state : ℕ
  pub capture_state : ℕ
  pub owned_target_state : ℕ
  pub cleanup_complete : Option Bool
  pub error_code : Option String
  pub target_generation : ℕ

pub record TaskCommandResult : Type 0 where
  pub outcome : TaskCommandOutcomeV1
  pub receipt : TaskAttemptReceiptV1
