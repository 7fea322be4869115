-- ===== src/Task/State.antt =====
-- bins/fairypam-agent/src/task_attempt.rs: the state of one attempt, the journal of its command
-- results, and what a method of `AttemptState` does to it. A method on `&mut self` that may fail
-- makes its checks first: it returns the state it leaves, and a failed one has changed nothing.
pub mod Check
use fairypam_rust_agent.Base.{
  ℕ, Bool, true, false, not, ◌&&◌, ◌||◌, Option, none, some, List, [], Bytes, beq, codes, leb, ◌==◌,
  length, is_empty, if◌then◌else◌, String, ◌+◌,
}
use fairypam_rust_agent.Base.Int.{ℤ, pos, negsuc}
use fairypam_rust_agent.Base.Sets.{get, put}
use fairypam_rust_agent.Base.Result.{Result, ok, err, ensure, ok_or, ◌>>=◌, ◌>>◌}
use fairypam_rust_agent.Core.Error.{AgentError}
use fairypam_rust_agent.Core.Target.{TargetBinding}
use fairypam_rust_agent.Core.State.{SessionIdentity, failure, is_some_and}
use fairypam_rust_agent.Task.Contract.{AgentAttemptContractV1, ExecutionContract}
use fairypam_rust_agent.Task.Wire.{
  TaskCommandOutcomeState, TaskAttemptState, TaskSideEffectState, TaskInputState, TaskCaptureState,
  TaskOwnedTargetState, outcome_code, attempt_code, side_effect_code, input_code, capture_code,
  owned_target_code, CommandRef, AttemptRef, TaskCommandRef, TaskAttemptReceiptV1,
  TaskCommandOutcomeV1, TaskCommandResult,
}
use fairypam_rust_agent.Task.Data.{
  max_command_results, StoredContract, StoredAttemptRef, StoredCommandResult, AttemptState,
  task_ref_invalid, ledger_invalid, digest_conflict, ledger_full,
}

-- `matches!` on the `try_from` of a field.
abbrev pub capture_idle : ℕ → Bool
capture_idle state =
    state == capture_code TaskCaptureState.not_started
    || state == capture_code TaskCaptureState.stopped

abbrev pub target_settled : ℕ → Bool
target_settled state =
    state == owned_target_code TaskOwnedTargetState.not_started
    || (state == owned_target_code TaskOwnedTargetState.running
        || state == owned_target_code TaskOwnedTargetState.closed)

abbrev pub effect_unresolved : ℕ → Bool
effect_unresolved state =
    state == side_effect_code TaskSideEffectState.intent_recorded
    || state == side_effect_code TaskSideEffectState.uncertain

unfoldable pub local_resources_released : AttemptState → Bool
local_resources_released a =
    a.attempt_state == attempt_code TaskAttemptState.terminal
    && (a.input_state == input_code TaskInputState.released
        && (capture_idle a.capture_state && target_settled a.owned_target_state))

abbrev pub generation_of : Option SessionIdentity → ℕ
generation_of none = 0
generation_of (some session) = session.generation

abbrev pub session_id_of : Option SessionIdentity → Bytes
session_id_of none = []
session_id_of (some session) = session.session_id

abbrev pub same_reference : AttemptRef → AttemptRef → Bool
same_reference a b =
    beq a.task_run_id b.task_run_id
    && (beq a.attempt_id b.attempt_id
        && (a.contract_version == b.contract_version && beq a.contract_digest b.contract_digest))

unfoldable pub require_reference : AttemptState → AttemptRef → Result AgentError (Unit {0})
require_reference a reference =
    ensure (same_reference a.reference reference) (failure "attempt_contract_mismatch")

unfoldable pub require_same_command : AttemptState → Bytes → Bytes → Result AgentError (Unit {0})
require_same_command a command_id payload_digest = do
  ensure (beq a.last_command_id command_id) (failure "attempt_already_claimed")
  ensure (beq a.last_command_payload_digest payload_digest) digest_conflict

abbrev pub stored_result : AttemptState → Bytes → Option StoredCommandResult
stored_result a command_id = get command_id a.command_results

-- A stored result of another payload is a conflict; a new one needs room below the limit.
abbrev pub has_room :
    Option StoredCommandResult → Bytes → (count limit : ℕ) → Result AgentError (Unit {0})
has_room (some stored) payload_digest count limit =
    ensure (beq stored.payload_digest payload_digest) digest_conflict
has_room none payload_digest count limit = ensure (not (leb limit count)) ledger_full

unfoldable pub record_command :
    CommandRef → Bytes → ℕ → AttemptState → Result AgentError AttemptState
record_command command payload_digest command_limit a = do
  has_room (stored_result a command.command_id) payload_digest (length a.command_results)
      command_limit
  let same_session =
      is_some_and (λ session. beq session.session_id a.last_command_session_id) command.session
  ensure
      (not (
        not (beq a.last_command_id command.command_id)
        && (same_session && leb command.sequence a.last_command_sequence)))
      (failure "command_sequence_invalid")
  ok (record a {
    last_command_id = command.command_id;
    last_command_sequence = command.sequence;
    last_command_generation = generation_of command.session;
    last_command_session_id = session_id_of command.session;
    last_command_payload_digest = payload_digest;
  })

unfoldable pub receipt : AttemptState → TaskAttemptReceiptV1
receipt a = record {
  receipt_version = 1;
  attempt = some a.reference;
  attempt_state = a.attempt_state;
  last_command_id = a.last_command_id;
  last_command_sequence = a.last_command_sequence;
  last_command_generation = a.last_command_generation;
  last_command_payload_digest = a.last_command_payload_digest;
  side_effect_state = a.side_effect_state;
  last_side_effect_command_id = a.last_side_effect_command_id;
  input_state = a.input_state;
  capture_state = a.capture_state;
  owned_target_state = a.owned_target_state;
  cleanup_complete = some a.cleanup_complete;
  error_code = a.error_code;
  target_generation = 0;
}

-- `try_from`, and not `Unspecified`.
abbrev pub is_specified_outcome : ℕ → Bool
is_specified_outcome n =
    n == outcome_code TaskCommandOutcomeState.applied
    || (n == outcome_code TaskCommandOutcomeState.not_applied
        || n == outcome_code TaskCommandOutcomeState.uncertain)

unfoldable pub command_result : AttemptState → Result AgentError TaskCommandResult
unfolding receipt
command_result a = do
  ensure (is_specified_outcome a.last_command_outcome) ledger_invalid
  ok (record {
    outcome = record {
      attempt = some a.reference;
      command_id = a.last_command_id;
      payload_digest = a.last_command_payload_digest;
      outcome = a.last_command_outcome;
      source_frame_sequence = a.last_command_source_frame_sequence;
      error_code = a.last_command_error_code;
    };
    receipt = receipt a;
  })

abbrev pub current_result : AttemptState → StoredCommandResult
current_result a = record {
  command_id = a.last_command_id;
  sequence = a.last_command_sequence;
  generation = a.last_command_generation;
  session_id = a.last_command_session_id;
  payload_digest = a.last_command_payload_digest;
  outcome = a.last_command_outcome;
  source_frame_sequence = a.last_command_source_frame_sequence;
  command_error_code = a.last_command_error_code;
  attempt_state = a.attempt_state;
  side_effect_state = a.side_effect_state;
  last_side_effect_command_id = a.last_side_effect_command_id;
  input_state = a.input_state;
  capture_state = a.capture_state;
  owned_target_state = a.owned_target_state;
  cleanup_complete = a.cleanup_complete;
  receipt_error_code = a.error_code;
}

unfoldable pub store_current_result : AttemptState → Result AgentError AttemptState
store_current_result a = do
  has_room (stored_result a a.last_command_id) a.last_command_payload_digest
      (length a.command_results) max_command_results
  ok (record a { command_results = put a.last_command_id (current_result a) a.command_results })

-- The state that `claimed` starts from, before the claim's own result is stored.
abbrev pub first_state : StoredContract → AttemptRef → TaskCommandRef → CommandRef → AttemptState
first_state contract reference task command = record {
  contract = contract;
  reference = reference;
  attempt_state = attempt_code TaskAttemptState.claimed;
  last_command_id = command.command_id;
  last_command_sequence = command.sequence;
  last_command_generation = generation_of command.session;
  last_command_session_id = session_id_of command.session;
  last_command_payload_digest = task.payload_digest;
  last_command_outcome = outcome_code TaskCommandOutcomeState.applied;
  last_command_source_frame_sequence = none;
  last_command_error_code = none;
  command_results = [];
  side_effect_state = side_effect_code TaskSideEffectState.no_effect;
  last_side_effect_command_id = [];
  input_state = input_code TaskInputState.released;
  capture_state = capture_code TaskCaptureState.not_started;
  owned_target_state = owned_target_code TaskOwnedTargetState.not_started;
  owned_target = none;
  cleanup_complete = false;
  error_code = none;
}

unfoldable pub claimed :
    StoredContract → AttemptRef → TaskCommandRef → Result AgentError AttemptState
unfolding store_current_result
claimed contract reference task = do
  command ← ok_or task.command task_ref_invalid
  store_current_result (first_state contract reference task command)

-- `StoredCommandResult::result`.
unfoldable pub result : StoredCommandResult → StoredAttemptRef → Result AgentError TaskCommandResult
result stored reference = do
  ensure (is_specified_outcome stored.outcome) ledger_invalid
  ok (record {
    outcome = record {
      attempt = some reference;
      command_id = stored.command_id;
      payload_digest = stored.payload_digest;
      outcome = stored.outcome;
      source_frame_sequence = stored.source_frame_sequence;
      error_code = stored.command_error_code;
    };
    receipt = record {
      receipt_version = 1;
      attempt = some reference;
      attempt_state = stored.attempt_state;
      last_command_id = stored.command_id;
      last_command_sequence = stored.sequence;
      last_command_generation = stored.generation;
      last_command_payload_digest = stored.payload_digest;
      side_effect_state = stored.side_effect_state;
      last_side_effect_command_id = stored.last_side_effect_command_id;
      input_state = stored.input_state;
      capture_state = stored.capture_state;
      owned_target_state = stored.owned_target_state;
      cleanup_complete = some stored.cleanup_complete;
      error_code = stored.receipt_error_code;
      target_generation = 0;
    };
  })
