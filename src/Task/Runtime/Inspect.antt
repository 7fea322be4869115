-- ===== src/Task/Runtime/Inspect.antt =====
-- bins/fairypam-agent/src/task_attempt.rs: a look at an attempt, which is a command of its own.
use fairypam_rust_agent.Base.{ℕ, false, not, ◌+◌, Option, none, some, Bytes, beq, if◌then◌else◌, []}
use fairypam_rust_agent.Task.Wire.{
  TaskCommandOutcomeState, TaskAttemptState, TaskSideEffectState, TaskInputState, TaskCaptureState,
  TaskOwnedTargetState, outcome_code, attempt_code, side_effect_code, input_code, capture_code,
  owned_target_code, AttemptRef, CommandRef, TaskCommandRef, TaskAttemptReceiptV1,
}
use fairypam_rust_agent.Task.Data.{
  AttemptState, StoredCommandResult, max_business_command_results, max_inspect_command_results,
}
use fairypam_rust_agent.Task.State.{
  require_reference, stored_result, record_command, receipt, result, store_current_result,
}
use fairypam_rust_agent.Task.State.Check.{validate_task}
use fairypam_rust_agent.Task.Runtime.{
  Ledger, Method, return, lift, take_active, put_active, or_restore, persist_or_restore, persist,
  ◌>>=◌, ◌>>◌,
}
use fairypam_rust_agent.Task.Runtime.Load.{load_active, load_named}
use fairypam_rust_agent.Task.Runtime.Known.{payload_digest_conflict}

abbrev pub not_found_receipt : TaskAttemptReceiptV1
not_found_receipt = record {
  receipt_version = 1;
  attempt = none;
  attempt_state = attempt_code TaskAttemptState.not_found;
  last_command_id = [];
  last_command_sequence = 0;
  last_command_generation = 0;
  last_command_payload_digest = [];
  side_effect_state = side_effect_code TaskSideEffectState.no_effect;
  last_side_effect_command_id = [];
  input_state = input_code TaskInputState.released;
  capture_state = capture_code TaskCaptureState.not_started;
  owned_target_state = owned_target_code TaskOwnedTargetState.not_started;
  cleanup_complete = some false;
  error_code = none;
  target_generation = 0;
}

-- The command asked only to be shown the attempt.
abbrev pub inspected : AttemptState → AttemptState
inspected a = record a {
  last_command_outcome = outcome_code TaskCommandOutcomeState.applied;
  last_command_source_frame_sequence = none;
  last_command_error_code = none;
}

abbrev inspect_limit : ℕ
inspect_limit = max_business_command_results + max_inspect_command_results

module _ {W : Type 0} (sha256 : Bytes → Bytes) (io : Ledger W) where
  -- An attempt that is not active but has a ledger is shown from there.
  unfoldable pub inspect_named :
      TaskCommandRef → AttemptRef → CommandRef → Option AttemptState → Method W TaskAttemptReceiptV1
  unfolding require_reference payload_digest_conflict result record_command store_current_result
      persist receipt
  inspect_named task reference command none = return not_found_receipt
  inspect_named task reference command (some a) = do
    lift (require_reference a reference)
    elim (stored_result a command.command_id) [
      | some stored ↦
          if not (beq stored.payload_digest task.payload_digest)
          then put_active a
            >> payload_digest_conflict sha256 io task
            >>= (λ answer. return answer.receipt)
          else lift (result stored a.reference) >>= (λ answer. return answer.receipt)
      | none ↦ do
        recorded ← lift (record_command command task.payload_digest inspect_limit a)
        stored ← lift (store_current_result (inspected recorded))
        persist io stored
        return (receipt stored)
    ]

  abbrev pub inspect_again : AttemptState → StoredCommandResult → Method W TaskAttemptReceiptV1
  inspect_again a stored = do
    answer ← lift (result stored a.reference)
    put_active a
    return answer.receipt

  abbrev pub inspect_new :
      TaskCommandRef → CommandRef → AttemptState → Method W TaskAttemptReceiptV1
  inspect_new task command a = do
    recorded ← or_restore a (lift (record_command command task.payload_digest inspect_limit a))
    stored ← or_restore (inspected recorded) (lift (store_current_result (inspected recorded)))
    persist_or_restore io stored
    put_active stored
    return (receipt stored)

  abbrev pub inspect_in :
      TaskCommandRef
      → CommandRef
      → AttemptState
      → Option StoredCommandResult
      → Method W TaskAttemptReceiptV1
  inspect_in task command a (some stored) =
      if beq stored.payload_digest task.payload_digest
      then inspect_again a stored
      else put_active a
        >> payload_digest_conflict sha256 io task
        >>= (λ answer. return answer.receipt)
  inspect_in task command a none = inspect_new task command a

  unfoldable pub inspect_active :
      TaskCommandRef → AttemptRef → CommandRef → AttemptState → Method W TaskAttemptReceiptV1
  unfolding require_reference payload_digest_conflict result record_command store_current_result
      persist receipt
  inspect_active task reference command a = do
    or_restore a (lift (require_reference a reference))
    inspect_in task command a (stored_result a command.command_id)

  unfoldable pub inspect_taken :
      TaskCommandRef → AttemptRef → CommandRef → Option AttemptState → Method W TaskAttemptReceiptV1
  unfolding load_named inspect_named inspect_active
  inspect_taken task reference command none =
      (λ s. (load_named sha256 io reference s, s)) >>= inspect_named task reference command
  inspect_taken task reference command (some a) = inspect_active task reference command a

  unfoldable pub inspect : TaskCommandRef → Method W TaskAttemptReceiptV1
  unfolding validate_task load_active inspect_taken
  inspect task = do
    (reference, command) ← lift (validate_task task)
    load_active sha256 io
    active ← take_active
    inspect_taken task reference command active
