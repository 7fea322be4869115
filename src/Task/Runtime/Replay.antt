-- ===== src/Task/Runtime/Replay.antt =====
-- bins/fairypam-agent/src/task_attempt.rs: the replay of a command, and its rejection.
use fairypam_rust_agent.Base.{
  ℕ, true, not, ◌&&◌, Option, none, some, Bytes, beq, if◌then◌else◌, String,
}
use fairypam_rust_agent.Task.Wire.{
  TaskCommandOutcomeState, outcome_code, AttemptRef, CommandRef, TaskCommandRef, TaskCommandResult,
}
use fairypam_rust_agent.Task.Data.{
  StoredCommandResult, attempt_not_found, max_business_command_results, AttemptState,
}
use fairypam_rust_agent.Task.State.{
  require_reference, require_same_command, stored_result, record_command, command_result,
  store_current_result,
}
use fairypam_rust_agent.Task.State.Check.{validate_task}
use fairypam_rust_agent.Task.Runtime.{
  Ledger, Method, return, fail, lift, take_active, active_now, or_restore, persist, ◌>>=◌, ◌>>◌,
}
use fairypam_rust_agent.Task.Runtime.Load.{load_active}
use fairypam_rust_agent.Task.Runtime.Known.{payload_digest_conflict, answer_stored, known_answer}
use fairypam_rust_agent.Task.Runtime.Prepare.{pending, conclude, prepare, storing}

abbrev pub rejected : String → AttemptState → AttemptState
rejected error_code a = record a {
  last_command_outcome = outcome_code TaskCommandOutcomeState.not_applied;
  last_command_source_frame_sequence = none;
  last_command_error_code = some error_code;
  error_code = some error_code;
}

module _ {W : Type 0} (sha256 : Bytes → Bytes) (io : Ledger W) where
  abbrev pub reject_recorded :
      TaskCommandRef → CommandRef → String → AttemptState → Method W TaskCommandResult
  reject_recorded task command error_code a = do
    recorded ←
        or_restore a
          (lift (record_command command task.payload_digest max_business_command_results a))
    storing sha256 io (rejected error_code recorded) (conclude sha256 io)

  unfoldable pub reject_taken :
      TaskCommandRef
      → AttemptRef
      → CommandRef
      → String
      → Option AttemptState
      → Method W TaskCommandResult
  unfolding require_reference record_command store_current_result command_result persist
  reject_taken task reference command error_code none = fail attempt_not_found
  reject_taken task reference command error_code (some a) = do
    or_restore a (lift (require_reference a reference))
    (if beq a.last_command_id command.command_id && not (pending a)
        then conclude sha256 io a
        else reject_recorded task command error_code a)

  abbrev pub or_else :
      Option TaskCommandResult → Method W TaskCommandResult → Method W TaskCommandResult
  or_else (some answer) m = return answer
  or_else none m = m

  unfoldable pub reject : TaskCommandRef → String → Method W TaskCommandResult
  unfolding validate_task load_active known_answer reject_taken
  reject task error_code = do
    (reference, command) ← lift (validate_task task)
    load_active sha256 io
    active ← active_now
    known ← known_answer sha256 io task command active
    or_else known (take_active >>= reject_taken task reference command error_code)

  abbrev pub replay_unstored :
      (now : ℕ) → TaskCommandRef → CommandRef → AttemptState → Method W (Option TaskCommandResult)
  replay_unstored now task command a =
      if not (beq a.last_command_id command.command_id)
      then return none
      else if not (beq a.last_command_payload_digest task.payload_digest)
      then (payload_digest_conflict sha256 io task >>= λ answer. return (some answer))
      else (do
        lift (require_same_command a command.command_id task.payload_digest)
        (if pending a
            then prepare sha256 io now task true
            else (lift (command_result a) >>= λ answer. return (some answer))))

  abbrev pub replay_in :
      (now : ℕ)
      → TaskCommandRef
      → CommandRef
      → AttemptState
      → Option StoredCommandResult
      → Method W (Option TaskCommandResult)
  replay_in now task command a (some stored) =
      answer_stored sha256 io task a stored >>= (λ answer. return (some answer))
  replay_in now task command a none = replay_unstored now task command a

  unfoldable pub replay_active :
      (now : ℕ)
      → TaskCommandRef
      → AttemptRef
      → CommandRef
      → Option AttemptState
      → Method W (Option TaskCommandResult)
  unfolding require_reference answer_stored payload_digest_conflict require_same_command prepare
      command_result
  replay_active now task reference command none = fail attempt_not_found
  replay_active now task reference command (some a) = do
    lift (require_reference a reference)
    replay_in now task command a (stored_result a command.command_id)

  unfoldable pub replay : (now : ℕ) → TaskCommandRef → Method W (Option TaskCommandResult)
  unfolding validate_task load_active replay_active
  replay now task = do
    (reference, command) ← lift (validate_task task)
    load_active sha256 io
    active ← active_now
    replay_active now task reference command active
