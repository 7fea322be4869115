-- ===== src/Task/Runtime/Known.antt =====
-- bins/fairypam-agent/src/task_attempt.rs: the answer to a command that the attempt knows already.
use fairypam_rust_agent.Base.{false, not, ◌&&◌, Option, none, some, Bytes, beq, if◌then◌else◌}
use fairypam_rust_agent.Task.Wire.{
  TaskCommandOutcomeState, TaskSideEffectState, outcome_code, side_effect_code, AttemptRef,
  CommandRef, TaskCommandRef, TaskCommandResult,
}
use fairypam_rust_agent.Task.Data.{
  StoredCommandResult, attempt_not_found, digest_conflict, AttemptState,
}
use fairypam_rust_agent.Task.State.{
  require_reference, stored_result, receipt, result, generation_of,
}
use fairypam_rust_agent.Task.State.Check.{validate_task}
use fairypam_rust_agent.Task.Runtime.{
  Ledger, Method, return, fail, lift, take_active, put_active, or_restore, persist, ◌>>=◌, ◌>>◌,
}
use fairypam_rust_agent.Task.Runtime.Load.{load_active}

-- The payload digest that the attempt knows of a command.
abbrev pub known_digest : AttemptState → Bytes → Option Bytes
known_digest a command_id = elim (stored_result a command_id) [
  | some stored ↦ some stored.payload_digest
  | none ↦ if beq a.last_command_id command_id then some a.last_command_payload_digest else none
]

-- The answer to a command whose payload changed; nothing of it is stored in the journal.
abbrev pub conflict_result : AttemptState → CommandRef → Bytes → Bytes → TaskCommandResult
conflict_result a command payload_digest known = record {
  outcome = record {
    attempt = some a.reference;
    command_id = command.command_id;
    payload_digest = payload_digest;
    outcome = outcome_code TaskCommandOutcomeState.uncertain;
    source_frame_sequence = none;
    error_code = some "command.payload_digest_conflict";
  };
  receipt = record (receipt a) {
    last_command_id = command.command_id;
    last_command_sequence = command.sequence;
    last_command_generation = generation_of command.session;
    last_command_payload_digest = known;
  };
}

abbrev pub conflicted : AttemptState → AttemptState
conflicted a = record a {
  side_effect_state = side_effect_code TaskSideEffectState.uncertain;
  cleanup_complete = false;
  error_code = some "command.payload_digest_conflict";
}

module _ {W : Type 0} (sha256 : Bytes → Bytes) (io : Ledger W) where
  abbrev pub conflict_with :
      TaskCommandRef → CommandRef → AttemptState → Option Bytes → Method W TaskCommandResult
  conflict_with task command a none = or_restore a (fail digest_conflict)
  conflict_with task command a (some known) =
      if beq known task.payload_digest then or_restore a (fail digest_conflict) else do
        or_restore (conflicted a) (persist io (conflicted a))
        put_active (conflicted a)
        return (conflict_result (conflicted a) command task.payload_digest known)

  abbrev pub conflict_taken :
      TaskCommandRef → AttemptRef → CommandRef → Option AttemptState → Method W TaskCommandResult
  conflict_taken task reference command none = fail attempt_not_found
  conflict_taken task reference command (some a) = do
    or_restore a (lift (require_reference a reference))
    conflict_with task command a (known_digest a command.command_id)

  unfoldable pub payload_digest_conflict : TaskCommandRef → Method W TaskCommandResult
  unfolding validate_task load_active require_reference receipt persist
  payload_digest_conflict task = do
    (reference, command) ← lift (validate_task task)
    load_active sha256 io
    active ← take_active
    conflict_taken task reference command active

  -- The answer to a command whose result is stored.
  unfoldable pub answer_stored :
      TaskCommandRef → AttemptState → StoredCommandResult → Method W TaskCommandResult
  unfolding payload_digest_conflict result
  answer_stored task a stored =
      if not (beq stored.payload_digest task.payload_digest)
      then payload_digest_conflict task
      else lift (result stored a.reference)

  -- Whether the attempt knows the command already: its stored result, or another payload.
  abbrev pub known_in :
      TaskCommandRef
      → CommandRef
      → AttemptState
      → Option StoredCommandResult
      → Method W (Option TaskCommandResult)
  known_in task command a (some stored) =
      answer_stored task a stored >>= (λ answer. return (some answer))
  known_in task command a none =
      if beq a.last_command_id command.command_id
        && not (beq a.last_command_payload_digest task.payload_digest)
      then payload_digest_conflict task >>= (λ answer. return (some answer))
      else return none

  unfoldable pub known_answer :
      TaskCommandRef → CommandRef → Option AttemptState → Method W (Option TaskCommandResult)
  unfolding payload_digest_conflict answer_stored
  known_answer task command none = return none
  known_answer task command (some a) = known_in task command a (stored_result a command.command_id)
