-- ===== src/Task/Runtime/Prepare.antt =====
-- bins/fairypam-agent/src/task_attempt.rs: what a command meets before it is executed: the result it
-- already has, a conflict, a refusal, or the record that it is about to be executed.
use fairypam_rust_agent.Base.{
  ℕ, Bool, true, false, ◌&&◌, ◌+◌, Option, none, some, Bytes, beq, ltb, ◌==◌, if◌then◌else◌, leb,
}
use fairypam_rust_agent.Base.Int.{ℤ, pos, negsuc}
use fairypam_rust_agent.Base.Result.{Result, ok, err}
use fairypam_rust_agent.Core.State.{failure}
use fairypam_rust_agent.Task.Wire.{
  TaskCommandOutcomeState, TaskAttemptState, TaskSideEffectState, outcome_code, attempt_code,
  side_effect_code, AttemptRef, CommandRef, TaskCommandRef, TaskCommandResult,
}
use fairypam_rust_agent.Task.Data.{
  attempt_not_found, max_business_command_results, max_inspect_command_results,
  max_release_command_results, max_command_results, AttemptState,
}
use fairypam_rust_agent.Task.State.{
  require_reference, require_same_command, record_command, command_result, store_current_result,
  effect_unresolved,
}
use fairypam_rust_agent.Task.State.Check.{validate_task}
use fairypam_rust_agent.Task.Runtime.{
  Ledger, Method, return, fail, lift, take_active, active_now, put_active, or_restore,
  persist_or_restore, persist, ◌>>=◌, ◌>>◌, AgentError,
}
use fairypam_rust_agent.Task.Runtime.Load.{load_active}
use fairypam_rust_agent.Task.Runtime.Known.{known_answer}

-- `deadline_unix_ms <= now`.
abbrev pub deadline_passed : ℤ → ℕ → Bool
deadline_passed (pos deadline) now = leb deadline now
deadline_passed (negsuc deadline) now = true

abbrev pub contract_expired : ℕ → AttemptState → Bool
contract_expired now a =
    ltb 1 a.contract.contract_version && deadline_passed a.contract.deadline_unix_ms now

abbrev pub pending : AttemptState → Bool
pending a = a.last_command_outcome == outcome_code TaskCommandOutcomeState.unspecified

-- A command that was recorded and never completed is closed, as uncertain if it may have acted.
abbrev pub interrupted : Bool → AttemptState → AttemptState
interrupted side_effect a =
    if side_effect && a.side_effect_state == side_effect_code TaskSideEffectState.intent_recorded
    then record a {
      side_effect_state = side_effect_code TaskSideEffectState.uncertain;
      last_command_outcome = outcome_code TaskCommandOutcomeState.uncertain;
      last_command_error_code = some "side_effect_uncertain";
      error_code = some "side_effect_uncertain";
    }
    else record a {
      last_command_outcome = outcome_code TaskCommandOutcomeState.not_applied;
      last_command_error_code = some "command_interrupted";
      error_code = some "command_interrupted";
    }

abbrev pub opened : CommandRef → Bool → AttemptState → AttemptState
opened command side_effect a =
    let cleared = record a {
      last_command_outcome = outcome_code TaskCommandOutcomeState.unspecified;
      last_command_source_frame_sequence = none;
      last_command_error_code = none;
      error_code = none;
    } in
    if side_effect
    then record cleared {
      side_effect_state = side_effect_code TaskSideEffectState.intent_recorded;
      last_side_effect_command_id = command.command_id;
    }
    else cleared

-- What keeps a new command, other than one of recovery, from being recorded.
abbrev pub opens_now : ℕ → AttemptState → Result AgentError (Unit {0})
opens_now now a =
    if a.attempt_state == attempt_code TaskAttemptState.terminal
    then err (failure "attempt_terminal")
    else if contract_expired now a
    then err (failure "task.contract_expired")
    else if effect_unresolved a.side_effect_state
    then err (failure "side_effect_uncertain")
    else ok tt

module _ {W : Type 0} (sha256 : Bytes → Bytes) (io : Ledger W) where
  -- `store_current_result`, then `persist`, and the rest with what was stored.
  abbrev pub storing : {B : Type 0} → AttemptState → (AttemptState → Method W B) → Method W B
  storing a k = do
    stored ← or_restore a (lift (store_current_result a))
    persist_or_restore io stored
    k stored

  -- `let result = active.command_result()?; self.active = Some(active); Ok(result)`.
  abbrev pub conclude : AttemptState → Method W TaskCommandResult
  conclude a = do answer ← lift (command_result a); put_active a; return answer

  abbrev pub conclude_some : AttemptState → Method W (Option TaskCommandResult)
  conclude_some a = do answer ← lift (command_result a); put_active a; return (some answer)

  abbrev pub close_interrupted : Bool → AttemptState → Method W (Option TaskCommandResult)
  close_interrupted side_effect a =
      if pending a then storing (interrupted side_effect a) conclude_some else conclude_some a

  -- The command is the last one that was recorded.
  unfoldable pub prepare_again :
      TaskCommandRef
      → CommandRef
      → (side_effect allow_uncertain : Bool) → AttemptState
      → Method W (Option TaskCommandResult)
  unfolding require_same_command store_current_result command_result persist
  prepare_again task command side_effect allow_uncertain a = do
    or_restore a (lift (require_same_command a command.command_id task.payload_digest))
    (if allow_uncertain && pending a
        then put_active a >> return none
        else close_interrupted side_effect a)

  abbrev pub may_open : (allow_uncertain : Bool) (now : ℕ) → AttemptState → Method W (Unit {0})
  may_open true now a = return tt
  may_open false now a = or_restore a (lift (opens_now now a))

  -- A command that was not seen before is recorded, and may be executed.
  unfoldable pub prepare_new :
      TaskCommandRef
      → CommandRef
      → (side_effect allow_uncertain : Bool) (command_limit now : ℕ) → AttemptState
      → Method W (Option TaskCommandResult)
  unfolding record_command persist
  prepare_new task command side_effect allow_uncertain command_limit now a = do
    may_open allow_uncertain now a
    recorded ← or_restore a (lift (record_command command task.payload_digest command_limit a))
    persist_or_restore io (opened command side_effect recorded)
    put_active (opened command side_effect recorded)
    return none

  abbrev pub prepare_taken :
      TaskCommandRef
      → AttemptRef
      → CommandRef
      → (side_effect allow_uncertain : Bool) (command_limit now : ℕ) → Option AttemptState
      → Method W (Option TaskCommandResult)
  prepare_taken task reference command side_effect allow_uncertain command_limit now none =
      fail attempt_not_found
  prepare_taken task reference command side_effect allow_uncertain command_limit now (some a) = do
    or_restore a (lift (require_reference a reference))
    (if beq a.last_command_id command.command_id
        then prepare_again task command side_effect allow_uncertain a
        else prepare_new task command side_effect allow_uncertain command_limit now a)

  abbrev pub unless_answered :
      Option TaskCommandResult
      → Method W (Option TaskCommandResult)
      → Method W (Option TaskCommandResult)
  unless_answered (some answer) m = return (some answer)
  unless_answered none m = m

  unfoldable pub prepare_inner :
      (now : ℕ)
      → TaskCommandRef
      → (side_effect allow_uncertain : Bool) (command_limit : ℕ)
      → Method W (Option TaskCommandResult)
  unfolding validate_task load_active known_answer require_reference prepare_again prepare_new
  prepare_inner now task side_effect allow_uncertain command_limit = do
    (reference, command) ← lift (validate_task task)
    load_active sha256 io
    active ← active_now
    known ← known_answer sha256 io task command active
    unless_answered known (
        take_active
        >>= prepare_taken task reference command side_effect allow_uncertain command_limit now)

  unfoldable pub prepare :
      (now : ℕ) → TaskCommandRef → (side_effect : Bool) → Method W (Option TaskCommandResult)
  unfolding prepare_inner
  prepare now task side_effect =
      prepare_inner now task side_effect false max_business_command_results

  unfoldable pub prepare_recovery : (now : ℕ) → TaskCommandRef → Method W (Option TaskCommandResult)
  unfolding prepare_inner
  prepare_recovery now task =
      prepare_inner now task false true
        (max_business_command_results + max_inspect_command_results + max_release_command_results)

  unfoldable pub prepare_finish : (now : ℕ) → TaskCommandRef → Method W (Option TaskCommandResult)
  unfolding prepare_inner
  prepare_finish now task = prepare_inner now task false true max_command_results
