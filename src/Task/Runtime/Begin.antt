-- ===== src/Task/Runtime/Begin.antt =====
-- bins/fairypam-agent/src/task_attempt.rs: claiming an attempt, looking at it, and the target it owns.
use fairypam_rust_agent.Base.{
  Bool, false, not, ◌&&◌, Option, none, some, Bytes, beq, ◌==◌, if◌then◌else◌,
}
use fairypam_rust_agent.Base.Result.{Result, ok, err, ensure}
use fairypam_rust_agent.Core.State.{failure, is_some_and}
use fairypam_rust_agent.Core.Target.{TargetBinding}
use fairypam_rust_agent.Task.Contract.{
  AgentAttemptContractV1, ExecutionContract, verify_execution_contract,
}
use fairypam_rust_agent.Task.Wire.{
  TaskAttemptState, attempt_code, AttemptRef, CommandRef, TaskCommandRef, TaskCommandResult,
  TaskAttemptReceiptV1,
}
use fairypam_rust_agent.Task.Data.{
  AttemptState, StoredContract, attempt_not_found, from_agent_contract, from_execution_contract,
}
use fairypam_rust_agent.Task.State.{
  require_reference, require_same_command, stored_result, receipt, claimed,
  local_resources_released,
}
use fairypam_rust_agent.Task.State.Check.{
  validate_task, verify_stored_contract, validate_contract_reference,
}
use fairypam_rust_agent.Task.Runtime.{
  Ledger, Method, return, fail, lift, take_active, active_now, put_active, or_restore,
  persist_or_restore, persist, ◌>>=◌, ◌>>◌, AgentError,
}
use fairypam_rust_agent.Task.Runtime.Load.{load_active, load_named}
use fairypam_rust_agent.Task.Runtime.Known.{answer_stored}

abbrev is_terminal_of : AttemptRef → AttemptState → Bool
is_terminal_of reference a =
    beq a.reference.attempt_id reference.attempt_id
    && a.attempt_state == attempt_code TaskAttemptState.terminal

abbrev receipt_of : TaskCommandResult → TaskAttemptReceiptV1
receipt_of answer = answer.receipt

abbrev pub same_process : TargetBinding → TargetBinding → Bool
same_process a b =
    beq a.profile_id b.profile_id
    && (beq a.profile_version b.profile_version
        && (a.process_id == b.process_id
            && (a.process_started_at_unix_ms == b.process_started_at_unix_ms
                && beq a.process_path_sha256 b.process_path_sha256)))

abbrev pub require_contract : AttemptRef → ExecutionContract → Result AgentError (Unit {0})
require_contract reference contract =
    ensure
      (beq reference.task_run_id contract.task_run_id
        && (beq reference.attempt_id contract.attempt_id
            && (reference.contract_version == contract.contract_version
                && beq reference.contract_digest contract.contract_digest)))
      (failure "attempt_contract_mismatch")

abbrev pub refreshed : TargetBinding → AttemptState → AttemptState
refreshed binding a = record a { owned_target = some binding }

module _ {W : Type 0} (sha256 : Bytes → Bytes) (io : Ledger W) where
  unfoldable pub reject_terminal_reuse : AttemptRef → Method W (Unit {0})
  unfolding load_named
  reject_terminal_reuse reference s =
      if is_some_and (is_terminal_of reference) s.active
      then fail (failure "attempt_terminal") s
      else elim (load_named sha256 io reference s) [
        | err e ↦ (err e, s)
        | ok named ↦
            if is_some_and (is_terminal_of reference) named
            then fail (failure "attempt_terminal") s
            else (ok tt, s)
      ]

  -- An attempt that has ended and holds nothing any more makes way for another.
  unfoldable pub drop_released : Method W (Unit {0})
  unfolding local_resources_released
  drop_released s =
      if is_some_and local_resources_released s.active
      then (ok tt, record s { active = none; recovered_active = false })
      else (ok tt, s)

  abbrev pub claimed_as : AttemptState → Method W TaskAttemptReceiptV1
  claimed_as a = do
    persist io a
    (λ s. (ok (receipt a), record s { active = some a; recovered_active = false }))

  -- From `load_active` on, `begin` and `begin_v2` are the same.
  unfoldable pub begin_on :
      StoredContract
      → AttemptRef
      → CommandRef
      → TaskCommandRef
      → Option AttemptState
      → Method W TaskAttemptReceiptV1
  unfolding claimed persist receipt require_reference require_same_command answer_stored
  begin_on contract reference command task none =
      lift (claimed contract reference task) >>= claimed_as
  begin_on contract reference command task (some a) = do
    lift (require_reference a reference)
    elim (stored_result a command.command_id) [
      | some stored ↦ answer_stored sha256 io task a stored >>= λ answer. return answer.receipt
      | none ↦ do
        lift (require_same_command a command.command_id task.payload_digest)
        return (receipt a)
    ]

  unfoldable pub begin_checked :
      StoredContract → AttemptRef → CommandRef → TaskCommandRef → Method W TaskAttemptReceiptV1
  unfolding load_active reject_terminal_reuse drop_released begin_on
  begin_checked contract reference command task = do
    load_active sha256 io
    reject_terminal_reuse reference
    drop_released
    active ← active_now
    begin_on contract reference command task active

  unfoldable pub begin : TaskCommandRef → AgentAttemptContractV1 → Method W TaskAttemptReceiptV1
  unfolding verify_stored_contract validate_task validate_contract_reference begin_checked
      from_agent_contract
  begin task contract = do
    lift (verify_stored_contract sha256 contract)
    (reference, command) ← lift (validate_task task)
    lift (validate_contract_reference reference contract)
    begin_checked (from_agent_contract contract) reference command task

  unfoldable pub begin_v2 : TaskCommandRef → ExecutionContract → Method W TaskAttemptReceiptV1
  unfolding verify_execution_contract validate_task begin_checked from_execution_contract
  begin_v2 task contract = do
    lift (verify_execution_contract sha256 contract)
    (reference, command) ← lift (validate_task task)
    lift (require_contract reference contract)
    begin_checked (from_execution_contract contract) reference command task

  unfoldable pub is_active : Method W Bool
  unfolding load_active local_resources_released
  is_active = do
    load_active sha256 io
    active ← active_now
    return (is_some_and (λ a. not (local_resources_released a)) active)

  unfoldable pub recovery_blocked : Method W Bool
  unfolding is_active
  recovery_blocked = is_active >>= (λ active s. (ok (s.recovered_active && active), s))

  abbrev pub referenced : AttemptRef → Option AttemptState → Method W AttemptState
  referenced reference none = fail attempt_not_found
  referenced reference (some a) = lift (require_reference a reference) >> return a

  unfoldable pub require_active : TaskCommandRef → Method W AttemptState
  unfolding validate_task load_active require_reference
  require_active task = do
    (reference, command) ← lift (validate_task task)
    load_active sha256 io
    active ← active_now
    referenced reference active

  unfoldable pub profile_id : TaskCommandRef → Method W Bytes
  unfolding require_active
  profile_id task = require_active task >>= λ a. return a.contract.profile_id

  unfoldable pub attempt_ref : TaskCommandRef → Method W AttemptRef
  unfolding require_active
  attempt_ref task = require_active task >>= λ a. return a.reference

  abbrev pub refresh_target :
      TargetBinding → AttemptState → Option TargetBinding → Method W (Unit {0})
  refresh_target binding a none = or_restore a (fail (failure "target_invalid"))
  refresh_target binding a (some previous) =
      if same_process previous binding
      then persist_or_restore io (refreshed binding a) >> put_active (refreshed binding a)
      else or_restore a (fail (failure "target.stale"))

  unfoldable pub refresh_taken :
      AttemptRef → TargetBinding → Option AttemptState → Method W (Unit {0})
  unfolding require_reference persist
  refresh_taken reference binding none = fail attempt_not_found
  refresh_taken reference binding (some a) = do
    or_restore a (lift (require_reference a reference))
    refresh_target binding a a.owned_target

  unfoldable pub refresh_owned_target : AttemptRef → TargetBinding → Method W (Unit {0})
  unfolding load_active refresh_taken
  refresh_owned_target reference binding = do
    load_active sha256 io
    active ← take_active
    refresh_taken reference binding active
