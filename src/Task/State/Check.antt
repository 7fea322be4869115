-- ===== src/Task/State/Check.antt =====
-- bins/fairypam-agent/src/task_attempt.rs: the checks of a task's reference and contract, and of an
-- attempt read back from its ledger.
use fairypam_rust_agent.Base.{
  ℕ, Bool, true, false, not, ◌&&◌, ◌||◌, none, some, Bytes, beq, codes, leb, ◌==◌, between, length,
  is_empty, all, if◌then◌else◌,
}
use fairypam_rust_agent.Base.Result.{Result, ok, ensure, ok_or, ◌>>=◌, ◌>>◌}
use fairypam_rust_agent.Core.Error.{AgentError}
use fairypam_rust_agent.Core.State.{failure, is_some, is_some_and}
use fairypam_rust_agent.Task.Contract.{
  AgentAttemptContractV1, is_uuid, is_digest, verify_agent_attempt_contract,
  verify_execution_contract,
}
use fairypam_rust_agent.Task.Wire.{
  TaskCommandOutcomeState, TaskAttemptState, TaskInputState, TaskOwnedTargetState, outcome_code,
  attempt_code, input_code, owned_target_code, CommandRef, AttemptRef, TaskCommandRef,
}
use fairypam_rust_agent.Task.Data.{
  StoredCommandResult, StoredContract, message, task_ref_invalid, ledger_invalid,
  max_command_results, AttemptState,
}
use fairypam_rust_agent.Task.State.{
  stored_result, capture_idle, target_settled, effect_unresolved, is_specified_outcome,
}

unfoldable pub validate_task : TaskCommandRef → Result AgentError (AttemptRef × CommandRef)
unfolding is_uuid is_digest
validate_task task = do
  reference ← ok_or task.attempt task_ref_invalid
  command ← ok_or task.command task_ref_invalid
  ensure
      (is_some command.session
        && (not (is_empty command.command_id)
            && (is_digest task.payload_digest
                && (is_uuid reference.task_run_id
                    && (is_uuid reference.attempt_id
                        && ((reference.contract_version == 1 || reference.contract_version == 3)
                            && is_digest reference.contract_digest))))))
      task_ref_invalid
  ok (reference, command)

unfoldable pub validate_contract_reference :
    AttemptRef → AgentAttemptContractV1 → Result AgentError (Unit {0})
validate_contract_reference reference contract =
    ensure
      (beq reference.task_run_id contract.task_run_id
        && (beq reference.attempt_id contract.attempt_id
            && (reference.contract_version == contract.contract_version
                && beq reference.contract_digest contract.contract_digest)))
      (failure "attempt_contract_mismatch")

-- `try_from`, and not `Unspecified`, the last number of the enumeration being `last`.
abbrev is_specified : (last n : ℕ) → Bool
is_specified last n = between 1 last n

-- What `cleanup_complete` is to say.
abbrev pub cleanup_done : (attempt side_effect input capture target : ℕ) → Bool
cleanup_done attempt side_effect input capture target =
    attempt == attempt_code TaskAttemptState.terminal
    && (input == input_code TaskInputState.released
        && (capture_idle capture && (target_settled target && not (effect_unresolved side_effect))))

abbrev pub bool_eq : Bool → Bool → Bool
bool_eq true b = b
bool_eq false b = not b

abbrev pub states_specified : (attempt side_effect input capture target : ℕ) → Bool
states_specified attempt side_effect input capture target =
    is_specified 6 attempt
    && (is_specified 5 side_effect
        && (is_specified 3 input && (is_specified 4 capture && is_specified 4 target)))

-- `StoredCommandResult::validate`.
unfoldable pub validate_result : StoredCommandResult → Bool
unfolding is_digest
validate_result r =
    not (is_empty r.command_id)
    && (is_digest r.payload_digest
        && (is_specified_outcome r.outcome
            && (states_specified r.attempt_state r.side_effect_state r.input_state r.capture_state
                  r.owned_target_state
                && bool_eq r.cleanup_complete (
                    cleanup_done r.attempt_state r.side_effect_state r.input_state r.capture_state
                      r.owned_target_state))))

abbrev pub entry_fits : Bytes × StoredCommandResult → Bool
entry_fits (command_id, r) = beq command_id r.command_id && validate_result r

-- The last command's result is stored, once it has an outcome.
abbrev pub last_is_stored : AttemptState → Bool
last_is_stored a =
    a.last_command_outcome == outcome_code TaskCommandOutcomeState.unspecified
    || is_some_and
        (λ r.
          beq r.payload_digest a.last_command_payload_digest && r.outcome == a.last_command_outcome)
        (stored_result a a.last_command_id)

abbrev pub target_fits : AttemptState → Bool
target_fits a = elim a.owned_target [
  | some binding ↦
      beq binding.profile_id a.contract.profile_id
      && (a.owned_target_state == owned_target_code TaskOwnedTargetState.running
          || a.owned_target_state == owned_target_code TaskOwnedTargetState.unknown)
  | none ↦
      not (a.owned_target_state == owned_target_code TaskOwnedTargetState.running)
      || a.attempt_state == attempt_code TaskAttemptState.terminal
]

-- What `validate` asks of the fields, but for `cleanup_complete`.
unfoldable pub fields_fit : AttemptState → Bool
unfolding is_digest validate_result
fields_fit a =
    states_specified a.attempt_state a.side_effect_state a.input_state a.capture_state
      a.owned_target_state
    && (not (is_empty a.last_command_id)
        && (is_digest a.last_command_payload_digest
            && (leb a.last_command_outcome 3
                && (leb (length a.command_results) max_command_results
                    && (all entry_fits a.command_results && (last_is_stored a && target_fits a))))))

unfoldable pub reports_cleanup : AttemptState → Bool
reports_cleanup a = bool_eq a.cleanup_complete (
    cleanup_done a.attempt_state a.side_effect_state a.input_state a.capture_state
      a.owned_target_state)

module _ (sha256 : Bytes → Bytes) where
  unfoldable pub verify_stored_contract : AgentAttemptContractV1 → Result AgentError (Unit {0})
  unfolding is_uuid is_digest verify_agent_attempt_contract
  verify_stored_contract contract =
      if contract.contract_version == 1
      then verify_agent_attempt_contract sha256 contract
      else ensure
          (contract.contract_version == 3
            && (beq contract.cleanup_policy (codes "release_input_keep_managed_target")
                && (is_uuid contract.task_run_id
                    && (is_uuid contract.attempt_id
                        && (not (is_empty contract.agent_build_id)
                            && (not (is_empty contract.profile_id)
                                && (is_digest contract.profile_digest
                                    && is_digest contract.contract_digest)))))))
          (failure "task.contract_value_invalid")

  -- `StoredContract::validate`.
  unfoldable pub validate_contract : StoredContract → Result AgentError (Unit {0})
  unfolding verify_agent_attempt_contract verify_execution_contract
  validate_contract c =
      if c.contract_version == 1
      then verify_agent_attempt_contract sha256 (message c)
      else verify_execution_contract sha256 (record {
        task_run_id = c.task_run_id;
        attempt_id = c.attempt_id;
        agent_build_id = c.agent_build_id;
        profile_id = c.profile_id;
        profile_digest = c.profile_digest;
        allowed_capabilities = c.allowed_capabilities;
        deadline_unix_ms = c.deadline_unix_ms;
        max_input_lease_ms = c.max_input_lease_ms;
        cleanup_policy = c.cleanup_policy_value;
        contract_version = c.contract_version;
        contract_digest = c.contract_digest;
      })

  -- `AttemptState::validate`.
  unfoldable pub validate : AttemptState → Result AgentError (Unit {0})
  unfolding fields_fit reports_cleanup validate_contract validate_contract_reference
  validate a = do
    validate_contract a.contract
    validate_contract_reference a.reference (message a.contract)
    ensure (fields_fit a && reports_cleanup a) ledger_invalid
