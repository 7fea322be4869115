-- ===== src/Task/Data.antt =====
-- bins/fairypam-agent/src/task_attempt.rs: what is stored of an attempt and of its commands' results,
-- and the bounds and errors of its ledger.
use fairypam_rust_agent.Base.{ℕ, Bool, Option, List, [], Bytes, codes, String, ◌+◌}
use fairypam_rust_agent.Base.Int.{ℤ, pos}
use fairypam_rust_agent.Core.Error.{AgentError}
use fairypam_rust_agent.Core.Target.{TargetBinding}
use fairypam_rust_agent.Core.State.{failure}
use fairypam_rust_agent.Task.Contract.{AgentAttemptContractV1, ExecutionContract}
use fairypam_rust_agent.Task.Wire.{AttemptRef}

abbrev pub max_record_bytes : ℕ
max_record_bytes = 1_048_576

abbrev pub max_business_command_results : ℕ
max_business_command_results = 98_304

abbrev pub max_inspect_command_results : ℕ
max_inspect_command_results = 8

abbrev pub max_release_command_results : ℕ
max_release_command_results = 4

abbrev pub max_finish_command_results : ℕ
max_finish_command_results = 4

abbrev pub max_command_results : ℕ
max_command_results =
    max_business_command_results
    + (max_inspect_command_results + max_release_command_results + max_finish_command_results)

pub record StoredContract : Type 0 where
  pub task_run_id : Bytes
  pub attempt_id : Bytes
  pub agent_build_id : Bytes
  pub profile_id : Bytes
  pub profile_digest : Bytes
  pub cleanup_policy : Bytes
  pub contract_version : ℕ
  pub contract_digest : Bytes
  pub allowed_capabilities : List ℤ
  pub deadline_unix_ms : ℤ
  pub max_input_lease_ms : ℕ
  pub cleanup_policy_value : ℤ

-- Its fields are those of the message, and `message` and `From` copy them.
abbrev pub StoredAttemptRef : Type 0
StoredAttemptRef = AttemptRef

pub record StoredCommandResult : Type 0 where
  pub command_id : Bytes
  pub sequence : ℕ
  pub generation : ℕ
  pub session_id : Bytes
  pub payload_digest : Bytes
  pub outcome : ℕ
  pub source_frame_sequence : Option ℕ
  pub command_error_code : Option String
  pub attempt_state : ℕ
  pub side_effect_state : ℕ
  pub last_side_effect_command_id : Bytes
  pub input_state : ℕ
  pub capture_state : ℕ
  pub owned_target_state : ℕ
  pub cleanup_complete : Bool
  pub receipt_error_code : Option String

pub record AttemptState : Type 0 where
  pub contract : StoredContract
  pub reference : StoredAttemptRef
  pub attempt_state : ℕ
  pub last_command_id : Bytes
  pub last_command_sequence : ℕ
  pub last_command_generation : ℕ
  pub last_command_session_id : Bytes
  pub last_command_payload_digest : Bytes
  pub last_command_outcome : ℕ
  pub last_command_source_frame_sequence : Option ℕ
  pub last_command_error_code : Option String
  pub command_results : List (Bytes × StoredCommandResult)
  pub side_effect_state : ℕ
  pub last_side_effect_command_id : Bytes
  pub input_state : ℕ
  pub capture_state : ℕ
  pub owned_target_state : ℕ
  pub owned_target : Option TargetBinding
  pub cleanup_complete : Bool
  pub error_code : Option String

-- `StoredContract::from`, for the contract of either protocol, and back.
unfoldable pub from_agent_contract : AgentAttemptContractV1 → StoredContract
from_agent_contract contract = record {
  task_run_id = contract.task_run_id;
  attempt_id = contract.attempt_id;
  agent_build_id = contract.agent_build_id;
  profile_id = contract.profile_id;
  profile_digest = contract.profile_digest;
  cleanup_policy = contract.cleanup_policy;
  contract_version = contract.contract_version;
  contract_digest = contract.contract_digest;
  allowed_capabilities = [];
  deadline_unix_ms = pos 0;
  max_input_lease_ms = 0;
  cleanup_policy_value = pos 0;
}

unfoldable pub from_execution_contract : ExecutionContract → StoredContract
from_execution_contract contract = record {
  task_run_id = contract.task_run_id;
  attempt_id = contract.attempt_id;
  agent_build_id = contract.agent_build_id;
  profile_id = contract.profile_id;
  profile_digest = contract.profile_digest;
  cleanup_policy = codes "release_input_keep_managed_target";
  contract_version = contract.contract_version;
  contract_digest = contract.contract_digest;
  allowed_capabilities = contract.allowed_capabilities;
  deadline_unix_ms = contract.deadline_unix_ms;
  max_input_lease_ms = contract.max_input_lease_ms;
  cleanup_policy_value = contract.cleanup_policy;
}

abbrev pub message : StoredContract → AgentAttemptContractV1
message contract = record {
  task_run_id = contract.task_run_id;
  attempt_id = contract.attempt_id;
  agent_build_id = contract.agent_build_id;
  profile_id = contract.profile_id;
  profile_digest = contract.profile_digest;
  cleanup_policy = contract.cleanup_policy;
  contract_version = contract.contract_version;
  contract_digest = contract.contract_digest;
}

abbrev pub task_ref_invalid : AgentError
task_ref_invalid = failure "task.reference_invalid"

abbrev pub attempt_not_found : AgentError
attempt_not_found = failure "attempt_not_found"

abbrev pub ledger_invalid : AgentError
ledger_invalid = failure "task.ledger_invalid"

abbrev pub digest_conflict : AgentError
digest_conflict = failure "command.payload_digest_conflict"

abbrev pub ledger_full : AgentError
ledger_full = failure "task.ledger_full"
