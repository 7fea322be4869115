-- ===== src/Task/Contract.antt =====
-- crates/fairypam-agent-protocol/src/task_contract.rs: the contract an attempt is claimed under. The
-- digest is a parameter; `internal_v1` and `v3` are proto/fairypam/internal/v1/state.proto and
-- proto/fairypam/agent/v3/agent.proto.
use fairypam_rust_agent.Base.{
  ℕ, suc, zero, Bool, true, false, not, ◌&&◌, ◌||◌, ◌+◌, ◌/◌, ◌%◌, List, [], ◌∷◌, ◌++◌, map, Bytes,
  codes, beq, is_empty, length, all, ltb, ◌==◌, between, is_ascii_digit, is_ascii_lowercase,
  if◌then◌else◌,
}
use fairypam_rust_agent.Base.Int.{ℤ, pos, negsuc, int_between, at_least}
use fairypam_rust_agent.Base.Result.{Result, ok, ensure, ◌>>=◌, ◌>>◌}
use fairypam_rust_agent.Core.Error.{AgentError}
use fairypam_rust_agent.Core.State.{failure}
use fairypam_rust_agent.Core.Profile.Hex.{hex_digest}

pub record AgentAttemptContractV1 : Type 0 where
  pub task_run_id : Bytes
  pub attempt_id : Bytes
  pub agent_build_id : Bytes
  pub profile_id : Bytes
  pub profile_digest : Bytes
  pub cleanup_policy : Bytes
  pub contract_version : ℕ
  pub contract_digest : Bytes

pub record ExecutionContract : Type 0 where
  pub task_run_id : Bytes
  pub attempt_id : Bytes
  pub agent_build_id : Bytes
  pub profile_id : Bytes
  pub profile_digest : Bytes
  pub allowed_capabilities : List ℤ
  pub deadline_unix_ms : ℤ
  pub max_input_lease_ms : ℕ
  pub cleanup_policy : ℤ
  pub contract_version : ℕ
  pub contract_digest : Bytes

abbrev pub is_digest_byte : ℕ → Bool
is_digest_byte byte = is_ascii_digit byte || between b'a' b'f' byte

abbrev is_dash_index : ℕ → Bool
is_dash_index index = index == 8 || (index == 13 || (index == 18 || index == 23))

-- The walk over `bytes().enumerate()`, from an index.
abbrev all_uuid_bytes : ℕ → Bytes → Bool
all_uuid_bytes index [] = true
all_uuid_bytes index (byte ∷ bytes) =
    (if is_dash_index index then byte == b'-' else is_digest_byte byte)
    && all_uuid_bytes (suc index) bytes

unfoldable pub is_uuid : Bytes → Bool
is_uuid value = length value == 36 && all_uuid_bytes 0 value

unfoldable pub is_digest : Bytes → Bool
is_digest value = length value == 64 && all is_digest_byte value

abbrev is_ascii_alphanumeric : ℕ → Bool
is_ascii_alphanumeric byte =
    is_ascii_digit byte || (is_ascii_lowercase byte || between b'A' b'Z' byte)

abbrev is_safe_byte : ℕ → Bool
is_safe_byte byte =
    is_ascii_alphanumeric byte
    || (byte == b'.'
        || (byte == b'_' || (byte == b':' || (byte == b'/' || (byte == b'+' || byte == b'-')))))

abbrev starts_alphanumeric : Bytes → Bool
starts_alphanumeric [] = true
starts_alphanumeric (byte ∷ bytes) = is_ascii_alphanumeric byte

unfoldable pub is_safe : Bytes → Bool
is_safe value =
    between 1 128 (length value) && (all is_safe_byte value && starts_alphanumeric value)

-- `{}` of an unsigned number: `n` bounds the number of its digits.
abbrev digits : (fuel n : ℕ) → Bytes → Bytes
digits zero n rest = rest
digits (suc fuel) n rest =
    let more = digits fuel (n / 10) ((b'0' + n % 10) ∷ rest) in
    if ltb n 10 then (b'0' + n) ∷ rest else more

unfoldable pub decimal : ℕ → Bytes
decimal n = digits (suc n) n []

unfoldable pub int_decimal : ℤ → Bytes
unfolding decimal
int_decimal (pos n) = decimal n
int_decimal (negsuc n) = b'-' ∷ decimal (suc n)

abbrev join : List Bytes → Bytes
join [] = []
join (x ∷ []) = x
join (x ∷ y ∷ rest) = x ++ b',' ∷ join (y ∷ rest)

abbrev uuid_invalid : AgentError
uuid_invalid = failure "task.contract_uuid_invalid"

abbrev string_invalid : AgentError
string_invalid = failure "task.contract_string_invalid"

abbrev digest_invalid : AgentError
digest_invalid = failure "task.contract_digest_invalid"

abbrev value_invalid : AgentError
value_invalid = failure "task.contract_value_invalid"

abbrev mismatch : AgentError
mismatch = failure "task.contract_mismatch"

unfoldable pub canonical_agent_attempt_contract : AgentAttemptContractV1 → Result AgentError Bytes
unfolding is_uuid is_safe is_digest decimal
canonical_agent_attempt_contract contract = do
  ensure (is_uuid contract.task_run_id && is_uuid contract.attempt_id) uuid_invalid
  ensure (is_safe contract.agent_build_id && is_safe contract.profile_id) string_invalid
  ensure (is_digest contract.profile_digest) digest_invalid
  ensure
      (contract.contract_version == 1 && beq contract.cleanup_policy (codes "close_owned_target"))
      value_invalid
  ok (
      codes "{\"agent_build_id\":\""
      ++ contract.agent_build_id
      ++ codes "\",\"attempt_id\":\""
      ++ contract.attempt_id
      ++ codes "\",\"cleanup_policy\":\""
      ++ contract.cleanup_policy
      ++ codes "\",\"contract_version\":"
      ++ decimal contract.contract_version
      ++ codes ",\"profile_digest\":\""
      ++ contract.profile_digest
      ++ codes "\",\"profile_id\":\""
      ++ contract.profile_id
      ++ codes "\",\"task_run_id\":\""
      ++ contract.task_run_id
      ++ codes "\"}")

-- The loop over the capabilities: each above the one before, and a number of `ExecutionCapability`
-- but not of its `Unspecified`.
abbrev capability_above : ℤ → ℤ → Bool
capability_above (pos previous) (pos n) = ltb previous n && between 1 8 n
capability_above _ _ = false

abbrev pub capabilities_ascend : ℤ → List ℤ → Bool
capabilities_ascend previous [] = true
capabilities_ascend previous (capability ∷ rest) =
    capability_above previous capability && capabilities_ascend capability rest

unfoldable pub canonical_execution_contract : ExecutionContract → Result AgentError Bytes
unfolding is_uuid is_safe is_digest decimal int_decimal
canonical_execution_contract contract = do
  ensure (is_uuid contract.task_run_id && is_uuid contract.attempt_id) uuid_invalid
  ensure (is_safe contract.agent_build_id && is_safe contract.profile_id) string_invalid
  ensure
      (is_digest contract.profile_digest
        && (contract.contract_version == 3
            && (at_least 1 contract.deadline_unix_ms
                && (not (contract.max_input_lease_ms == 0)
                    && (int_between 1 1 contract.cleanup_policy
                        && not (is_empty contract.allowed_capabilities))))))
      value_invalid
  ensure (capabilities_ascend (pos 0) contract.allowed_capabilities) value_invalid
  ok (
      codes "{\"agent_build_id\":\""
      ++ contract.agent_build_id
      ++ codes "\",\"allowed_capabilities\":["
      ++ join (map int_decimal contract.allowed_capabilities)
      ++ codes "],\"attempt_id\":\""
      ++ contract.attempt_id
      ++ codes "\",\"cleanup_policy\":"
      ++ int_decimal contract.cleanup_policy
      ++ codes ",\"contract_version\":"
      ++ decimal contract.contract_version
      ++ codes ",\"deadline_unix_ms\":"
      ++ int_decimal contract.deadline_unix_ms
      ++ codes ",\"max_input_lease_ms\":"
      ++ decimal contract.max_input_lease_ms
      ++ codes ",\"profile_digest\":\""
      ++ contract.profile_digest
      ++ codes "\",\"profile_id\":\""
      ++ contract.profile_id
      ++ codes "\",\"task_run_id\":\""
      ++ contract.task_run_id
      ++ codes "\"}")

module _ (sha256 : Bytes → Bytes) where
  unfoldable pub verify_agent_attempt_contract :
      AgentAttemptContractV1 → Result AgentError (Unit {0})
  unfolding is_digest canonical_agent_attempt_contract
  verify_agent_attempt_contract contract = do
    ensure (is_digest contract.contract_digest) digest_invalid
    canonical ← canonical_agent_attempt_contract contract
    ensure (beq (hex_digest (sha256 canonical)) contract.contract_digest) mismatch

  unfoldable pub verify_execution_contract : ExecutionContract → Result AgentError (Unit {0})
  unfolding is_digest canonical_execution_contract
  verify_execution_contract contract = do
    ensure (is_digest contract.contract_digest) digest_invalid
    canonical ← canonical_execution_contract contract
    ensure (beq (hex_digest (sha256 canonical)) contract.contract_digest) mismatch
