-- ===== src/Task/Tests.antt =====
-- Runs of the runtime of task attempts, and its theorems at concrete inputs.
use fairypam_rust_agent.Base.{
  ℕ, true, false, ◌≡◌, ◌≢◌, refl, Option, none, some, [], ◌∷◌, Bytes, codes, String, beq, cmp, inr,
  arith,
}
use fairypam_rust_agent.Base.Int.{pos}
use fairypam_rust_agent.Base.Sets.{put, get}
use fairypam_rust_agent.Base.Result.{Result, ok, err}
use fairypam_rust_agent.Core.Error.{AgentError}
use fairypam_rust_agent.Core.Profile.Hex.{hex_digest}
use fairypam_rust_agent.Task.Wire.{
  AttemptRef, CommandRef, TaskCommandRef, TaskCommandResult, TaskCommandOutcomeState,
}
use fairypam_rust_agent.Task.Contract.{
  ExecutionContract, is_uuid, is_digest, is_safe, decimal, int_decimal,
  canonical_execution_contract, verify_execution_contract,
}
use fairypam_rust_agent.Task.Data.{AttemptState, from_execution_contract}
use fairypam_rust_agent.Task.State.{
  local_resources_released, require_reference, require_same_command, record_command, receipt,
  command_result, store_current_result, claimed, first_state,
}
use fairypam_rust_agent.Task.State.Check.{
  validate_task, validate_contract_reference, validate_result, fields_fit, reports_cleanup,
  validate_contract, validate,
}
use fairypam_rust_agent.Task.Runtime.{
  Ledger, TaskAttemptRuntime, memory, persist, absent_directory, absent_file, lines, record_of,
}
use fairypam_rust_agent.Task.Runtime.Load.{
  load_active, load_named, load_last, read_records, journal_line,
}
use fairypam_rust_agent.Task.Runtime.Known.{known_answer, conflict_result}
use fairypam_rust_agent.Task.Runtime.Prepare.{
  prepare_again, prepare_new, prepare_inner, prepare, prepare_recovery, prepare_finish, opened,
}
use fairypam_rust_agent.Task.Runtime.Begin.{
  reject_terminal_reuse, drop_released, begin_on, begin_checked, begin_v2, require_active,
}
use fairypam_rust_agent.Task.Runtime.Complete.{
  complete_taken, complete, complete_release, complete_finish,
}
use fairypam_rust_agent.Task.Runtime.Calls.{
  step, run, prepares, prepares_recovery, prepares_finish, finishes, asks_active,
}
use fairypam_rust_agent.Task.Held.{Held, recorded, stored}
use fairypam_rust_agent.Task.Once.{Remembers}
use fairypam_rust_agent.Task.Once.Stored.{Any, complete-prepare_inner}
use fairypam_rust_agent.Task.Grant.Opens.{IsAddressed, prepare-opens}
use fairypam_rust_agent.Task.Grant.Free.{IsFree}
use fairypam_rust_agent.Task.Grant.{IsGranted, prepare-IsGranted}
use fairypam_rust_agent.Task.Doubt.{InDoubt, IsOpen, prepare-InDoubt}
use fairypam_rust_agent.Task.Cleanup.{IsStuck, IsUnreadable, complete_release-IsUnreadable}
use fairypam_rust_agent.Task.Ledger.{History, latest, last_written, load_last-latest}
use fairypam_rust_agent.Task.Claim.{begin_v2-run-Held}

-- A digest of zeros, and a ledger that accepts every line.
abbrev zero_digest : Bytes → Bytes
zero_digest bytes =
    0 ∷ 0 ∷ 0 ∷ 0 ∷ 0 ∷ 0 ∷ 0 ∷ 0 ∷ 0 ∷ 0 ∷ 0 ∷ 0 ∷ 0 ∷ 0 ∷ 0 ∷ 0 ∷ 0 ∷ 0 ∷ 0 ∷ 0 ∷ 0 ∷ 0 ∷ 0 ∷ 0
    ∷ 0 ∷ 0 ∷ 0 ∷ 0 ∷ 0 ∷ 0 ∷ 0 ∷ 0 ∷ []

abbrev zeros : Bytes
zeros = codes "0000000000000000000000000000000000000000000000000000000000000000"

abbrev accepting : Ledger (Unit {0})
accepting = record {
  join = λ root name. name;
  create_dir_all = λ root w. (true, w);
  append = λ path line w. (true, w);
  read_dir = λ root w. absent_directory;
  read_lines = λ path w. absent_file;
  to_vec = λ a. some [];
  from_str = λ line. none;
}

abbrev task_run : Bytes
task_run = codes "11111111-1111-4111-8111-111111111111"

abbrev attempt : Bytes
attempt = codes "22222222-2222-4222-8222-222222222222"

abbrev contract : ExecutionContract
contract = record {
  task_run_id = task_run;
  attempt_id = attempt;
  agent_build_id = codes "build-1";
  profile_id = codes "game";
  profile_digest = zeros;
  allowed_capabilities = pos 1 ∷ pos 4 ∷ [];
  deadline_unix_ms = pos 5_000;
  max_input_lease_ms = 1_000;
  cleanup_policy = pos 1;
  contract_version = 3;
  contract_digest = zeros;
}

abbrev reference : AttemptRef
reference = record {
  task_run_id = task_run;
  attempt_id = attempt;
  contract_version = 3;
  contract_digest = zeros;
}

abbrev command_of : String → ℕ → CommandRef
command_of id sequence = record {
  session =
      some (record { agent_id = codes "agent"; session_id = codes "session"; generation = 1 });
  command_id = codes id;
  sequence = sequence;
  expires_at_unix_ms = pos 4_000;
}

abbrev task_of : String → ℕ → TaskCommandRef
task_of id sequence = record {
  command = some (command_of id sequence);
  attempt = some reference;
  payload_digest = zeros;
}

abbrev the_claim : AttemptState
the_claim = stored (
    first_state (from_execution_contract contract) reference (task_of "claim" 1)
      (command_of "claim" 1))

abbrev begun : TaskAttemptRuntime (Unit {0})
begun = (begin_v2 zero_digest accepting (task_of "claim" 1) contract (memory tt)).1

begins :
    begin_v2 zero_digest accepting (task_of "claim" 1) contract (memory tt)
    ≡ (ok (receipt the_claim), begun)
unfolding begin_v2 verify_execution_contract canonical_execution_contract is_uuid is_digest is_safe
    decimal int_decimal hex_digest beq validate_task begin_checked load_active reject_terminal_reuse
    load_named drop_released local_resources_released begin_on claimed store_current_result put cmp
    persist receipt memory from_execution_contract
begins = refl

loaded_now : (memory tt).loaded ≡ true
unfolding memory
loaded_now = refl

idle_now : (memory tt).active ≡ none
unfolding memory
idle_now = refl

begun_loaded : begun.loaded ≡ true
unfolding begin_v2 verify_execution_contract canonical_execution_contract is_uuid is_digest is_safe
    decimal int_decimal hex_digest beq validate_task begin_checked load_active reject_terminal_reuse
    load_named drop_released local_resources_released begin_on claimed store_current_result put cmp
    persist receipt memory from_execution_contract
begun_loaded = refl

begun_active : begun.active ≡ some the_claim
unfolding begin_v2 verify_execution_contract canonical_execution_contract is_uuid is_digest is_safe
    decimal int_decimal hex_digest beq validate_task begin_checked load_active reject_terminal_reuse
    load_named drop_released local_resources_released begin_on claimed store_current_result put cmp
    persist receipt memory from_execution_contract
begun_active = refl

begin_v2-run-Held_example :
    Held
      (Remembers (codes "claim") zeros)
      (run zero_digest accepting (prepares 100 (task_of "jump" 2) true ∷ asks_active ∷ []) begun)
begin_v2-run-Held_example =
    begin_v2-run-Held zero_digest accepting (task_of "claim" 1) contract (receipt the_claim)
      (memory tt) begun (prepares 100 (task_of "jump" 2) true ∷ asks_active ∷ [])
      (command_of "claim" 1) loaded_now idle_now refl begins refl

-- A command that is a side effect is prepared, completed, and prepared again.
abbrev prepared : TaskAttemptRuntime (Unit {0})
prepared = run zero_digest accepting (prepares 100 (task_of "jump" 2) true ∷ []) begun

abbrev in_flight : AttemptState
in_flight = opened (command_of "jump" 2) true (recorded (command_of "jump" 2) zeros the_claim)

-- The runtime keeps its attempts in a directory.
abbrev rooted : TaskAttemptRuntime (Unit {0})
rooted = record begun { root = some (codes "attempts") }

abbrev kept : TaskAttemptRuntime (Unit {0})
kept = record rooted { active = some in_flight }

grants : prepare zero_digest accepting 100 (task_of "jump" 2) true rooted ≡ (ok none, kept)
unfolding step run prepare prepare_inner known_answer require_reference prepare_new record_command
    begin_v2 verify_execution_contract canonical_execution_contract is_uuid is_digest is_safe
    decimal int_decimal hex_digest beq validate_task begin_checked load_active reject_terminal_reuse
    load_named drop_released local_resources_released begin_on claimed store_current_result put cmp
    persist receipt memory from_execution_contract
grants = refl

prepare-IsGranted_example : IsGranted accepting 100 (task_of "jump" 2) true the_claim rooted kept
prepare-IsGranted_example =
    prepare-IsGranted zero_digest accepting 100 (task_of "jump" 2) true the_claim rooted kept
      begun_loaded begun_active grants

abbrev answer_in : Result AgentError (Option TaskCommandResult) → Option TaskCommandResult
answer_in (ok answer) = answer
answer_in (err e) = none

abbrev asked_again : Result AgentError (Option TaskCommandResult) × TaskAttemptRuntime (Unit {0})
asked_again = prepare zero_digest accepting 100 (task_of "jump" 2) true prepared

asks_again : asked_again ≡ (ok (answer_in asked_again.0), asked_again.1)
unfolding step run prepare prepare_inner known_answer require_reference prepare_again prepare_new
    record_command require_same_command command_result begin_v2 verify_execution_contract
    canonical_execution_contract is_uuid is_digest is_safe decimal int_decimal hex_digest beq
    validate_task begin_checked load_active reject_terminal_reuse load_named drop_released
    local_resources_released begin_on claimed store_current_result put cmp persist receipt memory
    from_execution_contract
asks_again = refl

prepared_loaded : prepared.loaded ≡ true
unfolding step run prepare prepare_inner known_answer require_reference prepare_again prepare_new
    record_command require_same_command command_result begin_v2 verify_execution_contract
    canonical_execution_contract is_uuid is_digest is_safe decimal int_decimal hex_digest beq
    validate_task begin_checked load_active reject_terminal_reuse load_named drop_released
    local_resources_released begin_on claimed store_current_result put cmp persist receipt memory
    from_execution_contract
prepared_loaded = refl

prepared_active : prepared.active ≡ some in_flight
unfolding step run prepare prepare_inner known_answer require_reference prepare_again prepare_new
    record_command require_same_command command_result begin_v2 verify_execution_contract
    canonical_execution_contract is_uuid is_digest is_safe decimal int_decimal hex_digest beq
    validate_task begin_checked load_active reject_terminal_reuse load_named drop_released
    local_resources_released begin_on claimed store_current_result put cmp persist receipt memory
    from_execution_contract
prepared_active = refl

in_flight-IsOpen : IsOpen (task_of "jump" 2) (command_of "jump" 2) in_flight
unfolding put cmp beq from_execution_contract
in_flight-IsOpen = record {
  named = refl;
  last = refl;
  same_payload = refl;
  unstored = refl;
  without_outcome = refl;
  intended = refl;
}

prepare-InDoubt_example : InDoubt (answer_in asked_again.0) asked_again.1
prepare-InDoubt_example =
    prepare-InDoubt zero_digest accepting 100 (task_of "jump" 2) (command_of "jump" 2) in_flight
      (answer_in asked_again.0) prepared asked_again.1 prepared_loaded prepared_active
      in_flight-IsOpen asks_again

-- The jump is done, and is asked for once more.
abbrev no_result : TaskCommandResult
no_result = conflict_result the_claim (command_of "claim" 1) [] []

abbrev result_in : Result AgentError TaskCommandResult → TaskCommandResult
result_in (ok answer) = answer
result_in (err e) = no_result

abbrev jumped : Result AgentError TaskCommandResult × TaskAttemptRuntime (Unit {0})
jumped =
    complete zero_digest accepting (task_of "jump" 2) TaskCommandOutcomeState.applied (some 7) none
      true (λ a. a) prepared

jumps : jumped ≡ (ok (result_in jumped.0), jumped.1)
unfolding complete complete_taken step run prepare prepare_inner known_answer require_reference
    prepare_again prepare_new record_command require_same_command command_result begin_v2
    verify_execution_contract canonical_execution_contract is_uuid is_digest is_safe decimal
    int_decimal hex_digest beq validate_task begin_checked load_active reject_terminal_reuse
    load_named drop_released local_resources_released begin_on claimed store_current_result put cmp
    persist receipt memory from_execution_contract
jumps = refl

Held-Any :
    (s : TaskAttemptRuntime (Unit {0})) → Held (Remembers (codes "claim") zeros) s → Held Any s
Held-Any s (h, (a, e, (l, v, m))) = (h, (a, e, (l, v, tt)))

complete-prepare_inner_example :
    (prepare_inner zero_digest accepting 200
      (task_of "jump" 9)
      true
      false
      100
      (run zero_digest accepting (asks_active ∷ []) jumped.1)).0
    ≢ ok none
complete-prepare_inner_example =
    complete-prepare_inner zero_digest accepting (task_of "jump" 2) (task_of "jump" 9)
      (command_of "jump" 2) (command_of "jump" 9) TaskCommandOutcomeState.applied (some 7) none true
      (λ a. a) (result_in jumped.0) prepared jumped.1 (asks_active ∷ []) 200 true false 100
      (Held-Any prepared (
        begin_v2-run-Held zero_digest accepting (task_of "claim" 1) contract (receipt the_claim)
          (memory tt) begun (prepares 100 (task_of "jump" 2) true ∷ []) (command_of "claim" 1)
          loaded_now idle_now refl begins refl))
      refl (λ a. (refl, refl, refl, refl)) refl jumps refl refl refl

-- The attempt is finished while its input cannot be released, and then released.
abbrev finished_badly : TaskAttemptRuntime (Unit {0})
finished_badly =
    run zero_digest accepting
      (prepares_finish 100 (task_of "finish" 2)
        ∷ finishes (task_of "finish" 2) false true true (some "input.release_failed")
        ∷ prepares_recovery 100 (task_of "release" 3)
        ∷ [])
      begun

abbrev active_in : TaskAttemptRuntime (Unit {0}) → AttemptState
active_in s = elim s.active [ some a ↦ a | none ↦ the_claim ]

abbrev released : Result AgentError TaskCommandResult × TaskAttemptRuntime (Unit {0})
released = complete_release zero_digest accepting (task_of "release" 3) none true finished_badly

releases_late : released ≡ (ok (result_in released.0), released.1)
unfolding step run prepare_recovery prepare_finish complete_finish complete_release complete
    complete_taken require_active prepare_inner known_answer require_reference prepare_again
    prepare_new record_command require_same_command command_result begin_v2
    verify_execution_contract canonical_execution_contract is_uuid is_digest is_safe decimal
    int_decimal hex_digest beq validate_task begin_checked load_active reject_terminal_reuse
    load_named drop_released local_resources_released begin_on claimed store_current_result put cmp
    persist receipt memory from_execution_contract
releases_late = refl

finished_badly_loaded : finished_badly.loaded ≡ true
unfolding step run prepare_recovery prepare_finish complete_finish complete_release complete
    complete_taken require_active prepare_inner known_answer require_reference prepare_again
    prepare_new record_command require_same_command command_result begin_v2
    verify_execution_contract canonical_execution_contract is_uuid is_digest is_safe decimal
    int_decimal hex_digest beq validate_task begin_checked load_active reject_terminal_reuse
    load_named drop_released local_resources_released begin_on claimed store_current_result put cmp
    persist receipt memory from_execution_contract
finished_badly_loaded = refl

finished_badly_active : finished_badly.active ≡ some (active_in finished_badly)
unfolding step run prepare_recovery prepare_finish complete_finish complete_release complete
    complete_taken require_active prepare_inner known_answer require_reference prepare_again
    prepare_new record_command require_same_command command_result begin_v2
    verify_execution_contract canonical_execution_contract is_uuid is_digest is_safe decimal
    int_decimal hex_digest beq validate_task begin_checked load_active reject_terminal_reuse
    load_named drop_released local_resources_released begin_on claimed store_current_result put cmp
    persist receipt memory from_execution_contract
finished_badly_active = refl

finished_badly-IsStuck : IsStuck zero_digest (active_in finished_badly)
unfolding validate fields_fit reports_cleanup validate_contract validate_contract_reference
    validate_result step run prepare_recovery prepare_finish complete_finish complete_release
    complete complete_taken require_active prepare_inner known_answer require_reference
    prepare_again prepare_new record_command require_same_command command_result begin_v2
    verify_execution_contract canonical_execution_contract is_uuid is_digest is_safe decimal
    int_decimal hex_digest beq validate_task begin_checked load_active reject_terminal_reuse
    load_named drop_released local_resources_released begin_on claimed store_current_result put cmp
    persist receipt memory from_execution_contract
finished_badly-IsStuck = record {
  valid = refl;
  over = refl;
  input_unknown = refl;
  capture_off = refl;
  target_known = refl;
  resolved = refl;
}

complete_release-IsUnreadable_example : IsUnreadable zero_digest (result_in released.0) released.1
complete_release-IsUnreadable_example =
    complete_release-IsUnreadable zero_digest accepting (task_of "release" 3)
      (active_in finished_badly) (result_in released.0) finished_badly released.1
      finished_badly_loaded finished_badly_active finished_badly-IsStuck releases_late

-- A ledger with two lines: the claim, and the jump that was prepared.
abbrev two_lines : Ledger (Unit {0})
two_lines = record accepting {
  read_lines = λ path w. lines (some [] ∷ some (0 ∷ []) ∷ []);
  from_str = decode;
}
  where
    decode : Bytes → Option AttemptState
    decode [] = some (record_of accepting the_claim)
    decode (byte ∷ rest) = some (record_of accepting in_flight)

abbrev history : History
history = (the_claim, []) ∷ (in_flight, 0 ∷ []) ∷ []

reads : load_last zero_digest two_lines [] tt ≡ ok in_flight
unfolding load_last read_records journal_line store_current_result put cmp validate fields_fit
    reports_cleanup validate_contract validate_contract_reference validate_result
    verify_execution_contract canonical_execution_contract is_uuid is_digest is_safe decimal
    int_decimal hex_digest beq from_execution_contract
reads = refl

load_last-latest_example :
    ((id : Bytes) → get id in_flight.command_results ≡ latest id history none)
    × ((a : AttemptState) × (last_written history none ≡ some a)
        × (record a { command_results = in_flight.command_results } ≡ in_flight))
load_last-latest_example =
    load_last-latest zero_digest two_lines [] tt history in_flight refl
      ((refl, refl), ((refl, refl), tt)) reads

jump-IsAddressed : IsAddressed (task_of "jump" 2) reference (command_of "jump" 2) the_claim
unfolding is_uuid is_digest put cmp from_execution_contract
jump-IsAddressed = record {
  attempted = refl;
  named = refl;
  with_session = refl;
  with_id = refl;
  payload = refl;
  task_run = refl;
  attempt = refl;
  version = inr refl;
  digest = refl;
  its_own = refl;
}

jump-IsFree : IsFree 100 (command_of "jump" 2) the_claim
unfolding put cmp beq from_execution_contract
jump-IsFree = record {
  fresh = refl;
  other = λ e. cc;
  live = λ e. omega arith;
  in_time = inr (5_000, refl, omega arith);
  not_intended = λ e. omega arith;
  not_in_doubt = λ e. omega arith;
  room = omega arith;
  next = λ session named same. omega arith;
}

prepare-opens_example :
    prepare zero_digest accepting 100 (task_of "jump" 2) true rooted
    ≡ (ok none, record rooted { active = some in_flight; disk = tt })
prepare-opens_example =
    prepare-opens zero_digest accepting 100 (task_of "jump" 2) true reference (command_of "jump" 2)
      the_claim jump-IsAddressed jump-IsFree rooted tt begun_loaded begun_active
      ([], tt, refl, omega arith, refl, refl)
