-- ===== src/Task/Runtime/Safety.antt =====
-- bins/fairypam-agent/src/task_attempt.rs: what happens to the attempt without a command of the hub.
use fairypam_rust_agent.Base.{ℕ, Bool, false, not, ◌&&◌, ◌==◌, Option, none, some, Bytes, String}
use fairypam_rust_agent.Core.State.{is_some_and}
use fairypam_rust_agent.Task.Wire.{
  TaskAttemptState, TaskSideEffectState, TaskInputState, attempt_code, side_effect_code, input_code,
  TaskAttemptReceiptV1,
}
use fairypam_rust_agent.Task.Data.{AttemptState}
use fairypam_rust_agent.Task.State.{receipt, effect_unresolved}
use fairypam_rust_agent.Task.Runtime.{
  Ledger, Method, return, take_active, active_now, put_active, persist_or_restore, persist, ◌>>=◌,
  ◌>>◌,
}
use fairypam_rust_agent.Task.Runtime.Load.{load_active}
use fairypam_rust_agent.Task.Runtime.Prepare.{contract_expired}
use fairypam_rust_agent.Task.Runtime.Complete.{finished, finish_error, or_code, input_after}

abbrev pub emergency :
    (input_released capture_stopped managed_target_running : Bool)
    → Option String
    → AttemptState
    → AttemptState
emergency input_released capture_stopped managed_target_running error_code a =
    let side_effect_resolved = not (effect_unresolved a.side_effect_state) in
    let cleanup_complete = input_released && (capture_stopped && side_effect_resolved) in
    record (finished input_released capture_stopped managed_target_running cleanup_complete a) {
      error_code = or_code error_code (finish_error side_effect_resolved cleanup_complete);
    }

abbrev pub doubtful : String → Bool → AttemptState → AttemptState
doubtful error_code input_released a = record a {
  side_effect_state = side_effect_code TaskSideEffectState.uncertain;
  input_state = input_after input_released;
  cleanup_complete = false;
  error_code = some error_code;
}

abbrev pub let_go : String → AttemptState → AttemptState
let_go error_code a = record a {
  input_state = input_code TaskInputState.released;
  cleanup_complete = false;
  error_code = some error_code;
}

module _ {W : Type 0} (sha256 : Bytes → Bytes) (io : Ledger W) where
  -- `emergency_finish` works on a copy: if the ledger fails, the attempt stays as it was.
  abbrev pub finish_copy : AttemptState → Method W (Option TaskAttemptReceiptV1)
  finish_copy a = do persist io a; put_active a; return (some (receipt a))

  abbrev pub finish_active :
      (AttemptState → AttemptState) → Option AttemptState → Method W (Option TaskAttemptReceiptV1)
  finish_active update none = return none
  finish_active update (some a) = finish_copy (update a)

  unfoldable pub emergency_finish :
      (input_released capture_stopped managed_target_running : Bool)
      → Option String
      → Method W (Option TaskAttemptReceiptV1)
  unfolding load_active persist receipt
  emergency_finish input_released capture_stopped managed_target_running error_code = do
    load_active sha256 io
    active ← active_now
    finish_active (emergency input_released capture_stopped managed_target_running error_code)
        active

  abbrev pub mark_taken :
      (AttemptState → AttemptState) → Option AttemptState → Method W (Option TaskAttemptReceiptV1)
  mark_taken update none = return none
  mark_taken update (some a) = do
    persist_or_restore io (update a)
    put_active (update a)
    return (some (receipt (update a)))

  unfoldable pub mark_active_side_effect_uncertain :
      String → (input_released : Bool) → Method W (Option TaskAttemptReceiptV1)
  unfolding load_active persist receipt
  mark_active_side_effect_uncertain error_code input_released = do
    load_active sha256 io
    active ← take_active
    mark_taken (doubtful error_code input_released) active

  unfoldable pub mark_input_released : String → Method W (Option TaskAttemptReceiptV1)
  unfolding load_active persist receipt
  mark_input_released error_code = do
    load_active sha256 io
    active ← take_active
    mark_taken (let_go error_code) active

  unfoldable pub active_contract_expired : (now : ℕ) → Method W Bool
  unfolding load_active
  active_contract_expired now = do
    load_active sha256 io
    active ← active_now
    return (
        is_some_and
          (λ a.
            not (a.attempt_state == attempt_code TaskAttemptState.terminal)
            && contract_expired now a)
          active)
