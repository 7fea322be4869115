-- ===== src/Task/Runtime/Complete.antt =====
-- bins/fairypam-agent/src/task_attempt.rs: the outcome of a command that was executed.
use fairypam_rust_agent.Base.{
  ℕ, Bool, true, false, not, ◌&&◌, Option, none, some, Bytes, String, if◌then◌else◌,
}
use fairypam_rust_agent.Core.State.{is_some}
use fairypam_rust_agent.Core.Target.{TargetBinding}
use fairypam_rust_agent.Task.Wire.{
  TaskCommandOutcomeState, TaskAttemptState, TaskSideEffectState, TaskInputState, TaskCaptureState,
  TaskOwnedTargetState, outcome_code, attempt_code, side_effect_code, input_code, capture_code,
  owned_target_code, CommandRef, TaskCommandRef, TaskCommandResult,
}
use fairypam_rust_agent.Task.Data.{AttemptState, attempt_not_found}
use fairypam_rust_agent.Task.State.{
  require_same_command, store_current_result, command_result, effect_unresolved,
}
use fairypam_rust_agent.Task.State.Check.{validate_task}
use fairypam_rust_agent.Task.Runtime.{
  Ledger, Method, return, fail, lift, take_active, put_active, or_restore, persist_or_restore,
  persist, ◌>>=◌, ◌>>◌,
}
use fairypam_rust_agent.Task.Runtime.Begin.{require_active}

abbrev is_none : Option String → Bool
is_none error_code = not (is_some error_code)

abbrev effect_of : TaskCommandOutcomeState → ℕ
effect_of TaskCommandOutcomeState.applied = side_effect_code TaskSideEffectState.applied
effect_of TaskCommandOutcomeState.not_applied = side_effect_code TaskSideEffectState.not_applied
effect_of _ = side_effect_code TaskSideEffectState.uncertain

abbrev pub with_outcome :
    TaskCommandOutcomeState
    → Option ℕ
    → Option String
    → (side_effect : Bool) → AttemptState
    → AttemptState
with_outcome outcome source_frame_sequence error_code side_effect a =
    let told = record a {
      last_command_outcome = outcome_code outcome;
      last_command_source_frame_sequence = source_frame_sequence;
      last_command_error_code = error_code;
      error_code = error_code;
    } in
    if side_effect then record told { side_effect_state = effect_of outcome } else told

abbrev pub applied_or : TaskCommandOutcomeState → Bool → TaskCommandOutcomeState
applied_or other true = TaskCommandOutcomeState.applied
applied_or other false = other

abbrev pub input_after : Bool → ℕ
input_after released =
    if released then input_code TaskInputState.released else input_code TaskInputState.unknown

abbrev pub capture_after : Bool → ℕ
capture_after stopped =
    if stopped then capture_code TaskCaptureState.stopped else capture_code TaskCaptureState.unknown

abbrev pub target_after : Bool → ℕ
target_after running =
    if running
    then owned_target_code TaskOwnedTargetState.running
    else owned_target_code TaskOwnedTargetState.not_started

-- `error.or(other)`.
abbrev pub or_code : Option String → Option String → Option String
or_code none other = other
or_code (some error) other = some error

-- What each operation changes of the attempt besides the outcome.
abbrev pub started_target : Option TargetBinding → AttemptState → AttemptState
started_target (some binding) a = record a {
  owned_target = some binding;
  owned_target_state = owned_target_code TaskOwnedTargetState.running;
  attempt_state = attempt_code TaskAttemptState.target_ready;
}
started_target none a = record a {
  owned_target = none;
  owned_target_state = owned_target_code TaskOwnedTargetState.not_started;
}

abbrev pub captured : Bool → Option String → AttemptState → AttemptState
captured true none a = record a {
  capture_state = capture_code TaskCaptureState.running;
  attempt_state = attempt_code TaskAttemptState.active;
}
captured false none a = record a { capture_state = capture_code TaskCaptureState.stopped }
captured running (some error) a = a

abbrev pub captured_frame : Option String → AttemptState → AttemptState
captured_frame none a = record a {
  attempt_state = attempt_code TaskAttemptState.active;
  capture_state = capture_code TaskCaptureState.stopped;
}
captured_frame (some error) a = a

abbrev pub leased : Option String → AttemptState → AttemptState
leased error_code a = record a {
  input_state =
      if is_none error_code
      then input_code TaskInputState.active
      else input_code TaskInputState.released;
}

abbrev input_of_frame : TaskCommandOutcomeState → Bool → ℕ
input_of_frame TaskCommandOutcomeState.applied true = input_code TaskInputState.active
input_of_frame TaskCommandOutcomeState.uncertain holds_active = input_code TaskInputState.unknown
input_of_frame _ holds_active = input_code TaskInputState.released

abbrev pub framed : TaskCommandOutcomeState → Bool → AttemptState → AttemptState
framed outcome holds_active a = record a { input_state = input_of_frame outcome holds_active }

abbrev pub released_input : Bool → AttemptState → AttemptState
released_input released a = record a { input_state = input_after released }

abbrev pub finished :
    (input_released capture_stopped managed_target_running cleanup_complete : Bool)
    → AttemptState
    → AttemptState
finished input_released capture_stopped managed_target_running cleanup_complete a = record a {
  attempt_state = attempt_code TaskAttemptState.terminal;
  input_state = input_after input_released;
  capture_state = capture_after capture_stopped;
  owned_target_state = target_after managed_target_running;
  cleanup_complete = cleanup_complete;
  owned_target = none;
}

-- The error that a finish reports by itself.
abbrev pub finish_error : (side_effect_resolved cleanup_complete : Bool) → Option String
finish_error false cleanup_complete = some "side_effect_uncertain"
finish_error true false = some "cleanup_incomplete"
finish_error true true = none

module _ {W : Type 0} (sha256 : Bytes → Bytes) (io : Ledger W) where
  unfoldable pub complete_taken :
      TaskCommandRef
      → CommandRef
      → TaskCommandOutcomeState
      → Option ℕ
      → Option String
      → (side_effect : Bool) → (AttemptState → AttemptState)
      → Option AttemptState
      → Method W TaskCommandResult
  unfolding require_same_command store_current_result persist command_result
  complete_taken task command outcome source error_code side_effect update none =
      fail attempt_not_found
  complete_taken task command outcome source error_code side_effect update (some a) = do
    or_restore a (lift (require_same_command a command.command_id task.payload_digest))
    let changed = update (with_outcome outcome source error_code side_effect a)
    stored ← or_restore changed (lift (store_current_result changed))
    persist_or_restore io stored
    answer ← lift (command_result stored)
    put_active stored
    return answer

  unfoldable pub complete :
      TaskCommandRef
      → TaskCommandOutcomeState
      → Option ℕ
      → Option String
      → (side_effect : Bool) → (AttemptState → AttemptState)
      → Method W TaskCommandResult
  unfolding validate_task complete_taken
  complete task outcome source error_code side_effect update = do
    (reference, command) ← lift (validate_task task)
    active ← take_active
    complete_taken task command outcome source error_code side_effect update active

  unfoldable pub complete_target_start :
      TaskCommandRef → Option TargetBinding → Option String → Method W TaskCommandResult
  unfolding complete
  complete_target_start task binding error_code =
      complete task (applied_or TaskCommandOutcomeState.not_applied (is_some binding)) none
        error_code true (started_target binding)

  unfoldable pub complete_capture :
      TaskCommandRef → (running : Bool) → Option String → Method W TaskCommandResult
  unfolding complete
  complete_capture task running error_code =
      complete task (applied_or TaskCommandOutcomeState.not_applied (is_none error_code)) none
        error_code false (captured running error_code)

  unfoldable pub complete_capture_frame :
      TaskCommandRef → Option ℕ → Option String → Method W TaskCommandResult
  unfolding complete
  complete_capture_frame task source error_code =
      complete task (applied_or TaskCommandOutcomeState.not_applied (is_none error_code)) source
        error_code false (captured_frame error_code)

  unfoldable pub complete_input_lease : TaskCommandRef → Option String → Method W TaskCommandResult
  unfolding complete
  complete_input_lease task error_code =
      complete task (applied_or TaskCommandOutcomeState.not_applied (is_none error_code)) none
        error_code false (leased error_code)

  unfoldable pub complete_pulse :
      TaskCommandRef → ℕ → (applied : Bool) → Option String → Method W TaskCommandResult
  unfolding complete
  complete_pulse task source applied error_code =
      complete task (applied_or TaskCommandOutcomeState.uncertain applied) (some source) error_code
        true (λ a. a)

  unfoldable pub complete_input_frame :
      TaskCommandRef
      → Option ℕ
      → TaskCommandOutcomeState
      → (holds_active : Bool) → Option String
      → Method W TaskCommandResult
  unfolding complete
  complete_input_frame task source outcome holds_active error_code =
      complete task outcome source error_code true (framed outcome holds_active)

  unfoldable pub complete_release :
      TaskCommandRef → Option String → (released : Bool) → Method W TaskCommandResult
  unfolding complete
  complete_release task error_code released =
      complete task (applied_or TaskCommandOutcomeState.not_applied (is_none error_code)) none
        error_code false (released_input released)

  abbrev pub finish_with :
      TaskCommandRef
      → (input_released capture_stopped managed_target_running side_effect_resolved : Bool)
      → Option String
      → Method W TaskCommandResult
  finish_with task input_released capture_stopped managed_target_running side_effect_resolved
        error_code =
      let cleanup_complete = input_released && (capture_stopped && side_effect_resolved) in
      complete task (applied_or TaskCommandOutcomeState.uncertain cleanup_complete) none
        (or_code error_code (finish_error side_effect_resolved cleanup_complete)) false
        (finished input_released capture_stopped managed_target_running cleanup_complete)

  unfoldable pub complete_finish :
      TaskCommandRef
      → (input_released capture_stopped managed_target_running : Bool) → Option String
      → Method W TaskCommandResult
  unfolding complete require_active
  complete_finish task input_released capture_stopped managed_target_running error_code = do
    a ← require_active sha256 io task
    finish_with task input_released capture_stopped managed_target_running
        (not (effect_unresolved a.side_effect_state)) error_code
