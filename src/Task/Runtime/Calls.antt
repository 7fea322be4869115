-- ===== src/Task/Runtime/Calls.antt =====
-- bins/fairypam-agent/src/task_attempt.rs: the public methods of a runtime that has an attempt, as
-- calls that are made one after another.
use fairypam_rust_agent.Base.{ℕ, Bool, true, false, Option, List, [], ◌∷◌, String, Bytes}
use fairypam_rust_agent.Core.Target.{TargetBinding}
use fairypam_rust_agent.Task.Wire.{TaskCommandRef, AttemptRef, TaskCommandOutcomeState}
use fairypam_rust_agent.Task.Runtime.{Ledger, TaskAttemptRuntime}
use fairypam_rust_agent.Task.Runtime.Known.{payload_digest_conflict}
use fairypam_rust_agent.Task.Runtime.Prepare.{prepare, prepare_recovery, prepare_finish}
use fairypam_rust_agent.Task.Runtime.Replay.{reject, replay}
use fairypam_rust_agent.Task.Runtime.Inspect.{inspect}
use fairypam_rust_agent.Task.Runtime.Begin.{refresh_owned_target, is_active}
use fairypam_rust_agent.Task.Runtime.Complete.{
  complete_target_start, complete_capture, complete_capture_frame, complete_input_lease,
  complete_pulse, complete_input_frame, complete_release, complete_finish,
}
use fairypam_rust_agent.Task.Runtime.Safety.{
  emergency_finish, mark_active_side_effect_uncertain, mark_input_released, active_contract_expired,
}

pub data Call : Type 0 where
  prepares : (now : ℕ) → TaskCommandRef → (side_effect : Bool) → Call
  prepares_recovery prepares_finish replays : (now : ℕ) → TaskCommandRef → Call
  rejects : TaskCommandRef → (error_code : String) → Call
  conflicts inspects : TaskCommandRef → Call
  starts_target : TaskCommandRef → Option TargetBinding → Option String → Call
  captures : TaskCommandRef → (running : Bool) → Option String → Call
  captures_frame : TaskCommandRef → Option ℕ → Option String → Call
  leases : TaskCommandRef → Option String → Call
  pulses : TaskCommandRef → ℕ → (applied : Bool) → Option String → Call
  frames :
      TaskCommandRef
      → Option ℕ
      → TaskCommandOutcomeState
      → (holds_active : Bool) → Option String
      → Call
  releases : TaskCommandRef → Option String → (released : Bool) → Call
  finishes : TaskCommandRef → (released stopped running : Bool) → Option String → Call
  ends_early : (released stopped running : Bool) → Option String → Call
  doubts : (error_code : String) (released : Bool) → Call
  lets_go : (error_code : String) → Call
  refreshes : AttemptRef → TargetBinding → Call
  asks_active : Call
  asks_expired : (now : ℕ) → Call

-- An input frame is told an outcome.
abbrev pub is_told : Call → Bool
is_told (frames task source TaskCommandOutcomeState.unspecified holds_active error_code) = false
is_told _ = true

module _ {W : Type 0} (sha256 : Bytes → Bytes) (io : Ledger W) where
  unfoldable pub step : Call → TaskAttemptRuntime W → TaskAttemptRuntime W
  step (prepares now task side_effect) s = (prepare sha256 io now task side_effect s).1
  step (prepares_recovery now task) s = (prepare_recovery sha256 io now task s).1
  step (prepares_finish now task) s = (prepare_finish sha256 io now task s).1
  step (replays now task) s = (replay sha256 io now task s).1
  step (rejects task error_code) s = (reject sha256 io task error_code s).1
  step (conflicts task) s = (payload_digest_conflict sha256 io task s).1
  step (inspects task) s = (inspect sha256 io task s).1
  step (starts_target task binding error_code) s =
      (complete_target_start sha256 io task binding error_code s).1
  step (captures task running error_code) s =
      (complete_capture sha256 io task running error_code s).1
  step (captures_frame task source error_code) s =
      (complete_capture_frame sha256 io task source error_code s).1
  step (leases task error_code) s = (complete_input_lease sha256 io task error_code s).1
  step (pulses task source applied error_code) s =
      (complete_pulse sha256 io task source applied error_code s).1
  step (frames task source outcome holds_active error_code) s =
      (complete_input_frame sha256 io task source outcome holds_active error_code s).1
  step (releases task error_code released) s =
      (complete_release sha256 io task error_code released s).1
  step (finishes task released stopped running error_code) s =
      (complete_finish sha256 io task released stopped running error_code s).1
  step (ends_early released stopped running error_code) s =
      (emergency_finish sha256 io released stopped running error_code s).1
  step (doubts error_code released) s =
      (mark_active_side_effect_uncertain sha256 io error_code released s).1
  step (lets_go error_code) s = (mark_input_released sha256 io error_code s).1
  step (refreshes reference binding) s = (refresh_owned_target sha256 io reference binding s).1
  step asks_active s = (is_active sha256 io s).1
  step (asks_expired now) s = (active_contract_expired sha256 io now s).1

  unfoldable pub run : List Call → TaskAttemptRuntime W → TaskAttemptRuntime W
  unfolding step
  run [] s = s
  run (c ∷ calls) s = run calls (step c s)
