-- ===== src/Task/Held/Run.antt =====
-- bins/fairypam-agent/src/task_attempt.rs: the active attempt through any calls.
use fairypam_rust_agent.Base.{
  Bool, true, false, ◌≡◌, refl, not, ◌&&◌, Option, none, some, List, [], ◌∷◌, Bytes, all, arith,
  String,
}
use fairypam_rust_agent.Core.Target.{TargetBinding}
use fairypam_rust_agent.Core.State.{is_some}
use fairypam_rust_agent.Task.Wire.{TaskCommandOutcomeState, outcome_code}
use fairypam_rust_agent.Task.Data.{AttemptState}
use fairypam_rust_agent.Task.State.{effect_unresolved, is_specified_outcome}
use fairypam_rust_agent.Task.Runtime.{Ledger, TaskAttemptRuntime}
use fairypam_rust_agent.Task.Runtime.Load.{Journal}
use fairypam_rust_agent.Task.Runtime.Complete.{
  finish_with, started_target, captured, captured_frame, leased, framed, released_input, finished,
  applied_or, complete_target_start, complete_capture, complete_capture_frame, complete_input_lease,
  complete_pulse, complete_input_frame, complete_release, complete_finish,
}
use fairypam_rust_agent.Task.Runtime.Begin.{require_active}
use fairypam_rust_agent.Task.Runtime.Prepare.{prepare_recovery, prepare_finish}
use fairypam_rust_agent.Task.Runtime.Calls.{
  Call, is_told, step, run, prepares, prepares_recovery, prepares_finish, replays, rejects,
  conflicts, inspects, starts_target, captures, captures_frame, leases, pulses, frames, releases,
  finishes, ends_early, doubts, lets_go, refreshes, asks_active, asks_expired,
}
use fairypam_rust_agent.Task.Held.{Held, IsStable, resume-Gives}
use fairypam_rust_agent.Task.Held.Prepare.{prepare_inner-Gives, payload_digest_conflict-Gives}
use fairypam_rust_agent.Task.Held.Replay.{prepare-Gives, reject-Gives, replay-Gives}
use fairypam_rust_agent.Task.Held.Complete.{IsLocal, complete-Gives}
use fairypam_rust_agent.Task.Held.Mark.{
  inspect-Gives, emergency_finish-Gives, mark_active_side_effect_uncertain-Gives,
  mark_input_released-Gives, refresh_owned_target-Gives, require_active-Gives, is_active-Gives,
  active_contract_expired-Gives,
}

started_target-IsLocal : (binding : Option TargetBinding) → IsLocal (started_target binding)
started_target-IsLocal none a = (refl, refl, refl, refl)
started_target-IsLocal (some b) a = (refl, refl, refl, refl)

captured-IsLocal : (running : Bool) (code : Option String) → IsLocal (captured running code)
captured-IsLocal true none a = (refl, refl, refl, refl)
captured-IsLocal false none a = (refl, refl, refl, refl)
captured-IsLocal true (some e) a = (refl, refl, refl, refl)
captured-IsLocal false (some e) a = (refl, refl, refl, refl)

captured_frame-IsLocal : (code : Option String) → IsLocal (captured_frame code)
captured_frame-IsLocal none a = (refl, refl, refl, refl)
captured_frame-IsLocal (some e) a = (refl, refl, refl, refl)

told :
    (other : TaskCommandOutcomeState) (b : Bool)
    → is_specified_outcome (outcome_code other) ≡ true
    → is_specified_outcome (outcome_code (applied_or other b)) ≡ true
told other true h = refl
told other false h = h

module _ (J : Journal → Type 0) (stable : IsStable J) {W : Type 0} (sha256 : Bytes → Bytes)
    (io : Ledger W) where
  step-Held :
      (c : Call) (s : TaskAttemptRuntime W)
      → is_told c ≡ true
      → Held J s
      → Held J (step sha256 io c s)
  unfolding step prepare_recovery prepare_finish complete_target_start complete_capture
      complete_capture_frame complete_input_lease complete_pulse complete_input_frame
      complete_release complete_finish
  step-Held (prepares now task side_effect) s h v =
      prepare-Gives J stable sha256 io now task side_effect s v
  step-Held (prepares_recovery now task) s h v =
      prepare_inner-Gives J sha256 io stable now task false true _ s v
  step-Held (prepares_finish now task) s h v =
      prepare_inner-Gives J sha256 io stable now task false true _ s v
  step-Held (replays now task) s h v = replay-Gives J stable sha256 io now task s v
  step-Held (rejects task code) s h v = reject-Gives J stable sha256 io task code s v
  step-Held (conflicts task) s h v = payload_digest_conflict-Gives J sha256 io task s v
  step-Held (inspects task) s h v = inspect-Gives J sha256 io stable task s v
  step-Held (starts_target task binding code) s h v =
      complete-Gives J stable sha256 io task _ none code true (started_target binding) s
        (started_target-IsLocal binding)
        (told TaskCommandOutcomeState.not_applied (is_some binding) refl) v
  step-Held (captures task running code) s h v =
      complete-Gives J stable sha256 io task _ none code false (captured running code) s
        (captured-IsLocal running code)
        (told TaskCommandOutcomeState.not_applied (not (is_some code)) refl) v
  step-Held (captures_frame task source code) s h v =
      complete-Gives J stable sha256 io task _ source code false (captured_frame code) s
        (captured_frame-IsLocal code)
        (told TaskCommandOutcomeState.not_applied (not (is_some code)) refl) v
  step-Held (leases task code) s h v =
      complete-Gives J stable sha256 io task _ none code false (leased code) s
        (λ a. (refl, refl, refl, refl))
        (told TaskCommandOutcomeState.not_applied (not (is_some code)) refl) v
  step-Held (pulses task source applied code) s h v =
      complete-Gives J stable sha256 io task _ (some source) code true (λ a. a) s
        (λ a. (refl, refl, refl, refl)) (told TaskCommandOutcomeState.uncertain applied refl) v
  step-Held (frames task source outcome holds code) s h v =
      complete-Gives J stable sha256 io task outcome source code true (framed outcome holds) s
        (λ a. (refl, refl, refl, refl)) (ground (arith, h)) v
  step-Held (releases task code released) s h v =
      complete-Gives J stable sha256 io task _ none code false (released_input released) s
        (λ a. (refl, refl, refl, refl))
        (told TaskCommandOutcomeState.not_applied (not (is_some code)) refl) v
  step-Held (finishes task released stopped running code) s h v =
      resume-Gives J (require_active sha256 io task s)
        (λ (a : AttemptState).
          finish_with sha256 io task released stopped running
            (not (effect_unresolved a.side_effect_state)) code)
        (require_active-Gives J sha256 io task s v)
        (λ a s' v'.
          complete-Gives J stable sha256 io task _ none _ false
            (finished released stopped running
              (released && (stopped && not (effect_unresolved a.side_effect_state))))
            s' (λ b. (refl, refl, refl, refl))
            (told TaskCommandOutcomeState.uncertain
              (released && (stopped && not (effect_unresolved a.side_effect_state))) refl)
            v')
  step-Held (ends_early released stopped running code) s h v =
      emergency_finish-Gives J sha256 io released stopped running code s v
  step-Held (doubts code released) s h v =
      mark_active_side_effect_uncertain-Gives J sha256 io code released s v
  step-Held (lets_go code) s h v = mark_input_released-Gives J sha256 io code s v
  step-Held (refreshes reference binding) s h v =
      refresh_owned_target-Gives J sha256 io reference binding s v
  step-Held asks_active s h v = is_active-Gives J sha256 io s v
  step-Held (asks_expired now) s h v = active_contract_expired-Gives J sha256 io now s v

  pub run-Held :
      (calls : List Call) (s : TaskAttemptRuntime W)
      → all is_told calls ≡ true
      → Held J s
      → Held J (run sha256 io calls s)
  unfolding run
  run-Held [] s h v = v
  run-Held (c ∷ calls) s h v =
      run-Held calls (step sha256 io c s) (ground (arith, h)) (step-Held c s (ground (arith, h)) v)
