-- ===== src/Core/Supervisor.antt =====
-- crates/fairypam-agent-core/src/supervisor.rs: the sessions with the hub, and the cleanup behind
-- them. `SupervisorHooks` is a trait: `Hooks` says of each call, by those before it, whether it fails.
-- The log holds the calls of the hooks and of the cancellation tokens, newest first. The futures of
-- the driver are their outcomes in the order in which the loop sees them.
pub mod Cleanup
use fairypam_rust_agent.Base.{
  ℕ, suc, zero, Bool, true, false, Option, none, some, List, [], ◌∷◌, ◌++◌, is_empty, if◌then◌else◌,
}
use fairypam_rust_agent.Base.Result.{Result, ok, err}
use fairypam_rust_agent.Core.Error.{AgentError}
use fairypam_rust_agent.Transport.Backoff.{CappedBackoff, next_delay, reset, Floats}

pub data Hook : Type 0 where
  close_input_gate guardian_release_all cancel_token cancel_all_tasks join_all_tasks : Hook
  record_control_failure : AgentError → Hook
  clear_target_session renew_tokens : Hook
  cancel_frame_token cancel_frame_pipeline join_frame_pipeline renew_frame_token : Hook
  sleeps : (delay : ℕ) → Hook

abbrev pub Hooks : Type 0
Hooks = List Hook → Hook → Bool

pub record SessionSupervisor (R : Type 0) : Type 0 where
  pub log : List Hook
  pub backoff : CappedBackoff R
  pub frame_backoff : CappedBackoff R

pub record SessionEnd : Type 0 where
  pub error : AgentError
  pub reconnect_delay : ℕ

-- What the driver's futures come to: whether the session is established, how often the frame session
-- ends before the control session, and how that ends.
pub record Session : Type 0 where
  pub established : Option AgentError
  pub frame_ends : ℕ
  pub control : Option AgentError

abbrev pub cleanup_error : AgentError
cleanup_error = record { code = "supervisor.cleanup_failed" }

abbrev control_ended : AgentError
control_ended = record { code = "supervisor.control_ended" }

abbrev pub failed : Bool → Hook → List Hook
failed true hook = hook ∷ []
failed false hook = []

module _ {R F : Type 0} (floats : Floats R F) (hooks : Hooks) where
  abbrev did : Hook → SessionSupervisor R → SessionSupervisor R
  did hook s = record s { log = hook ∷ s.log }

  abbrev fails : Hook → SessionSupervisor R → List Hook
  fails hook s = failed (hooks s.log hook) hook

  unfoldable pub begin_control_failure : SessionSupervisor R → List Hook × SessionSupervisor R
  begin_control_failure s =
      let s1 = did close_input_gate s in
      let s2 = did guardian_release_all s1 in
      (
        fails close_input_gate s ++ fails guardian_release_all s1,
        did cancel_all_tasks (did cancel_token s2),
      )

  unfoldable pub finish_control_failure :
      List Hook → SessionSupervisor R → Result AgentError ℕ × SessionSupervisor R
  unfolding next_delay
  finish_control_failure errors s =
      let s1 = did renew_tokens (did clear_target_session (did join_all_tasks s)) in
      if is_empty (errors ++ fails join_all_tasks s)
      then (
        ok (next_delay floats s1.backoff).0,
        record s1 { backoff = (next_delay floats s1.backoff).1 },
      )
      else (err cleanup_error, s1)

  unfoldable pub handle_control_failure :
      SessionSupervisor R → Result AgentError ℕ × SessionSupervisor R
  unfolding begin_control_failure finish_control_failure
  handle_control_failure s =
      let (errors, s') = begin_control_failure s in finish_control_failure errors s'

  unfoldable pub handle_frame_failure :
      SessionSupervisor R → Result AgentError (Unit {0}) × SessionSupervisor R
  handle_frame_failure s =
      let s1 = did cancel_frame_pipeline (did cancel_frame_token s) in
      let s2 = did renew_frame_token (did join_frame_pipeline s1) in
      if hooks s1.log join_frame_pipeline then (err cleanup_error, s2) else (ok tt, s2)

  unfoldable pub session_established : SessionSupervisor R → SessionSupervisor R
  unfolding reset
  session_established s = record s {
    backoff = reset floats s.backoff;
    frame_backoff = reset floats s.frame_backoff;
  }

  abbrev pub ended :
      AgentError
      → Result AgentError ℕ × SessionSupervisor R
      → Result AgentError SessionEnd × SessionSupervisor R
  ended error (ok delay, s) = (ok (record { error = error; reconnect_delay = delay }), s)
  ended error (err e, s) = (err e, s)

  -- The cleanup behind a session that ended with an error.
  unfoldable pub end_session :
      AgentError → SessionSupervisor R → Result AgentError SessionEnd × SessionSupervisor R
  unfolding begin_control_failure finish_control_failure
  end_session error s =
      let (errors, s1) = begin_control_failure s in
      ended error (finish_control_failure errors (did (record_control_failure error) s1))

  abbrev pub after_frame :
      (SessionSupervisor R → Result AgentError (Unit {0}) × SessionSupervisor R)
      → Result AgentError (Unit {0}) × SessionSupervisor R
      → Result AgentError (Unit {0}) × SessionSupervisor R
  after_frame next (ok _, s) =
      let (delay, frame_backoff) = next_delay floats s.frame_backoff in
      next (did (sleeps delay) (record s { frame_backoff = frame_backoff }))
  after_frame next (err e, s) = (err e, s)

  unfoldable pub run_frames :
      ℕ → SessionSupervisor R → Result AgentError (Unit {0}) × SessionSupervisor R
  unfolding handle_frame_failure next_delay
  run_frames zero s = (ok tt, s)
  run_frames (suc n) s = after_frame (run_frames n) (handle_frame_failure s)

  abbrev pub control_error : Option AgentError → AgentError
  control_error none = control_ended
  control_error (some error) = error

  abbrev pub after_frames :
      AgentError
      → Result AgentError (Unit {0}) × SessionSupervisor R
      → Result AgentError SessionEnd × SessionSupervisor R
  after_frames error (ok _, s) = end_session error s
  after_frames error (err e, s) = (err e, s)

  unfoldable pub run_one_session :
      Session → SessionSupervisor R → Result AgentError SessionEnd × SessionSupervisor R
  unfolding end_session session_established run_frames
  run_one_session session s = elim session.established [
    | some error ↦ end_session error s
    | none ↦
        after_frames (control_error session.control)
          (run_frames session.frame_ends (session_established s))
  ]
