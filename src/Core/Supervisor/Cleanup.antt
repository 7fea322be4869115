-- ===== src/Core/Supervisor/Cleanup.antt =====
-- crates/fairypam-agent-core/src/supervisor.rs: the order of the cleanup.
use fairypam_rust_agent.Base.{
  ℕ, suc, zero, true, Option, none, some, List, ◌∷◌, ◌≡◌, ◌⊎◌, inl, inr, refl, Bool-cases,
}
use fairypam_rust_agent.Base.Result.{Result, ok, err}
use fairypam_rust_agent.Core.Error.{AgentError}
use fairypam_rust_agent.Transport.Backoff.{Floats, next_delay}
use fairypam_rust_agent.Core.Supervisor.{
  Hook, Hooks, SessionSupervisor, SessionEnd, Session, close_input_gate, guardian_release_all,
  cancel_token, cancel_all_tasks, join_all_tasks, record_control_failure, clear_target_session,
  renew_tokens, join_frame_pipeline, cancel_frame_pipeline, cancel_frame_token, cleanup_error,
  begin_control_failure, finish_control_failure, handle_frame_failure, end_session, run_frames,
  after_frame, after_frames, control_error, run_one_session, session_established,
}

-- The log of the whole cleanup, over the log before it.
abbrev pub cleaned : AgentError → List Hook → List Hook
cleaned error log =
    renew_tokens
    ∷ clear_target_session
    ∷ join_all_tasks
    ∷ record_control_failure error
    ∷ cancel_all_tasks
    ∷ cancel_token
    ∷ guardian_release_all
    ∷ close_input_gate
    ∷ log

-- How a session ended: by a whole cleanup that did not fail, by a whole cleanup of which a hook
-- failed, or by a frame pipeline that could not be joined.
abbrev pub Ends : {R : Type 0} → Hooks → Result AgentError SessionEnd × SessionSupervisor R → Type 0
Ends hooks (ok end, s) = (log : List Hook) × (s.log ≡ cleaned end.error log)
Ends hooks (err e, s) =
    (e ≡ cleanup_error)
    × (((error : AgentError) × (log : List Hook) × (s.log ≡ cleaned error log)
          × (hook : Hook) × (past : List Hook) × (hooks past hook ≡ true))
        ⊎ ((past : List Hook) × (hooks past join_frame_pipeline ≡ true)))

-- An error of the frame's cleanup: the pipeline could not be joined.
abbrev pub Stuck : Hooks → Result AgentError (Unit {0}) → Type 0
Stuck hooks (ok _) = Unit {0}
Stuck hooks (err e) =
    (e ≡ cleanup_error) × ((past : List Hook) × (hooks past join_frame_pipeline ≡ true))

module _ {R F : Type 0} (floats : Floats R F) (hooks : Hooks) where
  end_session-Ends :
      (error : AgentError) (s : SessionSupervisor R) → Ends hooks (end_session floats hooks error s)
  unfolding end_session begin_control_failure finish_control_failure next_delay
  end_session-Ends error s =
      let unreleased = close_input_gate ∷ s.log in
      let unjoined =
        record_control_failure error
        ∷ cancel_all_tasks
        ∷ cancel_token
        ∷ guardian_release_all
        ∷ unreleased in
      elim (Bool-cases (hooks s.log close_input_gate)) [
        | inl e ↦ rw e (refl, inl (error, s.log, refl, close_input_gate, s.log, e))
        | inr e ↦ elim (Bool-cases (hooks unreleased guardian_release_all)) [
          | inl f ↦ rw (e, f) (refl, inl (error, s.log, refl, guardian_release_all, unreleased, f))
          | inr f ↦ elim (Bool-cases (hooks unjoined join_all_tasks)) [
            | inl g ↦ rw (e, f, g) (refl, inl (error, s.log, refl, join_all_tasks, unjoined, g))
            | inr g ↦ rw (e, f, g) (s.log, refl)
          ]
        ]
      ]

  frame_failure-Stuck :
      (s : SessionSupervisor R) → Stuck hooks (handle_frame_failure floats hooks s).0
  unfolding handle_frame_failure
  frame_failure-Stuck s =
      let past = cancel_frame_pipeline ∷ cancel_frame_token ∷ s.log in
      elim (Bool-cases (hooks past join_frame_pipeline)) [
        | inl e ↦ rw e (refl, (past, e))
        | inr e ↦ rw e tt
      ]

  after_frame-Stuck :
      (next : SessionSupervisor R → Result AgentError (Unit {0}) × SessionSupervisor R)
      (r : Result AgentError (Unit {0}) × SessionSupervisor R)
      → Stuck hooks r.0
      → ((t : SessionSupervisor R) → Stuck hooks (next t).0)
      → Stuck hooks (after_frame floats hooks next r).0
  after_frame-Stuck next (ok _, t) first later = later _
  after_frame-Stuck next (err f, t) first later = first

  run_frames-Stuck : (n : ℕ) (s : SessionSupervisor R) → Stuck hooks (run_frames floats hooks n s).0
  unfolding run_frames
  run_frames-Stuck zero s = tt
  run_frames-Stuck (suc n) s =
      after_frame-Stuck (run_frames floats hooks n) (handle_frame_failure floats hooks s)
        (frame_failure-Stuck s) (run_frames-Stuck n)

  after_frames-Ends :
      (error : AgentError) (r : Result AgentError (Unit {0}) × SessionSupervisor R)
      → Stuck hooks r.0
      → Ends hooks (after_frames floats hooks error r)
  after_frames-Ends error (ok _, t) stuck = end_session-Ends error t
  after_frames-Ends error (err f, t) (e, past) = (e, inr past)

  by_establishment :
      (control : Option AgentError) (n : ℕ) (o : Option AgentError) (s : SessionSupervisor R)
      → Ends {R = R} hooks (elim o [
        | some error ↦ end_session floats hooks error s
        | none ↦
            after_frames floats hooks
              (control_error floats hooks control)
              (run_frames floats hooks n (session_established floats hooks s))
      ])
  by_establishment control n (some error) s = end_session-Ends error s
  by_establishment control n none s =
      after_frames-Ends (control_error floats hooks control)
        (run_frames floats hooks n (session_established floats hooks s))
        (run_frames-Stuck n (session_established floats hooks s))

  -- A session that is over ended in one of the ways of `Ends`: without an error only after the gate
  -- was closed, the Guardian asked to release all, the tasks cancelled and joined and the target
  -- cleared, in that order and whatever the hooks answered before; with an error only if a hook of
  -- that same whole cleanup failed, or the frame pipeline could not be joined.
  pub run_one_session-Ends :
      (session : Session) (s : SessionSupervisor R)
      → Ends hooks (run_one_session floats hooks session s)
  unfolding run_one_session
  run_one_session-Ends session s =
      by_establishment session.control session.frame_ends session.established s
