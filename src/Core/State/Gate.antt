-- ===== src/Core/State/Gate.antt =====
-- crates/fairypam-agent-core/src/state.rs: the input gate follows the state.
use fairypam_rust_agent.Base.{Bool, true, false, List, [], ◌∷◌, ◌++◌, ◌≡◌, ◌≢◌, refl, ◌∙◌, arith}
use fairypam_rust_agent.Base.Result.{ok}
use fairypam_rust_agent.Core.Profile.{External}
use fairypam_rust_agent.Core.State.{
  Effect, Machine, controlling, failed_safe, release_all, control_disconnected, fail_safe,
}
use fairypam_rust_agent.Core.State.Ops.{
  start_completed, control_connected, activate_profile, lock_target, on_preflight_passed,
  enter_dry_run, request_arm, begin_control, renew_control_authorization, apply,
}
use fairypam_rust_agent.Core.State.Run.{
  Call, started, connected, activates, locks, preflights, dry_runs, arms, begins, renews, happens,
  step, run, effects_of, gate_after, is_controlling,
}

step-gate :
    (x : External) (c : Call) (m : Machine)
    → gate_after (effects_of (step x c m).0) (is_controlling m.current)
      ≡ is_controlling (step x c m).1.current
unfolding step
step-gate x started m = unfold start_completed in ground arith
step-gate x (connected session) m = unfold control_connected in ground arith
step-gate x (activates profile) m = unfold activate_profile in ground arith
step-gate x (locks binding) m = unfold lock_target in ground arith
step-gate x (preflights snapshot) m = unfold on_preflight_passed in ground arith
step-gate x dry_runs m = unfold enter_dry_run in ground arith
step-gate x (arms authorization now requested) m = unfold request_arm in ground arith
step-gate x (begins now) m = unfold begin_control in ground arith
step-gate x (renews authorization now requested) m =
    unfold renew_control_authorization in ground arith
step-gate x (happens control_disconnected) m = unfold apply in ground arith
step-gate x (happens event) m = unfold apply in ground arith

gate_after-append :
    (xs ys : List Effect) (g : Bool) → gate_after (xs ++ ys) g ≡ gate_after ys (gate_after xs g)
gate_after-append [] ys g = refl
gate_after-append (Effect.open_input_gate ∷ xs) ys g = gate_after-append xs ys true
gate_after-append (Effect.close_input_gate ∷ xs) ys g = gate_after-append xs ys false
gate_after-append (Effect.release_all ∷ xs) ys g = gate_after-append xs ys g

-- After any sequence of calls, accepted or refused, the input gate that the effects leave is open
-- exactly when the machine is in `controlling`, if it was so before.
pub gate_after-run :
    (x : External) (calls : List Call) (m : Machine)
    → gate_after (run x calls m).0 (is_controlling m.current)
      ≡ is_controlling (run x calls m).1.current
unfolding run
gate_after-run x [] m = refl
gate_after-run x (c ∷ calls) m =
    gate_after-append (effects_of (step x c m).0) _ _
    ∙ (rw (step-gate x c m) (gate_after-run x calls (step x c m).1))

-- A call that ends `controlling` orders the gate closed and all input released, in that order.
pub leave_controlling :
    (x : External) (c : Call) (m : Machine)
    → m.current ≡ controlling
    → (step x c m).1.current ≢ controlling
    → (step x c m).0 ≡ ok (Effect.close_input_gate ∷ release_all ∷ [])
unfolding step
leave_controlling x started m h k = unfold start_completed in ground arith
leave_controlling x (connected session) m h k = unfold control_connected in ground arith
leave_controlling x (activates profile) m h k = unfold activate_profile in ground arith
leave_controlling x (locks binding) m h k = unfold lock_target in ground arith
leave_controlling x (preflights snapshot) m h k = unfold on_preflight_passed in ground arith
leave_controlling x dry_runs m h k = unfold enter_dry_run in ground arith
leave_controlling x (arms authorization now requested) m h k = unfold request_arm in ground arith
leave_controlling x (begins now) m h k = unfold begin_control in ground arith
leave_controlling x (renews authorization now requested) m h k =
    unfold renew_control_authorization in ground arith
leave_controlling x (happens event) m h k = unfold apply in ground arith

step-failed_safe :
    (x : External) (c : Call) (m : Machine)
    → m.current ≡ failed_safe
    → (step x c m).1.current ≡ failed_safe
unfolding step
step-failed_safe x started m h = unfold start_completed in ground arith
step-failed_safe x (connected session) m h = unfold control_connected in ground arith
step-failed_safe x (activates profile) m h = unfold activate_profile in ground arith
step-failed_safe x (locks binding) m h = unfold lock_target in ground arith
step-failed_safe x (preflights snapshot) m h = unfold on_preflight_passed in ground arith
step-failed_safe x dry_runs m h = unfold enter_dry_run in ground arith
step-failed_safe x (arms authorization now requested) m h = unfold request_arm in ground arith
step-failed_safe x (begins now) m h = unfold begin_control in ground arith
step-failed_safe x (renews authorization now requested) m h =
    unfold renew_control_authorization in ground arith
step-failed_safe x (happens event) m h = unfold apply in ground arith

run-failed_safe :
    (x : External) (calls : List Call) (m : Machine)
    → m.current ≡ failed_safe
    → (run x calls m).1.current ≡ failed_safe
unfolding run
run-failed_safe x [] m h = h
run-failed_safe x (c ∷ calls) m h =
    run-failed_safe x calls (step x c m).1 (step-failed_safe x c m h)

-- A fail-safe event is final: whatever calls follow it, the machine stays in `failed_safe`.
pub run-fail_safe :
    (x : External) (calls : List Call) (m : Machine)
    → (run x (happens fail_safe ∷ calls) m).1.current ≡ failed_safe
unfolding run
run-fail_safe x calls m =
    run-failed_safe x calls (step x (happens fail_safe) m).1 (unfold step apply in refl)
