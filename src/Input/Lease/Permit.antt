-- ===== src/Input/Lease/Permit.antt =====
-- crates/fairypam-agent-input/src/lease.rs: nothing is sent without a valid permit.
use fairypam_rust_agent.Base.{ℕ, false, ◌∷◌, ◌≡◌, ◌≢◌, ◌⊎◌, inl, inr, refl, arith, ap}
use fairypam_rust_agent.Input.Lease.Requests.{
  Request, leases, arms_guarded, renews_guarded, applies_guarded, pulses, moves, clicks, frames,
  perform,
}
use fairypam_rust_agent.Input.Lease.{
  Environment, LeaseExecutor, guardian_release_all, InputLease, emergency_release, Failure, fault,
  resume, recover, return, Method, BTreeSet, lift,
}
use fairypam_rust_agent.Input.Lease.Gate.{
  InputPermit, fail_closed, permit_is_valid_for, require_open_gate, require_guarded_gate,
}
use fairypam_rust_agent.Input.Lease.Apply.{
  apply_lease, lease_failure_reason, apply_lease_inner, admit,
}
use fairypam_rust_agent.Guardian.Protocol.{
  ReleaseReason, emergency_stop, guardian_failure, platform_failure,
}
use fairypam_rust_agent.Core.State.{SessionIdentity}
use fairypam_rust_agent.Input.Action.{SafetyError, safety_error}
use fairypam_rust_agent.Input.Action.Physical.{all_scan_codes, action_for_button}
use fairypam_rust_agent.Base.Result.{Result, ok, err}
use fairypam_rust_agent.Input.Lease.Guarded.{
  arm_guarded_physical_frame, arm_guarded_physical_frame_inner, renew_guarded_physical_frame,
  renew_guarded_inner, apply_guarded_physical_frame, apply_guarded_inner,
}
use fairypam_rust_agent.Input.Lease.Pulse.{
  execute_pulse, execute_pulse_inner, execute_relative_mouse, execute_relative_mouse_inner,
  execute_client_point, click_failure_reason, execute_client_point_inner,
}
use fairypam_rust_agent.Input.Lease.Closed.{check_frame-state, lift-state}
use fairypam_rust_agent.Input.Lease.Frame.{
  apply_physical_frame, PhysicalFrame, check_frame, send_frame,
}

abbrev pub session_of : Request → SessionIdentity
session_of (leases lease) = lease.session
session_of (arms_guarded session sequence expires_at keys) = session
session_of (renews_guarded session sequence expires_at) = session
session_of (applies_guarded session keys) = session
session_of (pulses action session) = session
session_of (moves action delta_x delta_y session) = session
session_of (clicks button x_ppm y_ppm session) = session
session_of (frames session sequence expires_at frame) = session

-- No call was made but those of one release of all input.
abbrev pub OnlyReleased : LeaseExecutor → LeaseExecutor → Type 0
OnlyReleased before after =
    (after.calls ≡ before.calls)
    ⊎ ((reason : ReleaseReason) × (after.calls
          ≡ guardian_release_all reason
            ∷ emergency_release (all_scan_codes before.actions)
            ∷ before.calls))

fail_closed-calls :
    (A : Type 0) (env : Environment) (reason : ReleaseReason) (e : SafetyError) (s : LeaseExecutor)
    → ((fail_closed env {A = A} reason e s).1.calls
        ≡ guardian_release_all reason ∷ emergency_release (all_scan_codes s.actions) ∷ s.calls)
unfolding fail_closed
fail_closed-calls A env reason e s = ground arith

-- A handler that closes, run on a refusal that made no call.
abbrev pub Refused : {A : Type 0} → LeaseExecutor → Result Failure A × LeaseExecutor → Type 0
Refused {A} before (result, after) = OnlyReleased before after × ((a : A) → result ≢ ok a)

then-Refused :
    {A B : Type 0} (s : LeaseExecutor) (r : Result Failure A × LeaseExecutor) (k : A → Method B)
    → Refused s r
    → Refused s (resume r k)
then-Refused s (ok a, t) k h = absurd (h.1 a refl)
then-Refused s (err e, t) k h = (h.0, λ b. cc)

after-Refused :
    {A B : Type 0} (s : LeaseExecutor) (r : Result Failure A × LeaseExecutor) (k : A → Method B)
    → r.1 ≡ s
    → ((a : A) → Refused s (k a s))
    → Refused s (resume r k)
after-Refused s (ok a, t) k e h = rw e (h a)
after-Refused s (err f, t) k e h = (inl (ap (λ (u : LeaseExecutor). u.calls) e), λ b. cc)

fail_closed-Refused :
    (env : Environment) (reason : ReleaseReason) (e : SafetyError) (s : LeaseExecutor)
    → Refused {A = Unit {0}} s (fail_closed env {A = Unit {0}} reason e s)
unfolding fail_closed
fail_closed-Refused env reason e s = (inr (reason, ground arith), λ a. ground arith)

recover-Refused :
    (env : Environment) (reason : SafetyError → ReleaseReason) (e : SafetyError) (s : LeaseExecutor)
    (r : Result Failure (Unit {0}) × LeaseExecutor)
    → r ≡ (err (fault e), s)
    → Refused s (recover (λ f. fail_closed env (reason f) f) r)
recover-Refused env reason e s r h = rw h (fail_closed-Refused env (reason e) e s)

module _ (env : Environment) (permit : InputPermit) (now : ℕ) where
  open_gate-Refused :
      (session : SessionIdentity) (s : LeaseExecutor)
      → permit_is_valid_for permit now session ≡ false
      → require_open_gate session permit now s ≡ (err (fault (safety_error "input.gate_closed")), s)
  unfolding require_open_gate
  open_gate-Refused session s h = ground arith

  guarded_gate-Refused :
      (session : SessionIdentity) (s : LeaseExecutor)
      → permit_is_valid_for permit now session ≡ false
      → require_guarded_gate session permit now s
        ≡ (err (fault (safety_error "input.gate_closed")), s)
  unfolding require_guarded_gate
  guarded_gate-Refused session s h = ground arith

  apply_lease-Refused :
      (lease : InputLease) (s : LeaseExecutor)
      → permit_is_valid_for permit now lease.session ≡ false
      → Refused s (apply_lease env lease permit now s)
  unfolding apply_lease
  apply_lease-Refused lease s h =
      recover-Refused env lease_failure_reason (safety_error "input.permit_invalid") s
        (apply_lease_inner env lease permit now s) (rw (h, apply_lease_inner, admit))

  frame-Refused :
      (session : SessionIdentity) (sequence expires_at : ℕ) (frame : PhysicalFrame)
      (s : LeaseExecutor)
      → permit_is_valid_for permit now session ≡ false
      → Refused s (
          resume
            (apply_physical_frame env session sequence expires_at frame permit now s)
            (λ _. return tt))
  unfolding apply_physical_frame
  frame-Refused session sequence expires_at frame s h =
      then-Refused s (apply_physical_frame env session sequence expires_at frame permit now s) _ (
        after-Refused s (check_frame frame s) _ (check_frame-state frame s) λ found.
          then-Refused s (send_frame env (lease found) frame found.1 permit now s) _ (
            unfold send_frame in
            then-Refused s (apply_lease env (lease found) permit now s) _
              (apply_lease-Refused (lease found) s h)))
    where
      lease : BTreeSet × BTreeSet → InputLease
      lease found = record {
        session = session;
        sequence = sequence;
        expires_at = expires_at;
        desired_holds = found.0;
      }

  -- Without a permit that is valid for its session and time no request succeeds, and none makes a
  -- call of the platform or the Guardian but to release all input.
  pub perform-Refused :
      (request : Request) (s : LeaseExecutor)
      → permit_is_valid_for permit now (session_of request) ≡ false
      → Refused s (perform env request permit now s)
  unfolding perform
  perform-Refused (leases lease) s h = apply_lease-Refused lease s h
  perform-Refused (arms_guarded session sequence expires_at keys) s h =
      unfold arm_guarded_physical_frame in
      recover-Refused env (λ _. emergency_stop) (safety_error "input.permit_invalid") s
        (arm_guarded_physical_frame_inner env session sequence expires_at keys permit now s)
        (rw (h, arm_guarded_physical_frame_inner))
  perform-Refused (renews_guarded session sequence expires_at) s h =
      unfold renew_guarded_physical_frame in
      recover-Refused env (λ _. guardian_failure) (safety_error "input.gate_closed") s
        (renew_guarded_inner env session sequence expires_at permit now s)
        (unfold renew_guarded_inner in rw (guarded_gate-Refused session s h))
  perform-Refused (applies_guarded session keys) s h =
      unfold apply_guarded_physical_frame in
      recover-Refused env (λ _. platform_failure) (safety_error "input.gate_closed") s
        (apply_guarded_inner env session keys permit now s)
        (unfold apply_guarded_inner in rw (guarded_gate-Refused session s h))
  perform-Refused (pulses action session) s h =
      unfold execute_pulse in
      recover-Refused env (λ _. platform_failure) (safety_error "input.gate_closed") s
        (execute_pulse_inner env action session permit now s)
        (unfold execute_pulse_inner in rw (open_gate-Refused session s h))
  perform-Refused (moves action delta_x delta_y session) s h =
      unfold execute_relative_mouse in
      recover-Refused env (λ _. platform_failure) (safety_error "input.gate_closed") s
        (execute_relative_mouse_inner env action delta_x delta_y session permit now s)
        (unfold execute_relative_mouse_inner in rw (open_gate-Refused session s h))
  perform-Refused (clicks button x_ppm y_ppm session) s h =
      unfold execute_client_point in
      after-Refused s (lift (action_for_button s.actions button) s) _ (lift-state _ s) λ action.
        recover-Refused env click_failure_reason (safety_error "input.gate_closed") s
          (execute_client_point_inner env action x_ppm y_ppm session permit now s)
          (unfold execute_client_point_inner in rw (open_gate-Refused session s h))
  perform-Refused (frames session sequence expires_at frame) s h =
      frame-Refused session sequence expires_at frame s h
