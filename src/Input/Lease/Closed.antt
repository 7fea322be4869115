-- ===== src/Input/Lease/Closed.antt =====
-- crates/fairypam-agent-input/src/lease.rs: failure closes the gate.
pub mod Faults
use fairypam_rust_agent.Base.{
  ℕ, Bool, true, false, Option, none, some, [], ◌∷◌, ◌≡◌, refl, arith, inl, inr, sym, ◌∙◌, any, ◌⊎◌,
  if◌then◌else◌, String,
}
use fairypam_rust_agent.Base.Result.{Result, ok, err, ok_or}
use fairypam_rust_agent.Base.Int.{is_zero}
use fairypam_rust_agent.Base.Sets.{BTreeSet}
use fairypam_rust_agent.Core.State.{SessionIdentity, is_some}
use fairypam_rust_agent.Guardian.Protocol.{
  ActionId, platform_failure, emergency_stop, guardian_failure,
}
use fairypam_rust_agent.Input.Action.{
  SafetyError, SemanticMouseButton, ResolvedAction, ActionMap, client_point_click,
}
use fairypam_rust_agent.Input.Action.Physical.{
  physical_frame_actions, action_for_button, first_for_button, button_eq,
}
use fairypam_rust_agent.Input.Lease.{
  Environment, LeaseExecutor, Failure, Method, fault, call, InputLease, return, resume, lift,
  require, ◌>>◌,
}
use fairypam_rust_agent.Input.Lease.Gate.{InputPermit}
use fairypam_rust_agent.Input.Lease.Apply.{apply_lease, apply_lease_inner, lease_failure_reason}
use fairypam_rust_agent.Input.Lease.Guarded.{
  arm_guarded_physical_frame, renew_guarded_physical_frame, apply_guarded_physical_frame,
  arm_guarded_physical_frame_inner, renew_guarded_inner, apply_guarded_inner,
}
use fairypam_rust_agent.Input.Lease.Pulse.{
  execute_pulse, execute_pulse_inner, execute_relative_mouse, execute_client_point, expiry_or,
  execute_client_point_inner, click_failure_reason, execute_relative_mouse_inner,
}
use fairypam_rust_agent.Input.Lease.Frame.{
  PhysicalFrame, apply_physical_frame, pulse_is_alone, wheel_is_allowed, wheel_point_is_valid,
  or_panic, send_wheel, first_pulse, send_frame, check_frame, wheel_call,
}
use fairypam_rust_agent.Input.Lease.Shut.{IsShut, fail_closed-IsShut, recover-IsShut, resume-fault}
use fairypam_rust_agent.Input.Lease.Requests.{
  Request, leases, arms_guarded, renews_guarded, applies_guarded, pulses, moves, clicks, frames,
  perform,
}
use fairypam_rust_agent.Input.Lease.Closed.Faults.{
  allows_button, first_for_button-allows, ClickFault, FrameFault, Aftermath,
}

pub lift-state : {A : Type 0} (r : Result SafetyError A) (s : LeaseExecutor) → (lift r s).1 ≡ s
lift-state (ok a) s = refl
lift-state (err e) s = refl

require-state : (b : Bool) (code : String) (s : LeaseExecutor) → (require b code s).1 ≡ s
require-state true code s = refl
require-state false code s = refl

or_panic-state :
    {A : Type 0} (o : Option (Result SafetyError A)) (s : LeaseExecutor) → (or_panic o s).1 ≡ s
or_panic-state none s = refl
or_panic-state (some r) s = lift-state r s

resume-state :
    {A B : Type 0} (s : LeaseExecutor) (r : Result Failure A × LeaseExecutor) (k : A → Method B)
    → r.1 ≡ s
    → ((a : A) → (k a s).1 ≡ s)
    → (resume r k).1 ≡ s
resume-state s (ok a, t) k e h = rw e (h a)
resume-state s (err f, t) k e h = e

pub check_frame-state : (frame : PhysicalFrame) (s : LeaseExecutor) → (check_frame frame s).1 ≡ s
unfolding check_frame
check_frame-state frame s =
    resume-state s (or_panic (physical_frame_actions s.actions frame.keys frame.buttons) s) _
      (or_panic-state _ s)
      (λ found.
        rest (pulse_is_alone frame found.0 found.1) (λ t. wheel_is_allowed frame t.actions)
          (wheel_point_is_valid frame) found)
  where
    rest :
        (b : Bool) (c : LeaseExecutor → Bool) (d : Bool) (found : BTreeSet × BTreeSet)
        → ((require b "input.frame_invalid"
              >> ((λ t. require (c t) "input.wheel_not_allowed" t)
                  >> (require d "input.wheel_point_invalid" >> return found)))
            s).1
          ≡ s
    rest b c d found = ground arith

given-some :
    (o : Option ActionId) (e : SafetyError) (s : LeaseExecutor) {action : ActionId}
    → (lift (ok_or o e) s).0 ≡ ok action
    → is_some o ≡ true
given-some none e s h = absurd (cc)
given-some (some found) e s h = refl

refused-none :
    (o : Option ActionId) (e : SafetyError) (s : LeaseExecutor) {f : SafetyError}
    → (lift (ok_or o e) s).0 ≡ err (fault f)
    → is_some o ≡ false
refused-none none e s h = refl
refused-none (some found) e s h = absurd (cc)

module _ (env : Environment) (permit : InputPermit) (now : ℕ) where
  send_wheel-IsShut :
      (frame : PhysicalFrame) (expires_at : ℕ) (s : LeaseExecutor) {f : SafetyError}
      → (send_wheel env frame expires_at s).0 ≡ err (fault f)
      → IsShut (send_wheel env frame expires_at s).1
  unfolding send_wheel
  send_wheel-IsShut frame expires_at s h =
      recover-IsShut _ _ (call env (wheel_call frame.wheel_delta expires_at frame.wheel_point) s)
        (λ e t. fail_closed-IsShut (Unit {0}) env (expiry_or platform_failure e) e t) h

  apply_lease-IsShut :
      (lease : InputLease) (s : LeaseExecutor) {f : SafetyError}
      → (apply_lease env lease permit now s).0 ≡ err (fault f)
      → IsShut (apply_lease env lease permit now s).1
  unfolding apply_lease
  apply_lease-IsShut lease s h =
      recover-IsShut _ _ (apply_lease_inner env lease permit now s)
        (λ e t. fail_closed-IsShut (Unit {0}) env (lease_failure_reason e) e t) h

  execute_pulse-IsShut :
      (action : ActionId) (session : SessionIdentity) (s : LeaseExecutor) {f : SafetyError}
      → (execute_pulse env action session permit now s).0 ≡ err (fault f)
      → IsShut (execute_pulse env action session permit now s).1
  unfolding execute_pulse
  execute_pulse-IsShut action session s h =
      recover-IsShut _ _ (execute_pulse_inner env action session permit now s)
        (fail_closed-IsShut (Unit {0}) env platform_failure) h

  first_pulse-IsShut :
      (actions : BTreeSet) (session : SessionIdentity) (s : LeaseExecutor) {f : SafetyError}
      → (first_pulse env actions session permit now s).0 ≡ err (fault f)
      → IsShut (first_pulse env actions session permit now s).1
  first_pulse-IsShut [] session s h = cc
  first_pulse-IsShut (action ∷ more) session s h = execute_pulse-IsShut action session s h

  last_wheel-IsShut :
      (frame : PhysicalFrame) (expires_at : ℕ) (still : Bool) (s : LeaseExecutor) {f : SafetyError}
      → ((if still then return tt else send_wheel env frame expires_at) s).0 ≡ err (fault f)
      → IsShut ((if still then return tt else send_wheel env frame expires_at) s).1
  last_wheel-IsShut frame expires_at true s h = cc
  last_wheel-IsShut frame expires_at false s h = send_wheel-IsShut frame expires_at s h

  send_frame-IsShut :
      (lease : InputLease) (frame : PhysicalFrame) (pulse_actions : BTreeSet) (s : LeaseExecutor)
      {f : SafetyError}
      → (send_frame env lease frame pulse_actions permit now s).0 ≡ err (fault f)
      → IsShut (send_frame env lease frame pulse_actions permit now s).1
  unfolding send_frame
  send_frame-IsShut lease frame pulse_actions s =
      let applied = apply_lease env lease permit now s in
      let pulsed = first_pulse env pulse_actions lease.session permit now applied.1 in
      resume-fault IsShut applied _ (apply_lease-IsShut lease s) λ _ _.
        resume-fault IsShut pulsed _ (first_pulse-IsShut pulse_actions lease.session applied.1)
          λ _ _. last_wheel-IsShut frame lease.expires_at (is_zero frame.wheel_delta) pulsed.1

  apply_physical_frame-FrameFault :
      (session : SessionIdentity) (sequence expires_at : ℕ) (frame : PhysicalFrame)
      (s : LeaseExecutor) {f : SafetyError}
      → (apply_physical_frame env session sequence expires_at frame permit now s).0 ≡ err (fault f)
      → FrameFault frame f s
          (apply_physical_frame env session sequence expires_at frame permit now s).1
  unfolding apply_physical_frame
  apply_physical_frame-FrameFault session sequence expires_at frame s {f} =
      resume-fault (FrameFault frame f s) (check_frame frame s) _
        (λ h. inl (h, check_frame-state frame s))
        λ found checked.
          resume-fault (FrameFault frame f s)
            (send_frame env _ frame _ permit now (check_frame frame s).1) _
            (λ h. inr (found, checked, send_frame-IsShut _ frame _ (check_frame frame s).1 h))
            λ _ _ h. cc

  lifted-some :
      (button : SemanticMouseButton) (s : LeaseExecutor) {action : ActionId}
      → (lift (action_for_button s.actions button) s).0 ≡ ok action
      → allows_button button s.actions ≡ true
  unfolding action_for_button
  lifted-some button s h =
      sym (first_for_button-allows button s.actions)
      ∙ given-some (first_for_button button s.actions) _ s h

  lifted-none :
      (button : SemanticMouseButton) (s : LeaseExecutor) {f : SafetyError}
      → (lift (action_for_button s.actions button) s).0 ≡ err (fault f)
      → allows_button button s.actions ≡ false
  unfolding action_for_button
  lifted-none button s h =
      sym (first_for_button-allows button s.actions)
      ∙ refused-none (first_for_button button s.actions) _ s h

  clicks-ClickFault :
      (button : SemanticMouseButton) (x_ppm y_ppm : ℕ) (session : SessionIdentity)
      (s : LeaseExecutor) {f : SafetyError}
      → (execute_client_point env button x_ppm y_ppm session permit now s).0 ≡ err (fault f)
      → ClickFault button s (execute_client_point env button x_ppm y_ppm session permit now s).1
  unfolding execute_client_point
  clicks-ClickFault button x_ppm y_ppm session s =
      resume-fault (ClickFault button s) (lift (action_for_button s.actions button) s) _
        (λ h. inl (lifted-none button s h, lift-state _ s))
        λ action found h. inr (
          lifted-some button s found,
          recover-IsShut _ _
              (execute_client_point_inner env action x_ppm y_ppm session permit now
                (lift (action_for_button s.actions button) s).1)
              (λ e t. fail_closed-IsShut (Unit {0}) env (click_failure_reason e) e t) h,
        )

  -- Every request that fails without a panic leaves the executor shut, with two exceptions, which
  -- leave it as it was, and are the only ones that do not shut it: a frame whose checks fail with the
  -- error that is returned, and a click for a button that no action of the profile clicks.
  pub perform-fault :
      (request : Request) (s : LeaseExecutor) {f : SafetyError}
      → (perform env request permit now s).0 ≡ err (fault f)
      → Aftermath request f s (perform env request permit now s).1
  unfolding perform
  perform-fault (leases lease) s h = apply_lease-IsShut lease s h
  perform-fault (arms_guarded session sequence expires_at keys) s h =
      (unfold arm_guarded_physical_frame in
        recover-IsShut _ _
          (arm_guarded_physical_frame_inner env session sequence expires_at keys permit now s)
          (fail_closed-IsShut (Unit {0}) env emergency_stop) h)
  perform-fault (renews_guarded session sequence expires_at) s h =
      (unfold renew_guarded_physical_frame in
        recover-IsShut _ _ (renew_guarded_inner env session sequence expires_at permit now s)
          (fail_closed-IsShut (Unit {0}) env guardian_failure) h)
  perform-fault (applies_guarded session keys) s h =
      (unfold apply_guarded_physical_frame in
        recover-IsShut _ _ (apply_guarded_inner env session keys permit now s)
          (fail_closed-IsShut (Unit {0}) env platform_failure) h)
  perform-fault (pulses action session) s h = execute_pulse-IsShut action session s h
  perform-fault (moves action delta_x delta_y session) s h =
      (unfold execute_relative_mouse in
        recover-IsShut _ _
          (execute_relative_mouse_inner env action delta_x delta_y session permit now s)
          (fail_closed-IsShut (Unit {0}) env platform_failure) h)
  perform-fault (clicks button x_ppm y_ppm session) s h =
      clicks-ClickFault button x_ppm y_ppm session s h
  perform-fault (frames session sequence expires_at frame) s {f} h =
      resume-fault (FrameFault frame f s)
        (apply_physical_frame env session sequence expires_at frame permit now s) _
        (apply_physical_frame-FrameFault session sequence expires_at frame s) (λ _ _ g. cc) h
