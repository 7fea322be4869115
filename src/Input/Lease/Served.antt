-- ===== src/Input/Lease/Served.antt =====
-- crates/fairypam-agent-input/src/lease.rs: an open gate has a deadline, whatever is asked.
use fairypam_rust_agent.Base.{
  ℕ, Bool, true, false, if◌then◌else◌, List, [], ◌∷◌, ◌≡◌, refl, subst, sym,
}
use fairypam_rust_agent.Base.Int.{is_zero}
use fairypam_rust_agent.Base.Sets.{BTreeSet}
use fairypam_rust_agent.Core.State.{SessionIdentity}
use fairypam_rust_agent.Guardian.Protocol.{
  ReleaseReason, emergency_stop, guardian_failure, platform_failure,
}
use fairypam_rust_agent.Input.Action.{ActionMap}
use fairypam_rust_agent.Input.Action.Physical.{action_for_button}
use fairypam_rust_agent.Input.Lease.{
  Environment, InputLease, LeaseExecutor, lift, return, call, with_action_map,
}
use fairypam_rust_agent.Input.Lease.Gate.{InputPermit, release_all, fail_closed, tick}
use fairypam_rust_agent.Input.Lease.Apply.{apply_lease}
use fairypam_rust_agent.Input.Lease.Guarded.{
  arm_guarded_physical_frame, arm_guarded_physical_frame_inner, renew_guarded_physical_frame,
  renew_guarded_inner, apply_guarded_physical_frame, apply_guarded_inner,
}
use fairypam_rust_agent.Input.Lease.Pulse.{
  execute_relative_mouse, execute_relative_mouse_inner, execute_client_point,
  execute_client_point_inner, click_failure_reason, expiry_or,
}
use fairypam_rust_agent.Input.Lease.Frame.{
  PhysicalFrame, check_frame, send_frame, send_wheel, first_pulse, wheel_call, apply_physical_frame,
}
use fairypam_rust_agent.Input.Lease.Closed.{check_frame-state}
use fairypam_rust_agent.Input.Lease.Requests.{
  Request, leases, arms_guarded, renews_guarded, applies_guarded, pulses, moves, clicks, frames,
  perform,
}
use fairypam_rust_agent.Input.Lease.Deadline.{
  Keeps, has_lease, then-Keeps, recover-Keeps, lift-Keeps, call-Keeps, release_all-Keeps,
  fail_closed-Keeps, apply_lease-Keeps, tick-Keeps,
}
use fairypam_rust_agent.Input.Lease.Kept.{
  pulse-Keeps, arm_inner-Keeps, renew_inner-Keeps, guarded_inner-Keeps, move_inner-Keeps,
  click_inner-Keeps,
}

module _ (env : Environment) (permit : InputPermit) (now : ℕ) where
  send_wheel-Keeps :
      (frame : PhysicalFrame) (expires_at : ℕ) → Keeps (send_wheel env frame expires_at)
  unfolding send_wheel
  send_wheel-Keeps frame expires_at s h =
      recover-Keeps (λ e. fail_closed env (expiry_or platform_failure e) e)
        (call env (wheel_call frame.wheel_delta expires_at frame.wheel_point) s)
        (call-Keeps env (wheel_call frame.wheel_delta expires_at frame.wheel_point) s h)
        λ e. fail_closed-Keeps env (Unit {0}) (expiry_or platform_failure e) e

  first_pulse-Keeps :
      (actions : BTreeSet) (session : SessionIdentity)
      → Keeps (first_pulse env actions session permit now)
  first_pulse-Keeps [] session s h = h
  first_pulse-Keeps (action ∷ more) session s h = pulse-Keeps env permit now action session s h

  last_wheel-Keeps :
      (frame : PhysicalFrame) (expires_at : ℕ) (still : Bool)
      → Keeps (if still then return tt else send_wheel env frame expires_at)
  last_wheel-Keeps frame expires_at true s h = h
  last_wheel-Keeps frame expires_at false s h = send_wheel-Keeps frame expires_at s h

  send_frame-Keeps :
      (lease : InputLease) (frame : PhysicalFrame) (actions : BTreeSet)
      → Keeps (send_frame env lease frame actions permit now)
  unfolding send_frame
  send_frame-Keeps lease frame actions s h =
      then-Keeps (apply_lease env lease permit now s) _ (apply_lease-Keeps env lease permit now s h)
        λ _ t k.
          then-Keeps (first_pulse env actions lease.session permit now t) _
            (first_pulse-Keeps actions lease.session t k)
            λ _. last_wheel-Keeps frame lease.expires_at (is_zero frame.wheel_delta)

  perform-Keeps : (request : Request) → Keeps (perform env request permit now)
  unfolding perform
  perform-Keeps (leases lease) s h = apply_lease-Keeps env lease permit now s h
  perform-Keeps (arms_guarded session sequence expires_at keys) s h =
      unfold arm_guarded_physical_frame in
      recover-Keeps (fail_closed env emergency_stop)
        (arm_guarded_physical_frame_inner env session sequence expires_at keys permit now s)
        (arm_inner-Keeps env permit now session sequence expires_at keys s h)
        (fail_closed-Keeps env (Unit {0}) emergency_stop)
  perform-Keeps (renews_guarded session sequence expires_at) s h =
      unfold renew_guarded_physical_frame in
      recover-Keeps (fail_closed env guardian_failure)
        (renew_guarded_inner env session sequence expires_at permit now s)
        (renew_inner-Keeps env permit now session sequence expires_at s h)
        (fail_closed-Keeps env (Unit {0}) guardian_failure)
  perform-Keeps (applies_guarded session keys) s h =
      unfold apply_guarded_physical_frame in
      recover-Keeps (fail_closed env platform_failure)
        (apply_guarded_inner env session keys permit now s)
        (guarded_inner-Keeps env permit now session keys s h)
        (fail_closed-Keeps env (Unit {0}) platform_failure)
  perform-Keeps (pulses action session) s h = pulse-Keeps env permit now action session s h
  perform-Keeps (moves action x y session) s h =
      unfold execute_relative_mouse in
      recover-Keeps (fail_closed env platform_failure)
        (execute_relative_mouse_inner env action x y session permit now s)
        (move_inner-Keeps env permit now action x y session s h)
        (fail_closed-Keeps env (Unit {0}) platform_failure)
  perform-Keeps (clicks button x y session) s h =
      unfold execute_client_point in
      then-Keeps (lift (action_for_button s.actions button) s) _
        (lift-Keeps (action_for_button s.actions button) s h)
        λ action t k.
          recover-Keeps (λ e. fail_closed env (click_failure_reason e) e)
            (execute_client_point_inner env action x y session permit now t)
            (click_inner-Keeps env permit now action x y session t k)
            λ e. fail_closed-Keeps env (Unit {0}) (click_failure_reason e) e
  perform-Keeps (frames session sequence expires_at frame) s h =
      unfold apply_physical_frame in
      then-Keeps (apply_physical_frame env session sequence expires_at frame permit now s) _
        (then-Keeps (check_frame frame s) _
          (subst (λ t. has_lease t ≡ true) (sym (check_frame-state frame s)) h)
          λ found t k.
            then-Keeps (send_frame env _ frame found.1 permit now t) _
              (send_frame-Keeps _ frame found.1 t k) λ _ u l. l)
        λ _ v m. m

-- What is asked of an executor: a request under a permit at a time, a tick, a release of all input.
pub data Operation : Type 0 where
  performs : Request → InputPermit → (now : ℕ) → Operation
  ticks : (now : ℕ) → Operation
  releases : ReleaseReason → Operation

abbrev pub operate : Environment → Operation → LeaseExecutor → LeaseExecutor
operate env (performs request permit now) s = (perform env request permit now s).1
operate env (ticks now) s = (tick env now s).1
operate env (releases reason) s = (release_all env reason s).1

unfoldable pub serve : Environment → List Operation → LeaseExecutor → LeaseExecutor
unfolding perform tick release_all
serve env [] s = s
serve env (operation ∷ operations) s = serve env operations (operate env operation s)

operate-Keeps :
    (env : Environment) (operation : Operation) (s : LeaseExecutor)
    → has_lease s ≡ true
    → has_lease (operate env operation s) ≡ true
operate-Keeps env (performs request permit now) s h = perform-Keeps env permit now request s h
operate-Keeps env (ticks now) s h = tick-Keeps env now s h
operate-Keeps env (releases reason) s h = release_all-Keeps env reason s h

serve-Keeps :
    (env : Environment) (operations : List Operation) (s : LeaseExecutor)
    → has_lease s ≡ true
    → has_lease (serve env operations s) ≡ true
unfolding serve
serve-Keeps env [] s h = h
serve-Keeps env (operation ∷ operations) s h =
    serve-Keeps env operations (operate env operation s) (operate-Keeps env operation s h)

-- Whatever is asked of a new executor, and whatever the platform and the Guardian answer, its gate
-- is open only under a session and with a deadline, which a tick can find reached.
pub serve-has_lease :
    (env : Environment) (operations : List Operation) (actions : ActionMap)
    → has_lease (serve env operations (with_action_map actions)) ≡ true
serve-has_lease env operations actions =
    serve-Keeps env operations (with_action_map actions) (unfold with_action_map in refl)
