-- ===== src/Input/Lease/Pulse.antt =====
-- crates/fairypam-agent-input/src/lease.rs: pulses, mouse input, and a whole physical frame.
use text.Mathlib.Text.{◌==◌ as str_eq, starts_with}
use fairypam_rust_agent.Base.{ℕ, Bool, ◌-◌, ◌&&◌, Option, none, some, [], ◌∷◌, leb, if◌then◌else◌}
use fairypam_rust_agent.Base.Int.{ℤ, unsigned_abs, as_u32}
use fairypam_rust_agent.Base.Sets.{BTreeSet}
use fairypam_rust_agent.Core.State.{SessionIdentity}
use fairypam_rust_agent.Guardian.Protocol.{
  ActionId, ReleaseReason, lease_expired, guardian_failure, platform_failure,
}
use fairypam_rust_agent.Input.Action.{
  SafetyError, SemanticMouseButton, ResolvedAction, resolve, pulse_key, relative_mouse,
  client_point_click,
}
use fairypam_rust_agent.Input.Action.Physical.{action_for_button}
use fairypam_rust_agent.Input.Lease.{
  Environment, Call, Method, pulsed_key, clicked_client_point, guardian_register_intent,
  guardian_commit_holds, call, map_err, return, fail, lift, modify, require, next_guardian_sequence,
  ◌>>=◌, ◌>>◌,
}
use fairypam_rust_agent.Input.Lease.Gate.{InputPermit, require_open_gate, fail_closed}

-- 50 ms, in nanoseconds.
abbrev pub client_point_click_hold : ℕ
client_point_click_hold = 50_000_000

abbrev pub within_delta : ℤ → ℤ → Bool
within_delta maximum_delta delta = leb (unsigned_abs delta) (as_u32 maximum_delta)

unfoldable pub expiry_or : ReleaseReason → SafetyError → ReleaseReason
expiry_or other e = if str_eq e.code "input.lease_expired" then lease_expired else other

unfoldable pub click_failure_reason : SafetyError → ReleaseReason
click_failure_reason e =
    if str_eq e.code "input.lease_expired"
    then lease_expired
    else if starts_with e.code "guardian."
    then guardian_failure
    else platform_failure

module _ (env : Environment) where
  abbrev pub pulse_resolved : ResolvedAction → Method (Unit {0})
  pulse_resolved (pulse_key code extended) = call env (pulsed_key code extended)
  pulse_resolved _ = fail "input.action_kind_invalid"

  unfoldable pub execute_pulse_inner :
      ActionId → SessionIdentity → InputPermit → ℕ → Method (Unit {0})
  unfolding require_open_gate resolve call
  execute_pulse_inner action session permit now = do
    require_open_gate session permit now
    resolved ← (λ s. lift (resolve s.actions action) s)
    pulse_resolved resolved

  unfoldable pub execute_pulse : ActionId → SessionIdentity → InputPermit → ℕ → Method (Unit {0})
  unfolding execute_pulse_inner fail_closed
  execute_pulse action session permit now =
      map_err (fail_closed env platform_failure) (execute_pulse_inner action session permit now)

  abbrev pub move_resolved : ℤ → ℤ → ResolvedAction → Method (Unit {0})
  move_resolved delta_x delta_y (relative_mouse maximum_delta) =
      if within_delta maximum_delta delta_x && within_delta maximum_delta delta_y
      then call env (Call.relative_mouse delta_x delta_y)
      else fail "input.mouse_delta_exceeded"
  move_resolved delta_x delta_y _ = fail "input.action_kind_invalid"

  unfoldable pub execute_relative_mouse_inner :
      ActionId → ℤ → ℤ → SessionIdentity → InputPermit → ℕ → Method (Unit {0})
  unfolding require_open_gate resolve call
  execute_relative_mouse_inner action delta_x delta_y session permit now = do
    require_open_gate session permit now
    resolved ← (λ s. lift (resolve s.actions action) s)
    move_resolved delta_x delta_y resolved

  unfoldable pub execute_relative_mouse :
      ActionId → ℤ → ℤ → SessionIdentity → InputPermit → ℕ → Method (Unit {0})
  unfolding execute_relative_mouse_inner fail_closed
  execute_relative_mouse action delta_x delta_y session permit now =
      map_err (fail_closed env platform_failure)
        (execute_relative_mouse_inner action delta_x delta_y session permit now)

  abbrev pub click_button : ResolvedAction → Method SemanticMouseButton
  click_button (client_point_click button) = return button
  click_button _ = fail "input.action_kind_invalid"

  abbrev pub lease_end : Option ℕ → Method ℕ
  lease_end none = fail "input.gate_closed"
  lease_end (some expires_at) = return expires_at

  -- The Guardian is told to hold `holds` under the next sequence.
  unfoldable pub guard_holds : BTreeSet → Method (Unit {0})
  unfolding call next_guardian_sequence
  guard_holds holds = do
    guardian_sequence ← next_guardian_sequence
    call env (guardian_register_intent guardian_sequence holds)
    call env (guardian_commit_holds guardian_sequence holds)
    modify (λ s. record s { guardian_sequence = guardian_sequence; held_actions = holds })

  unfoldable pub execute_client_point_inner :
      ActionId → (x_ppm y_ppm : ℕ) → SessionIdentity → InputPermit → ℕ → Method (Unit {0})
  unfolding require_open_gate resolve call guard_holds
  execute_client_point_inner action x_ppm y_ppm session permit now = do
    require_open_gate session permit now
    expires_at ← (λ s. lease_end s.expires_at s)
    require (leb client_point_click_hold (expires_at - now)) "input.lease_expired"
    require (leb x_ppm 1_000_000 && leb y_ppm 1_000_000) "input.client_point_invalid"
    resolved ← (λ s. lift (resolve s.actions action) s)
    button ← click_button resolved
    guard_holds (action ∷ [])
    call env (clicked_client_point button x_ppm y_ppm expires_at)
    guard_holds []

  unfoldable pub execute_client_point :
      SemanticMouseButton
      → (x_ppm y_ppm : ℕ) → SessionIdentity
      → InputPermit
      → ℕ
      → Method (Unit {0})
  unfolding execute_client_point_inner fail_closed action_for_button click_failure_reason
  execute_client_point button x_ppm y_ppm session permit now = do
    action ← (λ s. lift (action_for_button s.actions button) s)
    map_err (λ e. fail_closed env (click_failure_reason e) e)
        (execute_client_point_inner action x_ppm y_ppm session permit now)
