-- ===== src/Input/Lease/Frame.antt =====
-- crates/fairypam-agent-input/src/lease.rs: `apply_physical_frame`, a frame of keys, buttons and
-- wheel.
use fairypam_rust_agent.Base.{
  ℕ, Bool, not, ◌&&◌, ◌||◌, Option, none, some, List, [], ◌∷◌, ltb, is_empty, length, if◌then◌else◌,
}
use fairypam_rust_agent.Base.Int.{ℤ, is_zero, is_multiple_of}
use fairypam_rust_agent.Base.Sets.{BTreeSet}
use fairypam_rust_agent.Base.Result.{Result, err}
use fairypam_rust_agent.Core.State.{SessionIdentity, is_some, is_some_and}
use fairypam_rust_agent.Guardian.Protocol.{platform_failure}
use fairypam_rust_agent.Input.Action.{SafetyError, SemanticMouseButton, ActionMap}
use fairypam_rust_agent.Input.Action.Physical.{Key, physical_frame_actions, wheel_limit}
use fairypam_rust_agent.Input.Lease.{
  Environment, InputLease, Call, Method, panic, wheel, wheel_at_client_point, call, map_err, return,
  lift, require, ◌>>=◌, ◌>>◌,
}
use fairypam_rust_agent.Input.Lease.Gate.{InputPermit, fail_closed}
use fairypam_rust_agent.Input.Lease.Apply.{apply_lease}
use fairypam_rust_agent.Input.Lease.Pulse.{within_delta, execute_pulse, expiry_or}

-- What a frame asks for.
pub record PhysicalFrame : Type 0 where
  pub keys : List Key
  pub buttons : List SemanticMouseButton
  pub wheel_delta : ℤ
  pub wheel_point : Option (ℕ × ℕ)

unfoldable pub pulse_is_alone : PhysicalFrame → BTreeSet → BTreeSet → Bool
pulse_is_alone frame desired_holds pulse_actions = not (
    ltb 1 (length pulse_actions)
    || (not (is_empty pulse_actions)
        && (not (is_empty desired_holds)
            || (not (is_zero frame.wheel_delta) || is_some frame.wheel_point))))

unfoldable pub wheel_is_allowed : PhysicalFrame → ActionMap → Bool
wheel_is_allowed frame actions = not (
    not (is_zero frame.wheel_delta)
    && not (
        is_some_and
          (λ limit. within_delta limit frame.wheel_delta && is_multiple_of 120 frame.wheel_delta)
          (wheel_limit actions)))

abbrev point_is_bad : ℤ → ℕ × ℕ → Bool
point_is_bad delta (x_ppm, y_ppm) = is_zero delta || (ltb 1_000_000 x_ppm || ltb 1_000_000 y_ppm)

unfoldable pub wheel_point_is_valid : PhysicalFrame → Bool
wheel_point_is_valid frame = not (is_some_and (point_is_bad frame.wheel_delta) frame.wheel_point)

abbrev pub or_panic : {A : Type 0} → Option (Result SafetyError A) → Method A
or_panic none s = (err panic, s)
or_panic (some r) s = lift r s

abbrev pub wheel_call : ℤ → ℕ → Option (ℕ × ℕ) → Call
wheel_call delta expires_at none = wheel delta expires_at
wheel_call delta expires_at (some (x_ppm, y_ppm)) =
    wheel_at_client_point x_ppm y_ppm delta expires_at

-- The checks, in their order: the actions that are held, and those that are pulsed.
unfoldable pub check_frame : PhysicalFrame → Method (BTreeSet × BTreeSet)
unfolding physical_frame_actions pulse_is_alone wheel_is_allowed wheel_point_is_valid
check_frame frame = do
  (desired_holds, pulse_actions) ←
      (λ s. or_panic (physical_frame_actions s.actions frame.keys frame.buttons) s)
  require (pulse_is_alone frame desired_holds pulse_actions) "input.frame_invalid"
  (λ s. require (wheel_is_allowed frame s.actions) "input.wheel_not_allowed" s)
  require (wheel_point_is_valid frame) "input.wheel_point_invalid"
  return (desired_holds, pulse_actions)

module _ (env : Environment) where
  abbrev pub first_pulse : BTreeSet → SessionIdentity → InputPermit → ℕ → Method (Unit {0})
  first_pulse [] session permit now = return tt
  first_pulse (action ∷ more) session permit now = execute_pulse env action session permit now

  unfoldable pub send_wheel : PhysicalFrame → ℕ → Method (Unit {0})
  unfolding call fail_closed expiry_or
  send_wheel frame expires_at =
      map_err (λ e. fail_closed env (expiry_or platform_failure e) e)
        (call env (wheel_call frame.wheel_delta expires_at frame.wheel_point))

  unfoldable pub send_frame :
      InputLease → PhysicalFrame → BTreeSet → InputPermit → ℕ → Method (Unit {0})
  unfolding apply_lease execute_pulse send_wheel
  send_frame lease frame pulse_actions permit now = do
    apply_lease env lease permit now
    first_pulse pulse_actions lease.session permit now
    if is_zero frame.wheel_delta then return tt else send_wheel frame lease.expires_at

  unfoldable pub apply_physical_frame :
      SessionIdentity → (sequence expires_at : ℕ) → PhysicalFrame → InputPermit → ℕ → Method Bool
  unfolding check_frame send_frame
  apply_physical_frame session sequence expires_at frame permit now = do
    (desired_holds, pulse_actions) ← check_frame frame
    send_frame
        (record {
          session = session;
          sequence = sequence;
          expires_at = expires_at;
          desired_holds = desired_holds;
        })
        frame pulse_actions permit now
    return (not (is_empty desired_holds))
