-- ===== src/Input/Lease/Gate.antt =====
-- crates/fairypam-agent-input/src/lease.rs: the gates, the release of all input, and the tick.
use fairypam_rust_agent.Base.{
  ℕ, Bool, false, not, ◌&&◌, ◌||◌, none, some, [], leb, if◌then◌else◌, is_empty,
}
use fairypam_rust_agent.Base.Result.{Result, ok, err}
use fairypam_rust_agent.Core.State.{SessionIdentity, session_eq, is_some, is_some_and}
use fairypam_rust_agent.Core.State.Capability.{InputCapability, is_valid_for}
use fairypam_rust_agent.Guardian.Protocol.{ReleaseReason, lease_expired, guardian_failure}
use fairypam_rust_agent.Input.Action.{SafetyError, safety_error}
use fairypam_rust_agent.Input.Action.Physical.{all_scan_codes}
use fairypam_rust_agent.Input.Lease.{
  Environment, LeaseExecutor, Failure, Method, fault, panic, emergency_release,
  guardian_release_all, guardian_heartbeat, call, recover,
}

-- `InputPermit` wraps a capability of the core.
pub record InputPermit : Type 0 where
  pub capability : InputCapability

abbrev pub permit_is_valid_for : InputPermit → ℕ → SessionIdentity → Bool
permit_is_valid_for permit now session = is_valid_for permit.capability now session

unfoldable pub require_open_gate : SessionIdentity → InputPermit → ℕ → Method (Unit {0})
require_open_gate session permit now s =
    if s.input_gate_open && permit_is_valid_for permit now session
    then (ok tt, s)
    else (err (fault (safety_error "input.gate_closed")), s)

unfoldable pub require_guarded_gate : SessionIdentity → InputPermit → ℕ → Method (Unit {0})
unfolding require_open_gate
require_guarded_gate session permit now s =
    if is_empty s.guarded_actions
      || (not (is_some_and (λ active. session_eq active session) s.active_session)
          || (not (is_some s.expires_at)
              || is_some_and (λ expires_at. leb expires_at now) s.expires_at))
    then (err (fault (safety_error "input.gate_closed")), s)
    else require_open_gate session permit now s

-- The later part of `release_all`, with the first error of the two calls.
abbrev released :
    ReleaseReason
    → Result Failure (Unit {0})
    → Result Failure (Unit {0})
    → LeaseExecutor
    → Result Failure (Unit {0}) × LeaseExecutor
released reason (ok _) (ok _) s = (
  ok tt,
  record s {
    held_actions = [];
    guarded_actions = [];
    expires_at = none;
    last_release_reason = some reason;
  },
)
released reason (ok _) (err e) s =
    (err e, record s { expires_at = none; last_release_reason = some reason })
released reason (err e) _ s =
    (err e, record s { expires_at = none; last_release_reason = some reason })

abbrev pub closed_result :
    {A : Type 0}
    → SafetyError
    → Result Failure (Unit {0}) × LeaseExecutor
    → Result Failure A × LeaseExecutor
closed_result original (ok _, s) = (err (fault original), s)
closed_result original (err (fault e), s) =
    (err (fault (safety_error "input.fail_closed_failed")), s)
closed_result original (err panic, s) = (err panic, s)

module _ (env : Environment) where
  -- Both calls are made, whatever the first one returns.
  unfoldable pub release_all : ReleaseReason → Method (Unit {0})
  unfolding call
  release_all reason s =
      let closed = record s { input_gate_open = false } in
      let (first, s1) = call env (emergency_release (all_scan_codes s.actions)) closed in
      let (second, s2) = call env (guardian_release_all reason) s1 in
      released reason first second s2

  unfoldable pub fail_closed : {A : Type 0} → ReleaseReason → SafetyError → Method A
  unfolding release_all
  fail_closed reason original s = closed_result original (release_all reason s)

  -- `let _ = self.release_all(…); return Err(error)`.
  unfoldable pub tick : ℕ → Method (Unit {0})
  unfolding release_all call
  tick now s =
      if is_some_and (λ expires_at. leb expires_at now) s.expires_at
      then release_all lease_expired s
      else if s.input_gate_open
      then recover (λ e t. (err (fault e), (release_all guardian_failure t).1))
          (call env (guardian_heartbeat s.guardian_sequence) s)
      else (ok tt, s)
