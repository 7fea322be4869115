-- ===== src/Input/Lease/Apply.antt =====
-- crates/fairypam-agent-input/src/lease.rs: a lease of held actions.
use text.Mathlib.Text.{◌==◌, starts_with}
use fairypam_rust_agent.Base.{ℕ, true, not, ◌&&◌, ◌||◌, some, [], ltb, if◌then◌else◌}
use fairypam_rust_agent.Base.Sets.{BTreeSet, difference, extend}
use fairypam_rust_agent.Base.Result.{ok, err}
use fairypam_rust_agent.Core.State.{SessionIdentity, session_eq, is_some_and}
use fairypam_rust_agent.Guardian.Protocol.{
  ActionId, ReleaseReason, session_changed, emergency_stop, lease_expired, guardian_failure,
  platform_failure,
}
use fairypam_rust_agent.Input.Action.{
  SafetyError, ResolvedAction, hold_key, pulse_key, client_point_click,
}
use fairypam_rust_agent.Input.Lease.{
  Environment, InputLease, Method, panic, validate_before_input, press_key, release_key,
  press_mouse_button, release_mouse_button, guardian_register_intent, guardian_commit_holds, call,
  map_err, return, lift, modify, require, for_each, next_guardian_sequence, hold_action, ◌>>=◌,
  ◌>>◌,
}
use fairypam_rust_agent.Input.Lease.Gate.{
  InputPermit, permit_is_valid_for, release_all, fail_closed,
}

-- The reason that the handlers give for an error.
unfoldable pub lease_failure_reason : SafetyError → ReleaseReason
lease_failure_reason e =
    if e.code == "input.lease_expired"
    then lease_expired
    else if starts_with e.code "guardian."
    then guardian_failure
    else if starts_with e.code "input.platform" || e.code == "input.send_failed"
    then platform_failure
    else emergency_stop

-- `self.hold_action(action)?`, its value unused.
unfoldable pub check_hold : ActionId → Method (Unit {0})
unfolding hold_action
check_hold action s = (lift (hold_action s.actions action) >>= λ _. return tt) s

unfoldable pub require_new_sequence : ℕ → Method (Unit {0})
require_new_sequence sequence s =
    require (ltb 0 sequence && ltb s.sequence sequence) "input.sequence_invalid" s

module _ (env : Environment) where
  -- `panic` where the code says `unreachable!`.
  abbrev pub release_held : ResolvedAction → Method (Unit {0})
  release_held (hold_key code extended) = call env (release_key code extended)
  release_held (pulse_key code extended) = call env (release_key code extended)
  release_held (client_point_click button) = call env (release_mouse_button button)
  release_held _ = λ s. (err panic, s)

  abbrev pub press_held : ResolvedAction → Method (Unit {0})
  press_held (hold_key code extended) = call env (press_key code extended)
  press_held (pulse_key code extended) = call env (press_key code extended)
  press_held (client_point_click button) = call env (press_mouse_button button)
  press_held _ = λ s. (err panic, s)

  unfoldable pub release_one : ActionId → Method (Unit {0})
  unfolding hold_action call
  release_one action s = (lift (hold_action s.actions action) >>= release_held) s

  unfoldable pub press_one : ActionId → Method (Unit {0})
  unfolding hold_action call
  press_one action s = (lift (hold_action s.actions action) >>= press_held) s

  unfoldable pub apply_hold_difference : BTreeSet → BTreeSet → Method (Unit {0})
  unfolding release_one press_one for_each
  apply_hold_difference previous desired = do
    for_each release_one (difference previous desired)
    for_each press_one (difference desired previous)

  -- A lease for another session releases what the old one holds, and restarts the sequence.
  unfoldable pub change_session : SessionIdentity → Method (Unit {0})
  unfolding release_all
  change_session session s =
      if is_some_and (λ active. not (session_eq active session)) s.active_session
      then (release_all env session_changed >> modify (λ t. record t { sequence = 0 })) s
      else (ok tt, s)

  unfoldable pub press_lease : BTreeSet → Method (Unit {0})
  unfolding apply_hold_difference
  press_lease desired s =
      apply_hold_difference s.held_actions desired
        (record s { held_actions = extend s.held_actions desired })

  -- The checks of `apply_lease_inner`, up to its holds.
  unfoldable pub admit : InputLease → InputPermit → ℕ → Method (Unit {0})
  unfolding change_session require_new_sequence check_hold for_each
  admit lease permit now = do
    require (permit_is_valid_for permit now lease.session) "input.permit_invalid"
    require (ltb now lease.expires_at) "input.lease_expired"
    change_session lease.session
    require_new_sequence lease.sequence
    for_each check_hold lease.desired_holds

  -- From `register_intent` to `commit_holds`.
  unfoldable pub replace_holds : BTreeSet → ℕ → Method (Unit {0})
  unfolding call press_lease
  replace_holds desired sequence = do
    call env (guardian_register_intent sequence desired)
    press_lease desired
    modify (λ s. record s { held_actions = desired; guarded_actions = [] })
    call env (guardian_commit_holds sequence desired)

  unfoldable pub apply_lease_inner : InputLease → InputPermit → ℕ → Method (Unit {0})
  unfolding admit call next_guardian_sequence replace_holds
  apply_lease_inner lease permit now = do
    admit lease permit now
    call env validate_before_input
    guardian_sequence ← next_guardian_sequence
    replace_holds lease.desired_holds guardian_sequence
    modify (λ s. record s {
      active_session = some lease.session;
      sequence = lease.sequence;
      guardian_sequence = guardian_sequence;
      expires_at = some lease.expires_at;
      input_gate_open = true;
    })

  unfoldable pub apply_lease : InputLease → InputPermit → ℕ → Method (Unit {0})
  unfolding apply_lease_inner fail_closed lease_failure_reason
  apply_lease lease permit now =
      map_err (λ e. fail_closed env (lease_failure_reason e) e) (apply_lease_inner lease permit now)
