-- ===== src/Core/State/Invariant.antt =====
-- crates/fairypam-agent-core/src/state.rs: what holds of the machine between two calls.
use fairypam_rust_agent.Base.{
  ◌≤◌, Bool, true, false, not, ◌&&◌, Option, some, List, [], ◌∷◌, ◌≡◌, ◌≢◌, arith, is_empty, ◌==◌,
}
use fairypam_rust_agent.Core.Profile.{VerifiedProfile, External}
use fairypam_rust_agent.Core.Target.{TargetBinding}
use fairypam_rust_agent.Core.State.{
  Machine, SessionIdentity, controlling, recovering_local, variant, is_some, is_some_and,
}
use fairypam_rust_agent.Core.State.Ops.{
  new, start_completed, control_connected, activate_profile, lock_target, on_preflight_passed,
  enter_dry_run, request_arm, begin_control, renew_control_authorization, apply,
  binding_matches_profile,
}
use fairypam_rust_agent.Core.State.Run.{
  Call, started, connected, activates, locks, preflights, dry_runs, arms, begins, renews, happens,
  step, run,
}

abbrev is_complete : SessionIdentity → Bool
is_complete s =
    not (is_empty s.agent_id) && (not (is_empty s.session_id) && not (s.generation == 0))

abbrev binding_fits : External → Option TargetBinding → Option VerifiedProfile → Bool
binding_fits x (some binding) (some profile) = binding_matches_profile x binding profile
binding_fits x _ _ = false

-- The stages are numbered as `variant` numbers the states: 2 is `connected_idle`, 3
-- `profile_loaded`, 4 `target_locked`, 8 `controlling`.
pub record Inv (x : External) (m : Machine) : Type 0 where
  pub connected : 2 ≤ variant m.current → variant m.current ≤ 8 → m.control_connected ≡ true
  pub session_complete :
      2 ≤ variant m.current
      → variant m.current ≤ 8
      → is_some_and is_complete m.active_session ≡ true
  pub profile_active :
      3 ≤ variant m.current → variant m.current ≤ 8 → is_some m.active_profile ≡ true
  pub binding_fitting :
      4 ≤ variant m.current
      → variant m.current ≤ 8
      → binding_fits x m.active_binding m.active_profile ≡ true
  pub authorized : m.current ≡ controlling → is_some m.authorization_expires_at ≡ true
  pub authorized_only : is_some m.authorization_expires_at ≡ true → m.current ≡ controlling
  pub not_recovering : m.current ≢ recovering_local

new-Inv : (x : External) → Inv x new
unfolding new
new-Inv x = ground arith

step-Inv : (x : External) (c : Call) (m : Machine) → Inv x m → Inv x (step x c m).1
unfolding step
step-Inv x started m v = unfold start_completed in ground arith
step-Inv x (connected session) m v = unfold control_connected in ground arith
step-Inv x (activates profile) m v = unfold activate_profile in ground arith
step-Inv x (locks binding) m v = unfold lock_target in ground arith
step-Inv x (preflights snapshot) m v = unfold on_preflight_passed in ground arith
step-Inv x dry_runs m v = unfold enter_dry_run in ground arith
step-Inv x (arms authorization now requested) m v = unfold request_arm in ground arith
step-Inv x (begins now) m v = unfold begin_control in ground arith
step-Inv x (renews authorization now requested) m v =
    unfold renew_control_authorization in ground arith
step-Inv x (happens event) m v = unfold apply in ground arith

run-Inv : (x : External) (calls : List Call) (m : Machine) → Inv x m → Inv x (run x calls m).1
unfolding run
run-Inv x [] m v = v
run-Inv x (c ∷ calls) m v = run-Inv x calls (step x c m).1 (step-Inv x c m v)

-- After any sequence of calls from the start: from `connected_idle` to `controlling` the control
-- channel is connected under a complete session; from `profile_loaded` on a profile is active; from
-- `target_locked` on a binding is held that satisfies that profile; an authorization is held in
-- `controlling` and in no other state; and `recovering_local` is never entered.
pub run-new-Inv : (x : External) (calls : List Call) → Inv x (run x calls new).1
run-new-Inv x calls = run-Inv x calls new (new-Inv x)
