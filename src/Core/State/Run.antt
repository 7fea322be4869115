-- ===== src/Core/State/Run.antt =====
-- crates/fairypam-agent-core/src/state.rs: the calls of the machine as one alphabet, and sequences
-- of them. A call that is refused has no effects.
use fairypam_rust_agent.Base.{ℕ, Bool, true, false, List, [], ◌∷◌, ◌++◌}
use fairypam_rust_agent.Base.Result.{Result, ok, err}
use fairypam_rust_agent.Core.Error.{AgentError}
use fairypam_rust_agent.Core.Profile.{VerifiedProfile, External}
use fairypam_rust_agent.Core.Target.{TargetBinding, TargetSnapshot}
use fairypam_rust_agent.Core.State.{
  AgentState, Event, Effect, SessionIdentity, Machine, LocalAuthorization, controlling,
  open_input_gate, close_input_gate, release_all,
}
use fairypam_rust_agent.Core.State.Ops.{
  Step, start_completed, control_connected, activate_profile, lock_target, on_preflight_passed,
  enter_dry_run, request_arm, begin_control, renew_control_authorization, apply,
}

pub data Call : Type 0 where
  started : Call
  connected : SessionIdentity → Call
  activates : VerifiedProfile → Call
  locks : TargetBinding → Call
  preflights : TargetSnapshot → Call
  dry_runs : Call
  arms : LocalAuthorization → (now requested_expires_at : ℕ) → Call
  begins : (now : ℕ) → Call
  renews : LocalAuthorization → (now requested_expires_at : ℕ) → Call
  happens : Event → Call

unfoldable pub step : External → Call → Machine → Step
step x started m = start_completed m
step x (connected session) m = control_connected session m
step x (activates profile) m = activate_profile profile m
step x (locks binding) m = lock_target x binding m
step x (preflights snapshot) m = on_preflight_passed snapshot m
step x dry_runs m = enter_dry_run m
step x (arms authorization now requested) m = request_arm authorization now requested m
step x (begins now) m = begin_control now m
step x (renews authorization now requested) m =
    renew_control_authorization authorization now requested m
step x (happens event) m = apply event m

abbrev pub effects_of : Result AgentError (List Effect) → List Effect
effects_of (ok effects) = effects
effects_of (err e) = []

-- The machine after a sequence of calls, and all effects in their order.
unfoldable pub run : External → List Call → Machine → List Effect × Machine
run x [] m = ([], m)
run x (call ∷ calls) m =
    let (result, m') = step x call m in
    let (effects, m'') = run x calls m' in (effects_of result ++ effects, m'')

-- What the effects do to the input gate.
abbrev pub gate_after : List Effect → Bool → Bool
gate_after [] gate = gate
gate_after (open_input_gate ∷ effects) gate = gate_after effects true
gate_after (close_input_gate ∷ effects) gate = gate_after effects false
gate_after (release_all ∷ effects) gate = gate_after effects gate

abbrev pub is_controlling : AgentState → Bool
is_controlling controlling = true
is_controlling _ = false
