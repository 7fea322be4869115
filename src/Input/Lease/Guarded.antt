-- ===== src/Input/Lease/Guarded.antt =====
-- crates/fairypam-agent-input/src/lease.rs: guarded frames, whose keys the Guardian holds a release
-- set for before the first of them is pressed.
use fairypam_rust_agent.Base.{
  ℕ, Bool, true, false, not, ◌&&◌, ◌||◌, some, List, [], ◌∷◌, ltb, leb, is_empty, any, ◌==◌, ◌++◌,
}
use fairypam_rust_agent.Base.Sets.{BTreeSet, difference, is_subset}
use fairypam_rust_agent.Base.Result.{Result, ok, err}
use fairypam_rust_agent.Core.State.{SessionIdentity}
use fairypam_rust_agent.Guardian.Protocol.{
  ActionId, emergency_stop, guardian_failure, platform_failure,
}
use fairypam_rust_agent.Input.Action.{SafetyError, ResolvedAction, ActionMap, hold_key}
use fairypam_rust_agent.Input.Action.Physical.{Key, physical_actions}
use fairypam_rust_agent.Input.Lease.{
  Environment, LeaseExecutor, Method, panic, validate_before_input, apply_guarded_key_transitions,
  guardian_register_intent, guardian_commit_holds, guardian_heartbeat, call, resume, map_err,
  return, lift, modify, require, next_guardian_sequence, hold_action, ◌>>=◌, ◌>>◌,
}
use fairypam_rust_agent.Input.Lease.Gate.{
  InputPermit, permit_is_valid_for, require_guarded_gate, fail_closed,
}
use fairypam_rust_agent.Input.Lease.Apply.{change_session}

abbrev is_hold_key : Result SafetyError ResolvedAction → Bool
is_hold_key (ok (hold_key code extended)) = true
is_hold_key _ = false

unfoldable pub is_fresh_gate : ℕ → LeaseExecutor → Bool
is_fresh_gate sequence s = not (
    sequence == 0
    || (leb sequence s.sequence
        || (s.input_gate_open
            || (not (is_empty s.held_actions) || not (is_empty s.guarded_actions)))))

unfoldable pub are_hold_keys : ActionMap → BTreeSet → Bool
unfolding hold_action
are_hold_keys actions guarded_actions = not (
    is_empty guarded_actions
    || any (λ action. not (is_hold_key (hold_action actions action))) guarded_actions)

-- The transition of one action; `panic` where the code says `unreachable!`.
abbrev pub transition : Bool → ResolvedAction → Method (ℕ × Bool × Bool)
transition pressed (hold_key code extended) = return (code, extended, pressed)
transition pressed _ = λ s. (err panic, s)

-- The two loops that push transitions, in their order.
unfoldable pub transitions_of : Bool → List ActionId → Method (List (ℕ × Bool × Bool))
unfolding hold_action
transitions_of pressed [] s = (ok [], s)
transitions_of pressed (action ∷ actions) s =
    resume ((lift (hold_action s.actions action) >>= transition pressed) s)
      (λ t s'. resume (transitions_of pressed actions s') (λ ts. return (t ∷ ts)))

module _ (env : Environment) where
  unfoldable pub arm_guarded_physical_frame_inner :
      SessionIdentity → (sequence expires_at : ℕ) → List Key → InputPermit → ℕ → Method (Unit {0})
  unfolding change_session is_fresh_gate are_hold_keys call next_guardian_sequence physical_actions
  arm_guarded_physical_frame_inner session sequence expires_at keys permit now = do
    require (permit_is_valid_for permit now session && ltb now expires_at) "input.permit_invalid"
    change_session env session
    (λ s. require (is_fresh_gate sequence s) "input.sequence_invalid" s)
    guarded_actions ← (λ s. lift (physical_actions s.actions keys []) s)
    (λ s. require (are_hold_keys s.actions guarded_actions) "input.action_kind_invalid" s)
    call env validate_before_input
    guardian_sequence ← next_guardian_sequence
    call env (guardian_register_intent guardian_sequence guarded_actions)
    call env (guardian_commit_holds guardian_sequence guarded_actions)
    modify (λ s. record s {
      active_session = some session;
      sequence = sequence;
      guardian_sequence = guardian_sequence;
      expires_at = some expires_at;
      held_actions = [];
      guarded_actions = guarded_actions;
      input_gate_open = true;
    })

  unfoldable pub arm_guarded_physical_frame :
      SessionIdentity → (sequence expires_at : ℕ) → List Key → InputPermit → ℕ → Method (Unit {0})
  unfolding arm_guarded_physical_frame_inner fail_closed
  arm_guarded_physical_frame session sequence expires_at keys permit now =
      map_err (fail_closed env emergency_stop)
        (arm_guarded_physical_frame_inner session sequence expires_at keys permit now)

  unfoldable pub renew_guarded_inner :
      SessionIdentity → (sequence expires_at : ℕ) → InputPermit → ℕ → Method (Unit {0})
  unfolding require_guarded_gate call
  renew_guarded_inner session sequence expires_at permit now = do
    require_guarded_gate session permit now
    (λ s. require (ltb s.sequence sequence && ltb now expires_at) "input.sequence_invalid" s)
    (λ s. call env (guardian_heartbeat s.guardian_sequence) s)
    modify (λ s. record s { sequence = sequence; expires_at = some expires_at })

  unfoldable pub renew_guarded_physical_frame :
      SessionIdentity → (sequence expires_at : ℕ) → InputPermit → ℕ → Method (Unit {0})
  unfolding renew_guarded_inner fail_closed
  renew_guarded_physical_frame session sequence expires_at permit now =
      map_err (fail_closed env guardian_failure)
        (renew_guarded_inner session sequence expires_at permit now)

  unfoldable pub send_transitions : List (ℕ × Bool × Bool) → Method (Unit {0})
  unfolding call
  send_transitions [] = return tt
  send_transitions (t ∷ ts) = call env (apply_guarded_key_transitions (t ∷ ts))

  unfoldable pub apply_guarded_inner :
      SessionIdentity → List Key → InputPermit → ℕ → Method (Unit {0})
  unfolding require_guarded_gate physical_actions transitions_of send_transitions
  apply_guarded_inner session keys permit now = do
    require_guarded_gate session permit now
    desired ← (λ s. lift (physical_actions s.actions keys []) s)
    (λ s. require (is_subset desired s.guarded_actions) "input.action_not_guarded" s)
    released ← (λ s. transitions_of false (difference s.held_actions desired) s)
    pressed ← (λ s. transitions_of true (difference desired s.held_actions) s)
    send_transitions (released ++ pressed)
    modify (λ s. record s { held_actions = desired })

  unfoldable pub apply_guarded_physical_frame :
      SessionIdentity → List Key → InputPermit → ℕ → Method (Unit {0})
  unfolding apply_guarded_inner fail_closed
  apply_guarded_physical_frame session keys permit now =
      map_err (fail_closed env platform_failure) (apply_guarded_inner session keys permit now)
