-- ===== src/Core/State/Permission.antt =====
-- crates/fairypam-agent-core/src/state.rs: when remote input is permitted, and until when.
use fairypam_rust_agent.Base.{
  All, min, ℕ, ◌<◌, Bool, true, false, none, some, List, [], ◌∷◌, ◌≡◌, ◌≢◌, arith,
}
use fairypam_rust_agent.Base.Result.{ok, err}
use fairypam_rust_agent.Core.Profile.{External}
use fairypam_rust_agent.Core.Target.{TargetSnapshot, binding_eq_iff}
use fairypam_rust_agent.Core.State.{
  Machine, Event, AuthorizationState, LocalAuthorization, controlling, armed, granted, denied,
  deadline_of, Effect, session_eq_iff, failure, control_disconnected,
}
use fairypam_rust_agent.Core.State.Capability.{
  InputCapability, issue_input_capability, is_valid_for_target,
}
use fairypam_rust_agent.Core.State.Ops.{
  new, start_completed, control_connected, activate_profile, lock_target, on_preflight_passed,
  enter_dry_run, request_arm, begin_control, renew_control_authorization, apply,
}
use fairypam_rust_agent.Core.State.Run.{
  Call, started, connected, activates, locks, preflights, dry_runs, arms, begins, renews, happens,
  step, run,
}

-- The request for a capability never reaches one of its `expect`s without a value.
pub issue_input_capability-ne-none :
    (m : Machine) (now : ℕ) (snapshot : TargetSnapshot) (remote : Bool)
    → issue_input_capability m now snapshot remote ≢ none
unfolding issue_input_capability
issue_input_capability-ne-none m now snapshot remote h = ground arith

-- What an issued capability stands for.
pub record IsIssued (m : Machine) (now : ℕ) (snapshot : TargetSnapshot) (c : InputCapability)
    : Type 0 where
  pub in_control : m.current ≡ controlling
  pub of_machine : c.machine ≡ m
  pub session : m.active_session ≡ some c.session
  pub binding : m.active_binding ≡ some c.binding
  pub profile : m.active_profile ≡ some c.profile
  pub expiry : m.authorization_expires_at ≡ some c.expires_at
  pub lasting : now < c.expires_at
  pub on_target : snapshot.binding ≡ c.binding
  pub foreground : snapshot.foreground ≡ true
  pub visible : snapshot.minimized ≡ false
  pub capturable : snapshot.capturable ≡ true
  pub valid : is_valid_for_target c now c.session snapshot.binding ≡ true

-- A capability is issued only in `controlling` and for a valid remote session. It names the active
-- session, binding and profile, lasts as long as the authorization, which lies ahead, is for the
-- target of the snapshot, which is in the foreground, not minimized and can be captured, and it is
-- valid at once.
pub issue_input_capability-IsIssued :
    (m : Machine) (now : ℕ) (snapshot : TargetSnapshot) (remote : Bool) {c : InputCapability}
    → issue_input_capability m now snapshot remote ≡ some (ok c)
    → IsIssued m now snapshot c × (remote ≡ true)
unfolding issue_input_capability is_valid_for_target
issue_input_capability-IsIssued m now snapshot remote {c} h = ground (
  arith,
  binding_eq_iff c.binding snapshot.binding,
  binding_eq_iff c.binding c.binding,
  session_eq_iff c.session c.session,
)

-- Once a safety event has been accepted no capability is issued, whatever the snapshot.
pub apply-denied :
    (event : Event) (m : Machine) (now : ℕ) (snapshot : TargetSnapshot) (remote : Bool)
    → (apply event m).0 ≢ err (failure "state.invalid_transition")
    → issue_input_capability (apply event m).1 now snapshot remote
      ≡ some (err (failure "input.capability_denied"))
unfolding issue_input_capability apply
apply-denied control_disconnected m now snapshot remote h = ground arith
apply-denied event m now snapshot remote h = ground arith

-- A grant of the local user at that time; the earlier of its end and the requested one lies ahead.
abbrev pub Grants : LocalAuthorization → ℕ → ℕ → (ℕ → Type 0) → Type 0
Grants authorization now requested Deadline =
    (until : ℕ) × (authorization now ≡ granted until)
    × (now < min until requested)
    × Deadline (min until requested)

granted_until : AuthorizationState → ℕ
granted_until denied = 0
granted_until (granted until) = until

-- Arming succeeds only on a grant of the local user that is asked for at that time. It changes the
-- state alone, to `armed` until the earlier of the grant's end and the requested one, which lies
-- ahead.
pub request_arm-Grants :
    (authorization : LocalAuthorization) (now requested : ℕ) (m : Machine) {effects : List Effect}
    → (request_arm authorization now requested m).0 ≡ ok effects
    → Grants authorization now requested (λ deadline.
      (request_arm authorization now requested m).1 ≡ record m { current = armed deadline })
unfolding request_arm granted_until
request_arm-Grants authorization now requested m h =
    (granted_until (authorization now), ground arith, ground arith, ground arith)

-- Renewing succeeds only on a grant of the local user that is asked for at that time. It changes the
-- deadline alone, to the earlier of the grant's end and the requested one, which lies ahead.
pub renew-Grants :
    (authorization : LocalAuthorization) (now requested : ℕ) (m : Machine) {effects : List Effect}
    → (renew_control_authorization authorization now requested m).0 ≡ ok effects
    → Grants authorization now requested (λ deadline.
      (renew_control_authorization authorization now requested m).1
      ≡ record m { authorization_expires_at = some deadline })
unfolding renew_control_authorization granted_until
renew-Grants authorization now requested m h =
    (granted_until (authorization now), ground arith, ground arith, ground arith)

-- Calls in which the local user grants nothing.
abbrev pub Ungranted : Call → Type 0
Ungranted (arms authorization now requested) = authorization now ≡ denied
Ungranted (renews authorization now requested) = authorization now ≡ denied
Ungranted _ = Unit {0}

abbrev pub IsUnarmed : Machine → Type 0
IsUnarmed m = (m.current ≢ controlling) × ((deadline : ℕ) → m.current ≢ armed deadline)

step-unarmed :
    (x : External) (c : Call) (m : Machine) (deadline : ℕ)
    → Ungranted c
    → m.current ≢ controlling
    → m.current ≢ armed (deadline_of m.current)
    → ((step x c m).1.current ≢ controlling) × ((step x c m).1.current ≢ armed deadline)
unfolding step
step-unarmed x started m d u h k = unfold start_completed in ground arith
step-unarmed x (connected session) m d u h k = unfold control_connected in ground arith
step-unarmed x (activates profile) m d u h k = unfold activate_profile in ground arith
step-unarmed x (locks binding) m d u h k = unfold lock_target in ground arith
step-unarmed x (preflights snapshot) m d u h k = unfold on_preflight_passed in ground arith
step-unarmed x dry_runs m d u h k = unfold enter_dry_run in ground arith
step-unarmed x (arms authorization now requested) m d u h k = unfold request_arm in ground arith
step-unarmed x (begins now) m d u h k = unfold begin_control in ground arith
step-unarmed x (renews authorization now requested) m d u h k =
    unfold renew_control_authorization in ground arith
step-unarmed x (happens event) m d u h k = unfold apply in ground arith

run-IsUnarmed :
    (x : External) (calls : List Call) (m : Machine)
    → All Ungranted calls
    → IsUnarmed m
    → IsUnarmed (run x calls m).1
unfolding run
run-IsUnarmed x [] m u h = h
run-IsUnarmed x (c ∷ calls) m u h = run-IsUnarmed x calls (step x c m).1 u.1 (
  (step-unarmed x c m 0 u.0 h.0 (h.1 _)).0,
  λ deadline. (step-unarmed x c m deadline u.0 h.0 (h.1 _)).1,
)

-- If the local user grants nothing whenever the agent asks, no sequence of calls from the start
-- arms the machine or brings it into `controlling`.
pub run-new-IsUnarmed :
    (x : External) (calls : List Call) → All Ungranted calls → IsUnarmed (run x calls new).1
run-new-IsUnarmed x calls u =
    run-IsUnarmed x calls new u (unfold new in ((λ e. cc), λ deadline e. cc))
