-- ===== src/Core/State/Ops.antt =====
-- crates/fairypam-agent-core/src/state.rs: the operations of the state machine.
use fairypam_rust_agent.Base.{
  ℕ, Bool, true, false, not, ◌&&◌, ◌||◌, none, some, List, [], ◌∷◌, Bytes, beq, any, leb, ◌==◌,
  is_empty, min, if◌then◌else◌,
}
use fairypam_rust_agent.Base.Result.{Result, ok, err}
use fairypam_rust_agent.Core.Error.{AgentError}
use fairypam_rust_agent.Core.Profile.{VerifiedProfile, External, profile_of}
use fairypam_rust_agent.Core.Profile.Validate.{to_ascii_lowercase}
use fairypam_rust_agent.Core.Target.{IntegrityLevel, TargetBinding, TargetSnapshot, binding_eq}
use fairypam_rust_agent.Core.Title.{wildcard_match}
use fairypam_rust_agent.Core.State.{
  AgentState, Event, Effect, SessionIdentity, Machine, LocalAuthorization, starting, disconnected,
  connected_idle, profile_loaded, target_locked, preflight_passed, dry_run, armed, controlling,
  failed_safe, stop_control, control_disconnected, focus_lost, lease_expired, guardian_unhealthy,
  fail_safe, open_input_gate, close_input_gate, release_all, denied, granted, state_eq, failure,
  is_some,
}

-- What a method returns, and the machine after it.
abbrev pub Step : Type 0
Step = Result AgentError (List Effect) × Machine

abbrev pub refuse : Machine → AgentError → Step
refuse m e = (err e, m)

abbrev pub invalid_transition : AgentError
invalid_transition = failure "state.invalid_transition"

unfoldable pub new : Machine
new = record {
  current = starting;
  control_connected = false;
  active_profile = none;
  active_binding = none;
  active_session = none;
  authorization_expires_at = none;
}

-- `self.require_state(expected, …)?` before the rest of a method.
abbrev pub require_state : Machine → AgentState → Step → Step
require_state m expected rest =
    if state_eq m.current expected then rest else refuse m invalid_transition

abbrev pub clear_session_context : Machine → Machine
clear_session_context m = record m {
  active_profile = none;
  active_binding = none;
  active_session = none;
  authorization_expires_at = none;
}

abbrev pub safety_effects : List Effect
safety_effects = close_input_gate ∷ release_all ∷ []

unfoldable pub start_completed : Machine → Step
start_completed m = require_state m starting (ok [], record m { current = disconnected })

unfoldable pub control_connected : SessionIdentity → Machine → Step
control_connected session m = require_state m disconnected (
    if is_empty session.agent_id || (is_empty session.session_id || session.generation == 0)
    then refuse m (failure "session.invalid")
    else (
      ok [],
      record m {
        current = connected_idle;
        control_connected = true;
        active_session = some session;
      },
    ))

unfoldable pub activate_profile : VerifiedProfile → Machine → Step
activate_profile profile m = require_state m connected_idle (
  ok [],
  record m { current = profile_loaded; active_profile = some profile; active_binding = none },
)

abbrev eq_ignore_ascii_case : Bytes → Bytes → Bool
eq_ignore_ascii_case a b = beq (to_ascii_lowercase a) (to_ascii_lowercase b)

abbrev contains_ignore_ascii_case : List Bytes → Bytes → Bool
contains_ignore_ascii_case values candidate =
    any (λ value. eq_ignore_ascii_case value candidate) values

abbrev is_elevated : IntegrityLevel → Bool
is_elevated IntegrityLevel.high = true
is_elevated IntegrityLevel.system = true
is_elevated _ = false

unfoldable pub binding_matches_profile : External → TargetBinding → VerifiedProfile → Bool
binding_matches_profile x binding verified =
    let profile = profile_of verified in
    let target = profile.target in
    beq binding.profile_id profile.id
    && (beq binding.profile_version profile.version
        && (contains_ignore_ascii_case target.process_names binding.process_name
            && (contains_ignore_ascii_case target.process_path_sha256 binding.process_path_sha256
                && (contains_ignore_ascii_case target.window_classes binding.window_class
                    && (any (λ p. wildcard_match x.to_lowercase p binding.window_title)
                          target.title_patterns
                        && (leb target.minimum_client_width binding.client_rect.width
                            && (leb target.minimum_client_height binding.client_rect.height
                                && (leb target.minimum_dpi binding.dpi
                                    && (not target.require_elevated
                                        || is_elevated binding.integrity)))))))))

unfoldable pub lock_target : External → TargetBinding → Machine → Step
lock_target x binding m = require_state m profile_loaded (elim m.active_profile [
  | none ↦ refuse m (failure "state.verified_profile_required")
  | some profile ↦
      if not (binding_matches_profile x binding profile)
      then refuse m (failure "target.profile_mismatch")
      else (ok [], record m { current = target_locked; active_binding = some binding })
])

unfoldable pub on_preflight_passed : TargetSnapshot → Machine → Step
on_preflight_passed snapshot m = require_state m target_locked (elim m.active_binding [
  | none ↦ refuse m (failure "state.target_binding_required")
  | some binding ↦
      if not (binding_eq snapshot.binding binding)
        || (not snapshot.foreground || (snapshot.minimized || not snapshot.capturable))
      then refuse m (failure "target.preflight_failed")
      else (ok [], record m { current = preflight_passed })
])

unfoldable pub enter_dry_run : Machine → Step
enter_dry_run m = require_state m preflight_passed (
    if not (is_some m.active_profile) || not (is_some m.active_binding)
    then refuse m (failure "state.preflight_proof_required")
    else (ok [], record m { current = dry_run }))

unfoldable pub authorized_expiry : LocalAuthorization → ℕ → Result AgentError ℕ
authorized_expiry authorization now = elim (authorization now) [
  | denied ↦ err (failure "authorization.denied")
  | granted expires_at ↦
      if leb expires_at now then err (failure "authorization.expired") else ok expires_at
]

unfoldable pub request_arm : LocalAuthorization → ℕ → ℕ → Machine → Step
unfolding authorized_expiry
request_arm authorization now requested_expires_at m =
    if not (state_eq m.current dry_run)
      || (not m.control_connected
          || (not (is_some m.active_profile) || not (is_some m.active_binding)))
    then refuse m invalid_transition
    else elim (authorized_expiry authorization now) [
      | err e ↦ refuse m e
      | ok authorized ↦
          let expires_at = min authorized requested_expires_at in
          if leb expires_at now
          then refuse m (failure "authorization.expired")
          else (ok [], record m { current = armed expires_at })
    ]

abbrev begin_from : AgentState → ℕ → Machine → Step
begin_from (armed expires_at) now m =
    if leb expires_at now
    then (err (failure "authorization.expired"), record m { current = dry_run })
    else (
      ok (open_input_gate ∷ []),
      record m { current = controlling; authorization_expires_at = some expires_at },
    )
begin_from _ now m = refuse m invalid_transition

unfoldable pub begin_control : ℕ → Machine → Step
begin_control now m = begin_from m.current now m

-- The method returns `()` on success: an empty list of effects here.
unfoldable pub renew_control_authorization : LocalAuthorization → ℕ → ℕ → Machine → Step
unfolding authorized_expiry
renew_control_authorization authorization now requested_expires_at m =
    require_state m controlling (elim (authorized_expiry authorization now) [
      | err e ↦ refuse m e
      | ok authorized ↦
          let expires_at = min authorized requested_expires_at in
          if leb expires_at now
          then refuse m (failure "authorization.expired")
          else (ok [], record m { authorization_expires_at = some expires_at })
    ])

abbrev is_armed : AgentState → Bool
is_armed (armed _) = true
is_armed _ = false

abbrev to_dry_run : Machine → Step
to_dry_run m = (ok safety_effects, record m { current = dry_run; authorization_expires_at = none })

abbrev lose_control : Machine → Step
lose_control m =
    if is_armed m.current || state_eq m.current controlling
    then to_dry_run m
    else refuse m invalid_transition

unfoldable pub apply : Event → Machine → Step
apply control_disconnected m =
    let cleared = clear_session_context (record m { control_connected = false }) in
    (
      ok safety_effects,
      if state_eq m.current failed_safe then cleared else record cleared { current = disconnected },
    )
apply fail_safe m = (ok safety_effects, record (clear_session_context m) { current = failed_safe })
apply focus_lost m = lose_control m
apply lease_expired m = lose_control m
apply guardian_unhealthy m = lose_control m
apply stop_control m =
    if state_eq m.current controlling then to_dry_run m else refuse m invalid_transition
