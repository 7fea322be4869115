-- ===== src/Core/State/Capability.antt =====
-- crates/fairypam-agent-core/src/state.rs: the proof that remote input is permitted.
use fairypam_rust_agent.Base.{ℕ, Bool, true, false, not, ◌&&◌, Option, none, some, Bytes, beq, ltb}
use fairypam_rust_agent.Base.Result.{Result, ok, err}
use fairypam_rust_agent.Core.Error.{AgentError}
use fairypam_rust_agent.Core.Profile.{VerifiedProfile}
use fairypam_rust_agent.Core.Target.{TargetBinding, TargetSnapshot, binding_eq}
use fairypam_rust_agent.Core.State.{
  SessionIdentity, Machine, controlling, state_eq, session_eq, failure, is_some, is_some_and,
}

-- It borrows the machine, which cannot change while the capability lives.
pub record InputCapability : Type 0 where
  pub machine : Machine
  pub session : SessionIdentity
  pub binding : TargetBinding
  pub profile : VerifiedProfile
  pub expires_at : ℕ

unfoldable pub is_valid_for : InputCapability → ℕ → SessionIdentity → Bool
is_valid_for c now session =
    ltb now c.expires_at
    && (state_eq c.machine.current controlling
        && (is_some_and (λ s. session_eq s c.session) c.machine.active_session
            && (is_some_and (λ b. binding_eq b c.binding) c.machine.active_binding
                && session_eq c.session session)))

unfoldable pub is_valid_for_target : InputCapability → ℕ → SessionIdentity → TargetBinding → Bool
unfolding is_valid_for
is_valid_for_target c now session binding =
    is_valid_for c now session && binding_eq c.binding binding

unfoldable pub is_valid_for_target_and_profile :
    InputCapability → ℕ → SessionIdentity → TargetBinding → Bytes → Bool
unfolding is_valid_for_target
is_valid_for_target_and_profile c now session binding profile_content_sha256 =
    is_valid_for_target c now session binding && beq c.profile.content_sha256 profile_content_sha256

unfoldable pub permitted : Machine → ℕ → TargetSnapshot → Bool → Bool
permitted m now snapshot remote_session_valid =
    state_eq m.current controlling
    && (remote_session_valid
        && (is_some_and (λ expires_at. ltb now expires_at) m.authorization_expires_at
            && (is_some m.active_profile
                && (is_some_and (λ binding. binding_eq binding snapshot.binding) m.active_binding
                    && (is_some m.active_session
                        && (snapshot.foreground
                            && (not snapshot.minimized && snapshot.capturable)))))))

-- The four `expect`s: the code would panic where this is `none`.
abbrev pub expect_all :
    Machine
    → Option SessionIdentity
    → Option TargetBinding
    → Option VerifiedProfile
    → Option ℕ
    → Option InputCapability
expect_all m (some session) (some binding) (some profile) (some expires_at) = some record {
  machine = m;
  session = session;
  binding = binding;
  profile = profile;
  expires_at = expires_at;
}
expect_all m _ _ _ _ = none

-- `none` is a panic.
unfoldable pub issue_input_capability :
    Machine → ℕ → TargetSnapshot → Bool → Option (Result AgentError InputCapability)
unfolding permitted
issue_input_capability m now snapshot remote_session_valid =
    elim (permitted m now snapshot remote_session_valid) [
      | false ↦ some (err (failure "input.capability_denied"))
      | true ↦
          elim (expect_all m m.active_session m.active_binding m.active_profile
            m.authorization_expires_at) [ none ↦ none | some capability ↦ some (ok capability) ]
    ]
