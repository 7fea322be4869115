-- ===== src/Core/State.antt =====
-- crates/fairypam-agent-core/src/state.rs and platform.rs: the safety state machine. A method
-- returns its result with the machine as it leaves it; an `Instant` is a number of nanoseconds.
pub mod Capability
pub mod Ops
pub mod Run
pub mod Gate
pub mod Permission
pub mod Invariant
use fairypam_rust_agent.Base.{
  ℕ, Bool, true, false, not, ◌&&◌, ◌||◌, Option, none, some, List, [], ◌∷◌, Bytes, beq, any, leb,
  ltb, ◌==◌, is_empty, min, ◌≡◌, ◌↔◌, arith, beq_iff, String,
}
use fairypam_rust_agent.Core.Error.{AgentError}
use fairypam_rust_agent.Core.Profile.{VerifiedProfile}
use fairypam_rust_agent.Core.Target.{TargetBinding}

pub data AgentState : Type 0 where
  starting disconnected connected_idle profile_loaded target_locked preflight_passed dry_run :
      AgentState
  armed : (expires_at : ℕ) → AgentState
  controlling recovering_local failed_safe : AgentState

pub data Event : Type 0 where
  stop_control control_disconnected focus_lost lease_expired guardian_unhealthy fail_safe : Event

pub data Effect : Type 0 where
  open_input_gate close_input_gate release_all : Effect

pub record SessionIdentity : Type 0 where
  pub agent_id : Bytes
  pub session_id : Bytes
  pub generation : ℕ

pub record Machine : Type 0 where
  pub current : AgentState
  pub control_connected : Bool
  pub active_profile : Option VerifiedProfile
  pub active_binding : Option TargetBinding
  pub active_session : Option SessionIdentity
  pub authorization_expires_at : Option ℕ

-- platform.rs: what the local user allows, asked at a time.
pub data AuthorizationState : Type 0 where
  denied : AuthorizationState
  granted : (expires_at : ℕ) → AuthorizationState

abbrev pub LocalAuthorization : Type 0
LocalAuthorization = ℕ → AuthorizationState

abbrev pub deny_all : LocalAuthorization
deny_all now = denied

-- The derived `PartialEq` of the state, by its variant and the deadline of `armed`.
abbrev pub variant : AgentState → ℕ
variant starting = 0
variant disconnected = 1
variant connected_idle = 2
variant profile_loaded = 3
variant target_locked = 4
variant preflight_passed = 5
variant dry_run = 6
variant (armed _) = 7
variant controlling = 8
variant recovering_local = 9
variant failed_safe = 10

abbrev pub deadline_of : AgentState → ℕ
deadline_of (armed expires_at) = expires_at
deadline_of _ = 0

abbrev pub state_eq : AgentState → AgentState → Bool
state_eq s t = variant s == variant t && deadline_of s == deadline_of t

unfoldable pub session_eq : SessionIdentity → SessionIdentity → Bool
session_eq a b =
    beq a.agent_id b.agent_id && (beq a.session_id b.session_id && a.generation == b.generation)

pub session_eq_iff : (a b : SessionIdentity) → (session_eq a b ≡ true) ↔ (a ≡ b)
unfolding session_eq
session_eq_iff a b = (
  λ h. ground (arith, beq_iff a.agent_id b.agent_id, beq_iff a.session_id b.session_id),
  λ h. ground (arith, beq_iff a.agent_id b.agent_id, beq_iff a.session_id b.session_id),
)

abbrev pub failure : String → AgentError
failure code = record { code = code }

abbrev pub is_some {ℓ} : {A : Type ℓ} → Option A → Bool
is_some none = false
is_some (some a) = true

abbrev pub is_some_and {ℓ} : {A : Type ℓ} → (A → Bool) → Option A → Bool
is_some_and p none = false
is_some_and p (some a) = p a
