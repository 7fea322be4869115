-- ===== src/Input/Lease/Applied/Meaning.antt =====
-- crates/fairypam-agent-input/src/lease.rs: what it means that a lease is applied.
use fairypam_rust_agent.Base.{
  ℕ, ◌<◌, ◌+◌, true, false, some, List, [], ◌∷◌, ◌≡◌, ◌⊎◌, Bytes, ◌&&◌, not,
}
use fairypam_rust_agent.Base.Sets.{BTreeSet, contains}
use fairypam_rust_agent.Core.State.{session_eq, is_some_and}
use fairypam_rust_agent.Guardian.Protocol.{session_changed}
use fairypam_rust_agent.Input.Action.Physical.{all_scan_codes}
use fairypam_rust_agent.Input.Lease.{
  Call, LeaseExecutor, InputLease, validate_before_input, guardian_register_intent,
  guardian_commit_holds, guardian_release_all, emergency_release,
}
use fairypam_rust_agent.Input.Lease.Keys.{calls_for, pressing, releasing}

-- Where the calls of a lease begin, and what is held there: behind a release of all input, and
-- nothing, if the session changes.
abbrev pub Begins : InputLease → LeaseExecutor → List Call → BTreeSet → Type 0
Begins lease before calls previous =
    ((is_some_and (λ active. not (session_eq active lease.session)) before.active_session ≡ false)
      × (calls ≡ before.calls)
      × (previous ≡ before.held_actions)
      × (before.sequence < lease.sequence))
    ⊎ ((is_some_and (λ active. not (session_eq active lease.session)) before.active_session ≡ true)
        × (calls
            ≡ guardian_release_all session_changed
              ∷ emergency_release (all_scan_codes before.actions)
              ∷ before.calls)
        × (previous ≡ []))

pub record IsApplied (lease : InputLease) (now : ℕ) (before after : LeaseExecutor) : Type 0 where
  pub gate : after.input_gate_open ≡ true
  pub session : after.active_session ≡ some lease.session
  pub sequence : after.sequence ≡ lease.sequence
  pub deadline : after.expires_at ≡ some lease.expires_at
  pub held : after.held_actions ≡ lease.desired_holds
  pub unguarded : after.guarded_actions ≡ []
  pub same_actions : after.actions ≡ before.actions
  pub lasting : now < lease.expires_at
  pub positive : 0 < lease.sequence
  pub guardian_sequence : after.guardian_sequence ≡ before.guardian_sequence + 1
  pub start : List Call
  pub previous : BTreeSet
  pub released : BTreeSet
  pub pressed : BTreeSet
  pub begins : Begins lease before start previous
  pub releases :
      (b : Bytes)
      → contains b released ≡ (contains b previous && not (contains b lease.desired_holds))
  pub presses :
      (b : Bytes)
      → contains b pressed ≡ (contains b lease.desired_holds && not (contains b previous))
  pub calls :
      after.calls
      ≡ guardian_commit_holds after.guardian_sequence lease.desired_holds
        ∷ calls_for pressing before.actions pressed (
            calls_for releasing before.actions released (
              guardian_register_intent after.guardian_sequence lease.desired_holds
              ∷ validate_before_input
              ∷ start))
