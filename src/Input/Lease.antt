-- ===== src/Input/Lease.antt =====
-- crates/fairypam-agent-input/src/lease.rs: the executor of input leases, its state and its means.
-- `InputPlatform` and `GuardianClient` are traits: what implements them is an `Environment`, which
-- answers each call by the calls made so far, and the executor's state holds those calls.
pub mod Gate
pub mod Apply
pub mod Guarded
pub mod Pulse
pub mod Frame
pub mod Requests
pub mod Shut
pub mod Closed
pub mod Permit
pub mod Tick
pub mod Deadline
pub mod Kept
pub mod Served
pub mod Keys
pub mod Applied
use text.Mathlib.Text.{◌==◌, starts_with}
use fairypam_rust_agent.Base.{
  ℕ, suc, ◌+◌, ◌^◌, Bool, true, false, ◌&&◌, ◌||◌, Option, none, some, List, [], ◌∷◌, String, ltb,
  if◌then◌else◌,
}
use fairypam_rust_agent.Base.Int.{ℤ}
use fairypam_rust_agent.Base.Sets.{BTreeSet}
use fairypam_rust_agent.Base.Result.{Result, ok, err}
use fairypam_rust_agent.Core.Profile.{VerifiedProfile}
use fairypam_rust_agent.Core.State.{SessionIdentity}
use fairypam_rust_agent.Guardian.Protocol.{ActionId, ReleaseReason}
use fairypam_rust_agent.Input.Action.{
  SafetyError, SemanticMouseButton, ResolvedAction, ActionMap, safety_error, resolve, hold_key,
  pulse_key, client_point_click, from_verified_profile,
}

-- The calls of the platform, and, with a `guardian_` name, of the Guardian client.
pub data Call : Type 0 where
  validate_before_input : Call
  press_key release_key pulsed_key : (code : ℕ) (extended : Bool) → Call
  apply_guarded_key_transitions : List (ℕ × Bool × Bool) → Call
  press_mouse_button release_mouse_button : SemanticMouseButton → Call
  wheel : (delta : ℤ) (expires_at : ℕ) → Call
  wheel_at_client_point : (x_ppm y_ppm : ℕ) (delta : ℤ) (expires_at : ℕ) → Call
  emergency_release : (scan_codes : List ℕ) → Call
  relative_mouse : (delta_x delta_y : ℤ) → Call
  clicked_client_point : SemanticMouseButton → (x_ppm y_ppm expires_at : ℕ) → Call
  guardian_register_intent guardian_commit_holds : (sequence : ℕ) → BTreeSet → Call
  guardian_heartbeat : (sequence : ℕ) → Call
  guardian_release_all : ReleaseReason → Call

-- `none` is success. The calls made before stand newest first.
abbrev pub Environment : Type 0
Environment = List Call → Call → Option SafetyError

pub record InputLease : Type 0 where
  pub session : SessionIdentity
  pub sequence : ℕ
  pub expires_at : ℕ
  pub desired_holds : BTreeSet

-- `calls` stands for the platform and the Guardian client.
pub record LeaseExecutor : Type 0 where
  pub actions : ActionMap
  pub calls : List Call
  pub active_session : Option SessionIdentity
  pub sequence : ℕ
  pub guardian_sequence : ℕ
  pub expires_at : Option ℕ
  pub held_actions : BTreeSet
  pub guarded_actions : BTreeSet
  pub input_gate_open : Bool
  pub last_release_reason : Option ReleaseReason

unfoldable pub with_action_map : ActionMap → LeaseExecutor
with_action_map actions = record {
  actions = actions;
  calls = [];
  active_session = none;
  sequence = 0;
  guardian_sequence = 0;
  expires_at = none;
  held_actions = [];
  guarded_actions = [];
  input_gate_open = false;
  last_release_reason = none;
}

unfoldable pub new : VerifiedProfile → Result SafetyError LeaseExecutor
unfolding from_verified_profile with_action_map
new profile = elim (from_verified_profile profile) [
  | err e ↦ err e
  | ok actions ↦ ok (with_action_map actions)
]

-- An error that a method returns, or a panic (`unreachable!`).
pub data Failure : Type 0 where
  fault : SafetyError → Failure
  panic : Failure

-- A method that mutates the executor: its changes stay when it fails.
abbrev pub Method : Type 0 → Type 0
Method A = LeaseExecutor → Result Failure A × LeaseExecutor

abbrev pub resume :
    {A B : Type 0}
    → Result Failure A × LeaseExecutor
    → (A → Method B)
    → Result Failure B × LeaseExecutor
resume (ok a, s) f = f a s
resume (err e, s) f = (err e, s)

infixl 5 ◌>>=◌ ◌>>◌
abbrev pub ◌>>=◌ : {A B : Type 0} → Method A → (A → Method B) → Method B
◌>>=◌ m f s = resume (m s) f

abbrev pub ◌>>◌ : {B : Type 0} → Method (Unit {0}) → Method B → Method B
m >> k = m >>= λ _. k

abbrev pub return : {A : Type 0} → A → Method A
return a s = (ok a, s)

abbrev pub fail : {A : Type 0} → String → Method A
fail code s = (err (fault (safety_error code)), s)

abbrev pub lift : {A : Type 0} → Result SafetyError A → Method A
lift (ok a) s = (ok a, s)
lift (err e) s = (err (fault e), s)

abbrev pub require : Bool → String → Method (Unit {0})
require true code s = (ok tt, s)
require false code s = (err (fault (safety_error code)), s)

abbrev pub modify : (LeaseExecutor → LeaseExecutor) → Method (Unit {0})
modify f s = (ok tt, f s)

-- `result.map_err(|error| …)` where the closure runs a method; a panic goes through.
abbrev pub recover :
    {A : Type 0}
    → (SafetyError → Method A)
    → Result Failure A × LeaseExecutor
    → Result Failure A × LeaseExecutor
recover handler (ok a, s) = (ok a, s)
recover handler (err (fault e), s) = handler e s
recover handler (err panic, s) = (err panic, s)

abbrev pub map_err : {A : Type 0} → (SafetyError → Method A) → Method A → Method A
map_err handler m s = recover handler (m s)

-- The loop `for a in list { body(a)?; }`.
unfoldable pub for_each : {A : Type 0} → (A → Method (Unit {0})) → List A → Method (Unit {0})
for_each body [] s = (ok tt, s)
for_each body (a ∷ list) s = resume (body a s) (λ _. for_each body list)

abbrev pub answer : Option SafetyError → Result Failure (Unit {0})
answer none = ok tt
answer (some e) = err (fault e)

unfoldable pub call : Environment → Call → Method (Unit {0})
call env c s = (answer (env s.calls c), record s { calls = c ∷ s.calls })

-- `u64::checked_add(1)`.
unfoldable pub next_guardian_sequence : Method ℕ
next_guardian_sequence s =
    if ltb (s.guardian_sequence + 1) (2 ^ 64)
    then (ok (s.guardian_sequence + 1), s)
    else (err (fault (safety_error "guardian.sequence_invalid")), s)

-- The three kinds of action that may be held.
abbrev pub only_held : Result SafetyError ResolvedAction → Result SafetyError ResolvedAction
only_held (ok (hold_key code extended)) = ok (hold_key code extended)
only_held (ok (pulse_key code extended)) = ok (pulse_key code extended)
only_held (ok (client_point_click button)) = ok (client_point_click button)
only_held (ok _) = err (safety_error "input.action_kind_invalid")
only_held (err e) = err e

unfoldable pub hold_action : ActionMap → ActionId → Result SafetyError ResolvedAction
unfolding resolve
hold_action actions action = only_held (resolve actions action)
