-- ===== src/Input/Action.antt =====
-- crates/fairypam-agent-input/src/action.rs: the semantic actions that a profile allows.
pub mod Physical
pub mod Codes
pub mod Names
pub mod Frames
use fairypam_rust_agent.Base.{
  ℕ, Bool, true, false, ◌&&◌, ◌||◌, Option, none, some, List, [], ◌∷◌, ◌++◌, String, Bytes, ◌==◌,
  if◌then◌else◌, Ordering, compare,
}
use fairypam_rust_agent.Base.Int.{ℤ}
use fairypam_rust_agent.Base.Sets.{BTreeSet, insert, from_list, get, collect_map}
use fairypam_rust_agent.Base.Result.{Result, ok, err, ok_or, try_map, ◌>>=◌}
use fairypam_rust_agent.Core.Profile.{
  ClientPointButton, ActionDefinition, VerifiedProfile, profile_of, hold, pulse,
}
use fairypam_rust_agent.Core.State.{is_some}
use fairypam_rust_agent.Guardian.Protocol.{
  ActionId, PhysicalHold, MouseButton, new_action_id, scan_code, mouse_button,
}

-- lease.rs: its message is text for people.
pub record SafetyError : Type 0 where
  pub code : String

abbrev pub safety_error : String → SafetyError
safety_error code = record { code = code }

pub data SemanticMouseButton : Type 0 where
  left right middle x1 x2 : SemanticMouseButton

pub data ResolvedAction : Type 0 where
  hold_key : (code : ℕ) (extended : Bool) → ResolvedAction
  pulse_key : (code : ℕ) (extended : Bool) → ResolvedAction
  wheel : (maximum_delta : ℤ) → ResolvedAction
  relative_mouse : (maximum_delta : ℤ) → ResolvedAction
  client_point_click : (button : SemanticMouseButton) → ResolvedAction
  client_point_swipe :
      (button : SemanticMouseButton) (maximum_distance_ppm maximum_duration_ms : ℕ) → ResolvedAction

-- A `BTreeMap`: ascending by name.
abbrev pub ActionMap : Type 0
ActionMap = List (ActionId × ResolvedAction)

abbrev pub semantic_button : ClientPointButton → SemanticMouseButton
semantic_button ClientPointButton.left = left
semantic_button ClientPointButton.right = right
semantic_button ClientPointButton.middle = middle
semantic_button ClientPointButton.x1 = x1
semantic_button ClientPointButton.x2 = x2

abbrev pub resolved : ActionDefinition → ResolvedAction
resolved (hold virtual_key code extended) = hold_key code extended
resolved (pulse virtual_key code extended) = pulse_key code extended
resolved (ActionDefinition.wheel maximum_delta) = wheel maximum_delta
resolved (ActionDefinition.relative_mouse maximum_delta) = relative_mouse maximum_delta
resolved (ActionDefinition.client_point_click button) = client_point_click (semantic_button button)
resolved (ActionDefinition.client_point_swipe button distance duration) =
    client_point_swipe (semantic_button button) distance duration

abbrev map_err {ℓ κ μ} : {E : Type ℓ} {F : Type κ} {A : Type μ} → (E → F) → Result E A → Result F A
map_err f (ok a) = ok a
map_err f (err e) = err (f e)

abbrev pub resolve_entry : Bytes × ActionDefinition → Result SafetyError (ActionId × ResolvedAction)
resolve_entry (id, definition) = do
  id' ← map_err (λ _. safety_error "input.action_invalid") (new_action_id id)
  ok (id', resolved definition)

unfoldable pub from_verified_profile : VerifiedProfile → Result SafetyError ActionMap
from_verified_profile profile = do
  entries ← try_map resolve_entry (profile_of profile).actions
  ok (collect_map [] entries)

unfoldable pub resolve : ActionMap → ActionId → Result SafetyError ResolvedAction
resolve actions id = ok_or (get id actions) (safety_error "input.action_not_allowed")

unfoldable pub hold_scan_code : ActionMap → ActionId → Result SafetyError ℕ
unfolding resolve
hold_scan_code actions id = elim (resolve actions id) [
  | ok (hold_key code false) ↦ ok code
  | ok _ ↦ err (safety_error "input.action_kind_invalid")
  | err e ↦ err e
]
