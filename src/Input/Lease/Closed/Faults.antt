-- ===== src/Input/Lease/Closed/Faults.antt =====
-- crates/fairypam-agent-input/src/lease.rs: what a failed request leaves.
use fairypam_rust_agent.Base.{Bool, true, false, [], ◌∷◌, ◌≡◌, refl, arith, any, ◌⊎◌}
use fairypam_rust_agent.Base.Result.{ok, err}
use fairypam_rust_agent.Base.Sets.{BTreeSet}
use fairypam_rust_agent.Core.State.{is_some}
use fairypam_rust_agent.Input.Action.{
  SafetyError, SemanticMouseButton, ResolvedAction, ActionMap, client_point_click,
}
use fairypam_rust_agent.Input.Action.Physical.{first_for_button, button_eq}
use fairypam_rust_agent.Input.Lease.{LeaseExecutor, fault}
use fairypam_rust_agent.Input.Lease.Frame.{PhysicalFrame, check_frame}
use fairypam_rust_agent.Input.Lease.Shut.{IsShut}
use fairypam_rust_agent.Input.Lease.Requests.{Request, clicks, frames}

-- An action of the profile clicks this button.
abbrev clicks_with : SemanticMouseButton → ResolvedAction → Bool
clicks_with button (client_point_click allowed) = button_eq allowed button
clicks_with button _ = false

abbrev pub allows_button : SemanticMouseButton → ActionMap → Bool
allows_button button actions = any (λ e. clicks_with button e.1) actions

pub first_for_button-allows :
    (button : SemanticMouseButton) (actions : ActionMap)
    → is_some (first_for_button button actions) ≡ allows_button button actions
first_for_button-allows button [] = refl
first_for_button-allows button ((id, client_point_click allowed) ∷ actions) =
    ground (arith, first_for_button-allows button actions)
first_for_button-allows button ((id, _) ∷ actions) = first_for_button-allows button actions

-- A click for a button that the profile does not allow changes nothing; every other one shuts.
abbrev pub ClickFault : SemanticMouseButton → LeaseExecutor → LeaseExecutor → Type 0
ClickFault button before after =
    ((allows_button button before.actions ≡ false) × (after ≡ before))
    ⊎ ((allows_button button before.actions ≡ true) × IsShut after)

-- A frame whose checks fail, with just this error, changes nothing; every other one shuts.
abbrev pub FrameFault : PhysicalFrame → SafetyError → LeaseExecutor → LeaseExecutor → Type 0
FrameFault frame e before after =
    (((check_frame frame before).0 ≡ err (fault e)) × (after ≡ before))
    ⊎ ((found : BTreeSet × BTreeSet) × ((check_frame frame before).0 ≡ ok found) × IsShut after)

-- What a fault leaves, by the request.
abbrev pub Aftermath : Request → SafetyError → LeaseExecutor → LeaseExecutor → Type 0
Aftermath (clicks button _ _ _) e before after = ClickFault button before after
Aftermath (frames _ _ _ frame) e before after = FrameFault frame e before after
Aftermath _ e before after = IsShut after
