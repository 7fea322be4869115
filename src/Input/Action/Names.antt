-- ===== src/Input/Action/Names.antt =====
-- crates/fairypam-agent-input/src/action.rs: the actions of a verified profile.
use fairypam_rust_agent.Base.{
  true, ◌&&◌, ◌||◌, List, [], ◌∷◌, ◌≡◌, refl, arith, all, Bytes, ◌∙◌, map,
}
use fairypam_rust_agent.Base.Result.{ok, ensure-eq-ok, try_map}
use fairypam_rust_agent.Base.Sets.{get, put, collect_map, get-put}
use fairypam_rust_agent.Core.State.{is_some}
use fairypam_rust_agent.Core.Profile.{ActionDefinition, VerifiedProfile, profile_of}
use fairypam_rust_agent.Core.Profile.Validate.{
  validate_actions, action_id_is_valid, definition_is_valid,
}
use fairypam_rust_agent.Guardian.Protocol.{ActionId, new_action_id}
use fairypam_rust_agent.Input.Action.{
  ActionMap, ResolvedAction, resolve_entry, resolved, from_verified_profile,
}

get-collect :
    {V : Type 0} (b : Bytes) (entries m : List (Bytes × V))
    → is_some (get b (collect_map m entries)) ≡ (is_some (get b entries) || is_some (get b m))
unfolding collect_map
get-collect b [] m = refl
get-collect b ((k, v) ∷ entries) m =
    get-collect b entries (put k v m) ∙ ground (arith, get-put k b v m)

abbrev resolved_entry : Bytes × ActionDefinition → ActionId × ResolvedAction
resolved_entry (id, definition) = (id, resolved definition)

resolve_entries :
    (actions : List (Bytes × ActionDefinition))
    → all (λ e. action_id_is_valid e.0) actions ≡ true
    → try_map resolve_entry actions ≡ ok (map resolved_entry actions)
unfolding action_id_is_valid new_action_id try_map
resolve_entries [] h = refl
resolve_entries ((id, definition) ∷ actions) h = ground (arith, resolve_entries actions)

get-resolved :
    (b : Bytes) (actions : List (Bytes × ActionDefinition))
    → is_some (get b (map resolved_entry actions)) ≡ is_some (get b actions)
get-resolved b [] = refl
get-resolved b ((id, definition) ∷ actions) = ground (arith, get-resolved b actions)

all-names :
    (actions : List (Bytes × ActionDefinition))
    → all (λ e. action_id_is_valid e.0 && definition_is_valid e.1) actions ≡ true
    → all (λ e. action_id_is_valid e.0) actions ≡ true
all-names [] h = refl
all-names ((id, definition) ∷ actions) h = ground (arith, all-names actions)

valid_names :
    (actions : List (Bytes × ActionDefinition))
    → validate_actions actions ≡ ok tt
    → all (λ e. action_id_is_valid e.0) actions ≡ true
unfolding validate_actions
valid_names actions h = all-names actions (ground (arith, ensure-eq-ok _ _ h))

-- The actions of a profile that the profile's own checks accept become an action map without an
-- error, and the map resolves the names of the profile's actions and no other.
pub from_verified_profile-names :
    (v : VerifiedProfile)
    → validate_actions (profile_of v).actions ≡ ok tt
    → (actions : ActionMap) × (from_verified_profile v ≡ ok actions)
      × ((b : Bytes) → is_some (get b actions) ≡ is_some (get b (profile_of v).actions))
unfolding from_verified_profile
from_verified_profile-names v h = (
  collect_map [] (map resolved_entry (profile_of v).actions),
  ground (arith, resolve_entries (profile_of v).actions (valid_names (profile_of v).actions h)),
  λ b.
      get-collect b (map resolved_entry (profile_of v).actions) []
      ∙ ground (arith, get-resolved b (profile_of v).actions),
)
