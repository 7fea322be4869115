-- ===== src/Input/Tests.antt =====
-- Runs of the executor of input leases, and its theorems at concrete inputs.
use fairypam_rust_agent.Base.{
  Some, ℕ, true, false, none, some, [], ◌∷◌, ◌≡◌, ◌≢◌, ◌⊎◌, ◌↔◌, refl, Bytes, codes, beq, cmp,
}
use fairypam_rust_agent.Base.Result.{ok, err, try_map}
use fairypam_rust_agent.Base.Sets.{get, insert, extend, difference, collect_map, put}
use fairypam_rust_agent.Core.Target.{binding_eq}
use fairypam_rust_agent.Core.State.{session_eq, is_some}
use fairypam_rust_agent.Core.State.Capability.{is_valid_for}
use fairypam_rust_agent.Core.Profile.{profile_of}
use fairypam_rust_agent.Core.Profile.Validate.{
  validate_actions, action_id_is_valid, definition_is_valid,
}
use fairypam_rust_agent.Core.Samples.{verified, session, binding, in_control}
use fairypam_rust_agent.Guardian.Protocol.{new_action_id}
use fairypam_rust_agent.Input.Action.{
  ActionMap, safety_error, hold_key, pulse_key, from_verified_profile, resolve,
}
use fairypam_rust_agent.Input.Action.Physical.{all_scan_codes, physical_frame_actions}
use fairypam_rust_agent.Input.Action.Codes.{ascends, names_code, UsesKey, all_scan_codes-names}
use fairypam_rust_agent.Input.Action.Names.{from_verified_profile-names}
use fairypam_rust_agent.Input.Action.Frames.{physical_frame_actions-ne-none}
use fairypam_rust_agent.Input.Lease.{
  Environment, InputLease, LeaseExecutor, fault, with_action_map, validate_before_input, call,
  for_each, next_guardian_sequence, hold_action,
}
use fairypam_rust_agent.Input.Lease.Gate.{
  InputPermit, permit_is_valid_for, release_all, fail_closed, tick,
}
use fairypam_rust_agent.Input.Lease.Apply.{
  apply_lease, apply_lease_inner, admit, replace_holds, change_session, require_new_sequence,
  check_hold, press_lease, apply_hold_difference, release_one, press_one,
}
use fairypam_rust_agent.Input.Lease.Requests.{leases, perform}
use fairypam_rust_agent.Input.Lease.Shut.{IsShut}
use fairypam_rust_agent.Input.Lease.Closed.{perform-fault}
use fairypam_rust_agent.Input.Lease.Permit.{Refused, perform-Refused}
use fairypam_rust_agent.Input.Lease.Applied.{apply_lease-IsApplied}
use fairypam_rust_agent.Input.Lease.Applied.Meaning.{IsApplied}
use fairypam_rust_agent.Input.Lease.Tick.{Continues, tick-IsShut}
use fairypam_rust_agent.Input.Lease.Deadline.{has_lease}
use fairypam_rust_agent.Input.Lease.Served.{serve, performs, ticks, serve-has_lease}

abbrev game_actions : ActionMap
game_actions = (codes "jump", pulse_key 57 false) ∷ (codes "run", hold_key 17 false) ∷ []

abbrev permit : InputPermit
permit = record {
  capability = record {
    machine = in_control;
    session = session;
    binding = binding;
    profile = verified;
    expires_at = 400;
  };
}

abbrev runs : InputLease
runs = record {
  session = session;
  sequence = 1;
  expires_at = 390;
  desired_holds = codes "run" ∷ [];
}

-- Everything works, or the check before input does not.
abbrev works : Environment
works calls c = none

abbrev refuses_input : Environment
refuses_input calls validate_before_input = some (safety_error "input.platform_lost")
refuses_input calls _ = none

abbrev fresh : LeaseExecutor
unfolding with_action_map
fresh = with_action_map game_actions

from_verified_profile_test : from_verified_profile verified ≡ ok game_actions
unfolding from_verified_profile try_map new_action_id collect_map put cmp
from_verified_profile_test = refl

abbrev running : LeaseExecutor
running = (apply_lease works runs permit 300 fresh).1

runs_applied : apply_lease works runs permit 300 fresh ≡ (ok tt, running)
unfolding apply_lease apply_lease_inner admit change_session require_new_sequence check_hold
    for_each hold_action resolve call next_guardian_sequence replace_holds press_lease
    apply_hold_difference release_one press_one is_valid_for session_eq binding_eq beq
    with_action_map extend insert difference
runs_applied = refl

apply_lease-IsApplied_example : IsApplied runs 300 fresh running
apply_lease-IsApplied_example =
    apply_lease-IsApplied works runs permit 300 fresh running runs_applied

expired_permit : permit_is_valid_for permit 500 session ≡ false
unfolding is_valid_for
expired_permit = refl

perform-Refused_example : Refused running (perform works (leases runs) permit 500 running)
perform-Refused_example = perform-Refused works permit 500 (leases runs) running expired_permit

refused_input :
    (perform refuses_input (leases runs) permit 300 fresh).0
    ≡ err (fault (safety_error "input.platform_lost"))
unfolding perform apply_lease apply_lease_inner admit change_session require_new_sequence check_hold
    for_each hold_action resolve call is_valid_for session_eq binding_eq beq with_action_map
    fail_closed release_all
refused_input = refl

perform-fault_example : IsShut (perform refuses_input (leases runs) permit 300 fresh).1
perform-fault_example = perform-fault refuses_input permit 300 (leases runs) fresh refused_input

tick-IsShut_example :
    IsShut (tick works 350 running).1
    ⊎ (((tick works 350 running).0 ≡ ok tt) × Continues 350 running (tick works 350 running).1)
tick-IsShut_example = tick-IsShut works 350 running

all_scan_codes-names_example :
    (ascends (all_scan_codes game_actions) ≡ true)
    × ((a : ℕ)
        → (names_code a (all_scan_codes game_actions) ≡ true)
          ↔ Some (λ e. UsesKey a e.1) game_actions)
all_scan_codes-names_example = all_scan_codes-names game_actions

valid_actions : validate_actions (profile_of verified).actions ≡ ok tt
unfolding validate_actions action_id_is_valid definition_is_valid
valid_actions = refl

from_verified_profile-names_example :
    (actions : ActionMap) × (from_verified_profile verified ≡ ok actions)
    × ((b : Bytes) → is_some (get b actions) ≡ is_some (get b (profile_of verified).actions))
from_verified_profile-names_example = from_verified_profile-names verified valid_actions

physical_frame_actions-ne-none_example :
    physical_frame_actions game_actions ((17, false) ∷ (57, false) ∷ []) [] ≢ none
physical_frame_actions-ne-none_example =
    physical_frame_actions-ne-none game_actions ((17, false) ∷ (57, false) ∷ []) []

serve-has_lease_example :
    has_lease (
      serve works
        (performs (leases runs) permit 300 ∷ ticks 350 ∷ [])
        (with_action_map game_actions))
    ≡ true
serve-has_lease_example =
    serve-has_lease works (performs (leases runs) permit 300 ∷ ticks 350 ∷ []) game_actions
