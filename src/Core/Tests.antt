-- ===== src/Core/Tests.antt =====
-- Runs of the core's definitions, and its theorems at concrete inputs.
use fairypam_rust_agent.Base.{
  true, false, none, some, List, [], ◌∷◌, ◌++◌, ◌≡◌, ◌≢◌, ◌↔◌, refl, arith, codes, beq, ℕ, ◌+◌, ◌*◌,
  ◌/◌,
}
use fairypam_rust_agent.Base.Result.{ok, err}
use fairypam_rust_agent.Core.Samples.{
  verified, outside, session, binding, snapshot, allows, in_dry_run, in_control, takes_control,
  whole_run,
}
use fairypam_rust_agent.Core.Profile.Hex.{
  hex_digest, decode_fixed_hex, decode_fixed_hex-hex_digest, is_sha256,
}
use fairypam_rust_agent.Core.Profile.Validate.{
  to_ascii_lowercase, validate_content, validate_actions, validate_capture_sources, validate_files,
  validate_files_from, validate_profile_identity, validate_target_rules, capture_region_is_valid,
  action_id_is_valid, definition_is_valid, sources_are_valid,
}
use fairypam_rust_agent.Core.Profile.Verify.{
  verify_profile, profile_content_digest, IsAccepted, verify_profile_iff,
}
use fairypam_rust_agent.Core.Title.{
  wildcard_match, wildcard_match_lowered, star, split, walk, find_from, strip_prefix,
  ends_with_star,
}
use fairypam_rust_agent.Core.Title.Glob.{Matches, wildcard_match-Matches, wildcard_match_incomplete}
use fairypam_rust_agent.Core.State.{
  failed_safe, deny_all, failure, focus_lost, fail_safe, Effect, AgentState,
}
use fairypam_rust_agent.Core.State.Capability.{InputCapability, issue_input_capability, permitted}
use fairypam_rust_agent.Core.State.Ops.{
  new, apply, request_arm, renew_control_authorization, start_completed, control_connected,
  activate_profile, lock_target, binding_matches_profile, on_preflight_passed, enter_dry_run,
  begin_control, authorized_expiry,
}
use fairypam_rust_agent.Core.State.Run.{
  Call, step, run, gate_after, is_controlling, happens, arms, begins, started, dry_runs,
}
use fairypam_rust_agent.Core.State.Gate.{gate_after-run, leave_controlling, run-fail_safe}
use fairypam_rust_agent.Core.State.Invariant.{Inv, run-new-Inv}
use fairypam_rust_agent.Core.State.Permission.{
  IsIssued, issue_input_capability-IsIssued, issue_input_capability-ne-none, apply-denied, Grants,
  request_arm-Grants, renew-Grants, IsUnarmed, run-new-IsUnarmed,
}
use fairypam_rust_agent.Core.Target.{binding_eq}
use fairypam_rust_agent.Transport.Backoff.{CappedBackoff, Floats}
use fairypam_rust_agent.Core.Supervisor.{
  Hooks, SessionSupervisor, Session, guardian_release_all, cleanup_error, run_one_session,
  run_frames, handle_frame_failure, session_established, end_session, begin_control_failure,
  finish_control_failure,
}
use fairypam_rust_agent.Core.Supervisor.Cleanup.{Ends, run_one_session-Ends}

-- A title of letters that the code lowers, and one that lacks the end of the pattern.
wildcard_match_test : wildcard_match to_ascii_lowercase (codes "My*") (codes "MY Game") ≡ true
unfolding wildcard_match wildcard_match_lowered split walk find_from strip_prefix ends_with_star
wildcard_match_test = refl

takes_control_test : (run outside takes_control new).1 ≡ in_control
unfolding run step new start_completed control_connected activate_profile lock_target
    binding_matches_profile wildcard_match wildcard_match_lowered split walk find_from strip_prefix
    ends_with_star on_preflight_passed binding_eq enter_dry_run request_arm authorized_expiry
    begin_control beq
takes_control_test = refl

verify_profile_test : verify_profile outside (codes "signed") ≡ ok verified
unfolding verify_profile profile_content_digest hex_digest validate_content
    validate_profile_identity validate_files validate_files_from validate_target_rules is_sha256
    validate_capture_sources sources_are_valid capture_region_is_valid validate_actions
    action_id_is_valid definition_is_valid beq
verify_profile_test = refl

gate_after-run_example :
    gate_after (run outside whole_run new).0 (is_controlling new.current)
    ≡ is_controlling (run outside whole_run new).1.current
gate_after-run_example = gate_after-run outside whole_run new

run-new-Inv_example : Inv outside (run outside whole_run new).1
run-new-Inv_example = run-new-Inv outside whole_run

leave_controlling_example :
    (step outside (happens focus_lost) in_control).0
    ≡ ok (Effect.close_input_gate ∷ Effect.release_all ∷ [])
leave_controlling_example =
    leave_controlling outside (happens focus_lost) in_control refl (unfold step apply in λ e. cc)

run-fail_safe_example :
    (run outside (happens fail_safe ∷ whole_run) in_control).1.current ≡ failed_safe
run-fail_safe_example = run-fail_safe outside whole_run in_control

abbrev the_capability : InputCapability
the_capability = record {
  machine = in_control;
  session = session;
  binding = binding;
  profile = verified;
  expires_at = 400;
}

issued : issue_input_capability in_control 300 snapshot true ≡ some (ok the_capability)
unfolding issue_input_capability permitted binding_eq beq
issued = refl

issue_input_capability-IsIssued_example :
    IsIssued in_control 300 snapshot the_capability × (true ≡ true)
issue_input_capability-IsIssued_example =
    issue_input_capability-IsIssued in_control 300 snapshot true issued

issue_input_capability-ne-none_example : issue_input_capability in_control 300 snapshot true ≢ none
issue_input_capability-ne-none_example = issue_input_capability-ne-none in_control 300 snapshot true

apply-denied_example :
    issue_input_capability (apply focus_lost in_control).1 300 snapshot true
    ≡ some (err (failure "input.capability_denied"))
apply-denied_example =
    apply-denied focus_lost in_control 300 snapshot true (unfold apply in λ e. cc)

armed : (request_arm allows 100 400 in_dry_run).0 ≡ ok []
unfolding request_arm authorized_expiry
armed = refl

renewed : (renew_control_authorization allows 200 450 in_control).0 ≡ ok []
unfolding renew_control_authorization authorized_expiry
renewed = refl

request_arm-Grants_example : Grants allows 100 400 (λ deadline.
    (request_arm allows 100 400 in_dry_run).1
    ≡ record in_dry_run { current = AgentState.armed deadline })
request_arm-Grants_example = request_arm-Grants allows 100 400 in_dry_run armed

renew-Grants_example : Grants allows 200 450 (λ deadline.
    (renew_control_authorization allows 200 450 in_control).1
    ≡ record in_control { authorization_expires_at = some deadline })
renew-Grants_example = renew-Grants allows 200 450 in_control renewed

abbrev ungranted_run : List Call
ungranted_run = started ∷ dry_runs ∷ arms deny_all 100 400 ∷ begins 150 ∷ []

run-new-IsUnarmed_example : IsUnarmed (run outside ungranted_run new).1
run-new-IsUnarmed_example = run-new-IsUnarmed outside ungranted_run (tt, (tt, (refl, (tt, tt))))

verify_profile_iff_example :
    (verify_profile outside (codes "signed") ≡ ok verified)
    ↔ IsAccepted outside (codes "signed") verified
verify_profile_iff_example = verify_profile_iff outside (codes "signed") verified

wildcard_match-Matches_example :
    Matches (to_ascii_lowercase (codes "My*")) (to_ascii_lowercase (codes "MY Game"))
wildcard_match-Matches_example =
    wildcard_match-Matches to_ascii_lowercase (codes "My*") (codes "MY Game") wildcard_match_test

wildcard_match_incomplete_example :
    (wildcard_match_lowered (star ∷ 97 ∷ []) (97 ∷ (98 ∷ []) ++ 97 ∷ []) ≡ false)
    × Matches (star ∷ 97 ∷ []) (97 ∷ (98 ∷ []) ++ 97 ∷ [])
wildcard_match_incomplete_example = wildcard_match_incomplete 97 (98 ∷ []) (λ e. omega (arith, e))

decode_fixed_hex-hex_digest_example :
    decode_fixed_hex 2 (hex_digest (7 ∷ 255 ∷ [])) ≡ some (7 ∷ 255 ∷ [])
decode_fixed_hex-hex_digest_example =
    decode_fixed_hex-hex_digest (7 ∷ 255 ∷ []) (omega arith, (omega arith, tt))

-- A generator that draws halves, and numbers in quarters, rounded down.
abbrev steady : Floats (Unit {0}) ℕ
steady = record {
  f64 = λ rng. (2, rng);
  half = 2;
  mul = λ x y. x * y / 4;
  add = λ x y. x + y;
  mul_f64 = λ c x. c * x / 4;
}

abbrev reconnects : CappedBackoff (Unit {0})
reconnects = record { base = 250; maximum = 30_000; attempt = 0; rng = tt }

abbrev supervisor : SessionSupervisor (Unit {0})
supervisor = record { log = []; backoff = reconnects; frame_backoff = reconnects }

-- The Guardian does not answer; and the frame session ends once before the control session.
abbrev silent_guardian : Hooks
silent_guardian past guardian_release_all = true
silent_guardian past _ = false

abbrev interrupted : Session
interrupted = record { established = none; frame_ends = 1; control = none }

interrupted_test :
    (run_one_session steady silent_guardian interrupted supervisor).0 ≡ err cleanup_error
unfolding run_one_session run_frames handle_frame_failure session_established end_session
    begin_control_failure finish_control_failure
interrupted_test = refl

run_one_session-Ends_example :
    Ends silent_guardian (run_one_session steady silent_guardian interrupted supervisor)
run_one_session-Ends_example = run_one_session-Ends steady silent_guardian interrupted supervisor
