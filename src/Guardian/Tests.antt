-- ===== src/Guardian/Tests.antt =====
-- Runs of the Guardian's monitor, and its theorems at concrete inputs.
use fairypam_rust_agent.Base.{
  true, false, none, some, List, [], ◌∷◌, ◌≡◌, ◌↔◌, Some, refl, codes, beq, cmp,
}
use fairypam_rust_agent.Base.Result.{ok}
use fairypam_rust_agent.Base.Sets.{from_list, insert}
use fairypam_rust_agent.Guardian.Protocol.{
  PhysicalHold, scan_code, register_agent, register_intent, commit_holds,
}
use fairypam_rust_agent.Guardian.Monitor.{
  Driver, GuardianMonitor, new, release_holds, register, intend, commit, tick, handle,
}
use fairypam_rust_agent.Guardian.Monitor.Holds.{due, release_holds-due}
use fairypam_rust_agent.Guardian.Monitor.Safety.{
  Event, handles, ticks, step, run, IsSound, Advances, TicksDue, tick-TicksDue,
}
use fairypam_rust_agent.Guardian.Monitor.Runs.{run-Advances, Accounted, step-Accounted}

abbrev drives : Driver
drives past holds = ok tt

abbrev running : PhysicalHold
running = scan_code (codes "run") 17 false

abbrev jumping : PhysicalHold
jumping = scan_code (codes "jump") 57 false

-- An agent holds one key, and is about to hold another one too.
abbrev holding : GuardianMonitor
holding = record {
  releases = [];
  agent_pid = some 10;
  agent_process_handle = some 20;
  heartbeat_timeout = some 1000;
  heartbeat_deadline = some 5000;
  last_sequence = 1;
  pending_intent = some (2, running ∷ jumping ∷ []);
  committed_holds = running ∷ [];
  last_release_reason = none;
}

abbrev holds : List Event
holds =
    handles (register_agent 10 20 1 none) 4000
    ∷ handles (register_intent 1 (running ∷ [])) 4001
    ∷ handles (commit_holds 1) 4002
    ∷ handles (register_intent 2 (running ∷ jumping ∷ [])) 4003
    ∷ []

holds_test : (run drives holds new).last_sequence ≡ 1
unfolding run step handle register intend commit new from_list insert cmp
holds_test = refl

holding-IsSound : IsSound holding
unfolding from_list insert cmp
holding-IsSound = (refl, refl, refl, refl, refl, refl)

release_holds-due_example :
    Some (λ h. h ≡ jumping) (release_holds holding) ↔ (due (codes "jump") holding ≡ some jumping)
release_holds-due_example = release_holds-due jumping holding

tick-TicksDue_example : TicksDue drives holding (tick drives 5000 true holding)
tick-TicksDue_example = tick-TicksDue drives 5000 true holding refl

run-Advances_example : Advances holding (run drives holds holding)
run-Advances_example = run-Advances drives holds holding holding-IsSound

step-Accounted_example : Accounted (codes "jump") holding (step drives (ticks 5000 true) holding)
unfolding beq
step-Accounted_example =
    step-Accounted drives (codes "jump") (ticks 5000 true) holding holding-IsSound refl
