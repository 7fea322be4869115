-- ===== src/Guardian/Monitor.antt =====
-- bins/fairypam-agent-guardian/src/monitor.rs: the Guardian's monitor of the agent.
-- Instants and durations count nanoseconds. `ReleaseDriver` is a trait: a `Driver` answers a release
-- by the releases it was asked for before, which the monitor's state holds, newest first.
pub mod Holds
pub mod Safety
pub mod Runs
use fairypam_rust_agent.Base.{
  ℕ, ◌+◌, ◌*◌, Bool, true, false, not, ◌&&◌, ◌||◌, Option, none, some, List, [], ◌∷◌, String, ltb,
  leb, if◌then◌else◌, map, length, Bytes, ◌==◌,
}
use fairypam_rust_agent.Base.Result.{Result, ok, err}
use fairypam_rust_agent.Base.Sets.{from_list, collect_map, values}
use fairypam_rust_agent.Core.State.{is_some, is_some_and}
use fairypam_rust_agent.Guardian.Protocol.{
  PhysicalHold, action_id, ReleaseReason, GuardianRequest, GuardianResponse, agent_exited,
  heartbeat_expired, register_agent, heartbeat, worker_health, register_intent, commit_holds,
  release_all, status, ack, error,
}

abbrev pub Driver : Type 0
Driver = List (List PhysicalHold) → List PhysicalHold → Result String (Unit {0})

pub record GuardianMonitor : Type 0 where
  pub releases : List (List PhysicalHold)
  pub agent_pid : Option ℕ
  pub agent_process_handle : Option ℕ
  pub heartbeat_timeout : Option ℕ
  pub heartbeat_deadline : Option ℕ
  pub last_sequence : ℕ
  pub pending_intent : Option (ℕ × List PhysicalHold)
  pub committed_holds : List PhysicalHold
  pub last_release_reason : Option ReleaseReason

abbrev pub Answer : Type 0
Answer = Result String (Unit {0}) × GuardianMonitor

unfoldable pub new : GuardianMonitor
new = record {
  releases = [];
  agent_pid = none;
  agent_process_handle = none;
  heartbeat_timeout = none;
  heartbeat_deadline = none;
  last_sequence = 0;
  pending_intent = none;
  committed_holds = [];
  last_release_reason = none;
}

abbrev pub longest_timeout : ℕ
longest_timeout = 5000000000

unfoldable pub register : (agent_pid handle timeout now : ℕ) → GuardianMonitor → Answer
register agent_pid handle timeout now m =
    if agent_pid == 0 || (handle == 0 || (timeout == 0 || ltb longest_timeout timeout))
    then (err "guardian.registration_invalid", m)
    else if is_some m.agent_pid
    then (err "guardian.agent_already_registered", m)
    else (
      ok tt,
      record m {
        agent_pid = some agent_pid;
        agent_process_handle = some handle;
        heartbeat_timeout = some timeout;
        heartbeat_deadline = some (now + timeout);
      },
    )

unfoldable pub intend : ℕ → List PhysicalHold → GuardianMonitor → Answer
intend sequence holds m =
    if is_some m.pending_intent
    then (err "guardian.intent_pending", m)
    else if not (is_some m.agent_pid) || (sequence == 0 || leb sequence m.last_sequence)
    then (err "guardian.sequence_invalid", m)
    else if not (length (from_list (map action_id holds)) == length holds)
    then (err "guardian.duplicate_hold", m)
    else (ok tt, record m { pending_intent = some (sequence, holds) })

-- A sequence that is not the intent's puts the intent back.
unfoldable pub commit : ℕ → GuardianMonitor → Answer
commit sequence m = elim m.pending_intent [
  | none ↦ (err "guardian.intent_missing", m)
  | some (pending_sequence, holds) ↦
      if not (pending_sequence == sequence) then (err "guardian.sequence_invalid", m) else (
        ok tt,
        record m { pending_intent = none; last_sequence = sequence; committed_holds = holds },
      )
]

unfoldable pub beat : (sequence now : ℕ) → GuardianMonitor → Answer
beat sequence now m =
    if ltb sequence m.last_sequence
    then (err "guardian.sequence_invalid", m)
    else elim m.heartbeat_timeout [
      | none ↦ (err "guardian.agent_not_registered", m)
      | some timeout ↦ (ok tt, record m { heartbeat_deadline = some (now + timeout) })
    ]

abbrev pub entry : PhysicalHold → Bytes × PhysicalHold
entry hold = (action_id hold, hold)

abbrev pub pending_holds : GuardianMonitor → List PhysicalHold
pending_holds m = elim m.pending_intent [ none ↦ [] | some (sequence, holds) ↦ holds ]

unfoldable pub release_holds : GuardianMonitor → List PhysicalHold
unfolding collect_map
release_holds m =
    values
      (collect_map (collect_map [] (map entry m.committed_holds)) (map entry (pending_holds m)))

module _ (driver : Driver) where
  unfoldable pub release_snapshot : List PhysicalHold → GuardianMonitor → Answer
  release_snapshot holds m = (driver m.releases holds, record m { releases = holds ∷ m.releases })

  abbrev released : ReleaseReason → Answer → Answer
  released reason (ok _, m) = (
    ok tt,
    record m { committed_holds = []; pending_intent = none; last_release_reason = some reason },
  )
  released reason (err e, m) = (err e, m)

  unfoldable pub release : ReleaseReason → GuardianMonitor → Answer
  unfolding release_snapshot
  release reason m = released reason (release_snapshot (release_holds m) m)

  abbrev cleared : (GuardianMonitor → GuardianMonitor) → Answer → Answer
  cleared f (ok _, m) = (ok tt, f m)
  cleared f (err e, m) = (err e, m)

  unfoldable pub tick : (now : ℕ) (agent_alive : Bool) → GuardianMonitor → Answer
  unfolding release
  tick now agent_alive m =
      if not agent_alive
      then cleared
          (λ n. record n {
            agent_pid = none;
            agent_process_handle = none;
            heartbeat_deadline = none;
          })
          (release agent_exited m)
      else if is_some_and (λ deadline. leb deadline now) m.heartbeat_deadline
      then cleared (λ n. record n { heartbeat_deadline = none }) (release heartbeat_expired m)
      else (ok tt, m)

  abbrev response : Answer → GuardianResponse × GuardianMonitor
  response (ok _, m) = (ack none false, m)
  response (err message, m) = (error message message, m)

  unfoldable pub handle : GuardianRequest → ℕ → GuardianMonitor → GuardianResponse × GuardianMonitor
  unfolding register beat intend commit release
  handle (register_agent pid process timeout_ms name) now m =
      response (register pid process (timeout_ms * 1000000) now m)
  handle (heartbeat sequence) now m = response (beat sequence now m)
  handle (worker_health ready) now m = response (ok tt, m)
  handle (register_intent sequence holds) now m = response (intend sequence holds m)
  handle (commit_holds sequence) now m = response (commit sequence m)
  handle (release_all reason) now m = response (release reason m)
  handle status now m = (status m.agent_pid (length m.committed_holds) m.last_sequence, m)
