-- ===== src/Guardian/Monitor/Safety.antt =====
-- bins/fairypam-agent-guardian/src/monitor.rs: the monitor's invariant.
use fairypam_rust_agent.Base.{
  ℕ, ◌≤◌, Bool, true, not, ◌&&◌, ◌||◌, Option, none, some, List, [], ◌∷◌, ◌≡◌, ◌≢◌, ◌⊎◌, arith, map,
  length, leb, ◌==◌, ltb,
}
use fairypam_rust_agent.Base.Result.{ok}
use fairypam_rust_agent.Base.Sets.{from_list}
use fairypam_rust_agent.Core.State.{is_some, is_some_and}
use fairypam_rust_agent.Guardian.Protocol.{PhysicalHold, action_id, GuardianRequest, ReleaseReason}
use fairypam_rust_agent.Guardian.Monitor.{
  Driver, GuardianMonitor, Answer, longest_timeout, release_holds, register, intend, commit, beat,
  release, release_snapshot, tick, handle,
}

-- What the monitor's owner does with it.
pub data Event : Type 0 where
  handles : GuardianRequest → (now : ℕ) → Event
  ticks : (now : ℕ) (agent_alive : Bool) → Event
  snapshots : List PhysicalHold → Event

unfoldable pub step : Driver → Event → GuardianMonitor → GuardianMonitor
unfolding tick handle release_snapshot
step driver (handles request now) m = (handle driver request now m).1
step driver (ticks now agent_alive) m = (tick driver now agent_alive m).1
step driver (snapshots holds) m = (release_snapshot driver holds m).1

unfoldable pub run : Driver → List Event → GuardianMonitor → GuardianMonitor
unfolding step
run driver [] m = m
run driver (event ∷ events) m = run driver events (step driver event m)

abbrev pub are_distinct : List PhysicalHold → Bool
are_distinct holds = length (from_list (map action_id holds)) == length holds

abbrev pub pending_is_sound : ℕ → Option (ℕ × List PhysicalHold) → Bool
pending_is_sound last none = true
pending_is_sound last (some (sequence, holds)) = ltb last sequence && are_distinct holds

abbrev pub timeout_is_sound : Option ℕ → Bool
timeout_is_sound none = true
timeout_is_sound (some timeout) = ltb 0 timeout && leb timeout longest_timeout

-- An intent is ahead of what is committed, no list of holds has an action twice, a timeout is
-- positive and at most five seconds, an agent has both a process and a handle or none, and only a
-- timeout gives a deadline.
abbrev pub IsSound : GuardianMonitor → Type 0
IsSound m =
    (pending_is_sound m.last_sequence m.pending_intent ≡ true)
    × (are_distinct m.committed_holds ≡ true)
    × (timeout_is_sound m.heartbeat_timeout ≡ true)
    × (is_some m.agent_pid ≡ is_some m.agent_process_handle)
    × ((is_some m.heartbeat_timeout || not (is_some m.agent_pid)) ≡ true)
    × ((is_some m.heartbeat_timeout || not (is_some m.heartbeat_deadline)) ≡ true)

-- The invariant holds again, and the last sequence did not fall.
abbrev pub Advances : GuardianMonitor → GuardianMonitor → Type 0
Advances before after = IsSound after × (before.last_sequence ≤ after.last_sequence)

-- Both the committed holds and the pending ones are gone.
abbrev pub HoldsNothing : GuardianMonitor → Type 0
HoldsNothing m = (m.committed_holds ≡ []) × (m.pending_intent ≡ none)

abbrev pub is_due : (now : ℕ) (agent_alive : Bool) → GuardianMonitor → Bool
is_due now agent_alive m =
    not agent_alive || is_some_and (λ deadline. leb deadline now) m.heartbeat_deadline

abbrev pub TicksDue : Driver → GuardianMonitor → Answer → Type 0
TicksDue driver m (result, after) =
    (after.releases ≡ release_holds m ∷ m.releases)
    × (result ≡ driver m.releases (release_holds m))
    × (((result ≡ ok tt) × HoldsNothing after × (after.heartbeat_deadline ≡ none))
        ⊎ ((result ≢ ok tt) × (after ≡ record m { releases = release_holds m ∷ m.releases })))

module _ (driver : Driver) where
  -- A tick that finds the agent gone or its deadline reached asks the driver once, for all that
  -- `release_holds` gives. If that succeeds no hold and no deadline is left; if it fails every hold
  -- and the deadline stay, so that a later tick asks again.
  pub tick-TicksDue :
      (now : ℕ) (agent_alive : Bool) (m : GuardianMonitor)
      → is_due now agent_alive m ≡ true
      → TicksDue driver m (tick driver now agent_alive m)
  unfolding tick release release_snapshot
  tick-TicksDue now agent_alive m h = ground arith

  pub register-Advances :
      (pid process timeout now : ℕ) (m : GuardianMonitor)
      → IsSound m
      → Advances m (register pid process timeout now m).1
  unfolding register
  register-Advances pid process timeout now m h = ground arith

  pub intend-Advances :
      (sequence : ℕ) (holds : List PhysicalHold) (m : GuardianMonitor)
      → IsSound m
      → Advances m (intend sequence holds m).1
  unfolding intend
  intend-Advances sequence holds m h = ground arith

  pub commit-Advances :
      (sequence : ℕ) (m : GuardianMonitor) → IsSound m → Advances m (commit sequence m).1
  unfolding commit
  commit-Advances sequence m h = ground arith

  pub beat-Advances :
      (sequence now : ℕ) (m : GuardianMonitor) → IsSound m → Advances m (beat sequence now m).1
  unfolding beat
  beat-Advances sequence now m h = ground arith

  pub release-Advances :
      (reason : ReleaseReason) (m : GuardianMonitor)
      → IsSound m
      → Advances m (release driver reason m).1
  unfolding release release_snapshot from_list
  release-Advances reason m h = ground arith

  pub tick-Advances :
      (now : ℕ) (agent_alive : Bool) (m : GuardianMonitor)
      → IsSound m
      → Advances m (tick driver now agent_alive m).1
  unfolding tick release release_snapshot from_list
  tick-Advances now agent_alive m h = ground arith
