-- ===== src/Guardian/Monitor/Runs.antt =====
-- bins/fairypam-agent-guardian/src/monitor.rs: sequences of the monitor's operations.
use fairypam_rust_agent.Base.{
  ℕ, ◌*◌, ◌<◌, Bool, true, ◌||◌, none, List, [], ◌∷◌, ◌≡◌, ◌⊎◌, inl, arith, map, Bytes,
}
use fairypam_rust_agent.Base.Sets.{contains}
use fairypam_rust_agent.Guardian.Protocol.{
  action_id, GuardianRequest, register_agent, heartbeat, worker_health, register_intent,
  commit_holds, release_all, status,
}
use fairypam_rust_agent.Guardian.Monitor.{
  Driver, GuardianMonitor, pending_holds, release_holds, register, intend, commit, beat, release,
  release_snapshot, tick, handle,
}
use fairypam_rust_agent.Guardian.Monitor.Safety.{
  Event, handles, ticks, snapshots, step, run, IsSound, Advances, register-Advances,
  intend-Advances, commit-Advances, beat-Advances, release-Advances, tick-Advances,
}

module _ (driver : Driver) where
  handle-Advances :
      (request : GuardianRequest) (now : ℕ) (m : GuardianMonitor)
      → IsSound m
      → Advances m (handle driver request now m).1
  unfolding handle
  handle-Advances (register_agent pid process timeout_ms name) now m h =
      ground (arith, register-Advances driver pid process (timeout_ms * 1000000) now m h)
  handle-Advances (heartbeat sequence) now m h =
      ground (arith, beat-Advances driver sequence now m h)
  handle-Advances (worker_health ready) now m h = (h, omega arith)
  handle-Advances (register_intent sequence holds) now m h =
      ground (arith, intend-Advances driver sequence holds m h)
  handle-Advances (commit_holds sequence) now m h =
      ground (arith, commit-Advances driver sequence m h)
  handle-Advances (release_all reason) now m h = ground (arith, release-Advances driver reason m h)
  handle-Advances status now m h = (h, omega arith)

  step-Advances :
      (event : Event) (m : GuardianMonitor) → IsSound m → Advances m (step driver event m)
  unfolding step release_snapshot
  step-Advances (handles request now) m h = handle-Advances request now m h
  step-Advances (ticks now agent_alive) m h = tick-Advances driver now agent_alive m h
  step-Advances (snapshots holds) m h = (h, omega arith)

  -- Whatever is asked of a sound monitor, in any order and whatever the driver answers, leaves it
  -- sound, and its last sequence does not fall.
  pub run-Advances :
      (events : List Event) (m : GuardianMonitor) → IsSound m → Advances m (run driver events m)
  unfolding run
  run-Advances [] m h = (h, omega arith)
  run-Advances (event ∷ events) m h =
      let (sound, first) = step-Advances event m h in
      let (last, second) = run-Advances events (step driver event m) sound in
      (last, omega (arith, first, second))

-- An action that the monitor knows to be held, or about to be.
abbrev pub knows : Bytes → GuardianMonitor → Bool
knows b m =
    contains b (map action_id (pending_holds m)) || contains b (map action_id m.committed_holds)

-- What happened to an action that the monitor knew.
abbrev pub Accounted : Bytes → GuardianMonitor → GuardianMonitor → Type 0
Accounted b before after =
    (knows b after ≡ true)
    ⊎ (after.releases ≡ release_holds before ∷ before.releases)
    ⊎ ((before.last_sequence < after.last_sequence)
        × (after.committed_holds ≡ pending_holds before)
        × (after.pending_intent ≡ none))

module _ (driver : Driver) (b : Bytes) where
  handle-Accounted :
      (request : GuardianRequest) (now : ℕ) (m : GuardianMonitor)
      → IsSound m
      → knows b m ≡ true
      → Accounted b m (handle driver request now m).1
  unfolding handle register intend commit beat release release_snapshot
  handle-Accounted (register_agent pid process timeout_ms name) now m s h = ground arith
  handle-Accounted (heartbeat sequence) now m s h = ground arith
  handle-Accounted (worker_health ready) now m s h = inl h
  handle-Accounted (register_intent sequence holds) now m s h = ground arith
  handle-Accounted (commit_holds sequence) now m s h = ground arith
  handle-Accounted (release_all reason) now m s h = ground arith
  handle-Accounted status now m s h = inl h

  -- An action that the monitor knows, committed or pending, stays known, unless the driver is asked
  -- to release all that the monitor knows, or the pending intent is committed in place of the older
  -- holds.
  pub step-Accounted :
      (event : Event) (m : GuardianMonitor)
      → IsSound m
      → knows b m ≡ true
      → Accounted b m (step driver event m)
  unfolding step tick release release_snapshot
  step-Accounted (handles request now) m s h = handle-Accounted request now m s h
  step-Accounted (ticks now agent_alive) m s h = ground arith
  step-Accounted (snapshots holds) m s h = inl h
