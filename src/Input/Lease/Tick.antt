-- ===== src/Input/Lease/Tick.antt =====
-- crates/fairypam-agent-input/src/lease.rs: the tick of a lease's time.
use fairypam_rust_agent.Base.{ℕ, leb, false, ◌∷◌, ◌≡◌, ◌⊎◌, arith, if◌then◌else◌}
use fairypam_rust_agent.Base.Result.{ok}
use fairypam_rust_agent.Core.State.{is_some_and}
use fairypam_rust_agent.Guardian.Protocol.{lease_expired}
use fairypam_rust_agent.Input.Lease.{Environment, LeaseExecutor, guardian_heartbeat, call}
use fairypam_rust_agent.Input.Lease.Gate.{tick}
use fairypam_rust_agent.Input.Lease.Shut.{IsShut, release_all-IsShut}

-- Nothing changed, but that the Guardian got a heartbeat if the gate is open.
abbrev pub Continues : ℕ → LeaseExecutor → LeaseExecutor → Type 0
Continues now before after =
    (is_some_and (λ expires_at. leb expires_at now) before.expires_at ≡ false)
    × (after ≡ record before {
      calls =
          if before.input_gate_open
          then guardian_heartbeat before.guardian_sequence ∷ before.calls
          else before.calls;
    })

-- A tick leaves the executor shut, or it returns no error, the lease has not expired, and all that
-- happened is a heartbeat where the gate is open.
pub tick-IsShut :
    (env : Environment) (now : ℕ) (s : LeaseExecutor)
    → IsShut (tick env now s).1
      ⊎ (((tick env now s).0 ≡ ok tt) × Continues now s (tick env now s).1)
unfolding tick call
tick-IsShut env now s = ground (arith, release_all-IsShut env lease_expired s)
