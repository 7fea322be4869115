-- ===== src/Input/Lease/Requests.antt =====
-- crates/fairypam-agent-input/src/lease.rs: the requests that reach the executor, as one alphabet.
use fairypam_rust_agent.Base.{ℕ, List}
use fairypam_rust_agent.Base.Int.{ℤ}
use fairypam_rust_agent.Core.State.{SessionIdentity}
use fairypam_rust_agent.Guardian.Protocol.{ActionId}
use fairypam_rust_agent.Input.Action.{SemanticMouseButton}
use fairypam_rust_agent.Input.Action.Physical.{Key}
use fairypam_rust_agent.Input.Lease.{Environment, InputLease, Method, return, ◌>>=◌}
use fairypam_rust_agent.Input.Lease.Gate.{InputPermit}
use fairypam_rust_agent.Input.Lease.Apply.{apply_lease}
use fairypam_rust_agent.Input.Lease.Guarded.{
  arm_guarded_physical_frame, renew_guarded_physical_frame, apply_guarded_physical_frame,
}
use fairypam_rust_agent.Input.Lease.Pulse.{
  execute_pulse, execute_relative_mouse, execute_client_point,
}
use fairypam_rust_agent.Input.Lease.Frame.{PhysicalFrame, apply_physical_frame}

pub data Request : Type 0 where
  leases : InputLease → Request
  arms_guarded : SessionIdentity → (sequence expires_at : ℕ) → List Key → Request
  renews_guarded : SessionIdentity → (sequence expires_at : ℕ) → Request
  applies_guarded : SessionIdentity → List Key → Request
  pulses : ActionId → SessionIdentity → Request
  moves : ActionId → ℤ → ℤ → SessionIdentity → Request
  clicks : SemanticMouseButton → (x_ppm y_ppm : ℕ) → SessionIdentity → Request
  frames : SessionIdentity → (sequence expires_at : ℕ) → PhysicalFrame → Request

unfoldable pub perform : Environment → Request → InputPermit → ℕ → Method (Unit {0})
perform env (leases lease) permit now = apply_lease env lease permit now
perform env (arms_guarded session sequence expires_at keys) permit now =
    arm_guarded_physical_frame env session sequence expires_at keys permit now
perform env (renews_guarded session sequence expires_at) permit now =
    renew_guarded_physical_frame env session sequence expires_at permit now
perform env (applies_guarded session keys) permit now =
    apply_guarded_physical_frame env session keys permit now
perform env (pulses action session) permit now = execute_pulse env action session permit now
perform env (moves action delta_x delta_y session) permit now =
    execute_relative_mouse env action delta_x delta_y session permit now
perform env (clicks button x_ppm y_ppm session) permit now =
    execute_client_point env button x_ppm y_ppm session permit now
perform env (frames session sequence expires_at frame) permit now =
    apply_physical_frame env session sequence expires_at frame permit now >>= λ _. return tt
