-- ===== src/Input/Lease/Shut.antt =====
-- crates/fairypam-agent-input/src/lease.rs: what a release of all input leaves.
use fairypam_rust_agent.Base.{false, none, some, List, ◌∷◌, ◌≡◌, refl, arith}
use fairypam_rust_agent.Base.Result.{Result, ok, err}
use fairypam_rust_agent.Guardian.Protocol.{ReleaseReason}
use fairypam_rust_agent.Input.Action.{SafetyError}
use fairypam_rust_agent.Input.Action.Physical.{all_scan_codes}
use fairypam_rust_agent.Input.Lease.{
  Environment, Call, LeaseExecutor, Failure, Method, fault, panic, recover, emergency_release,
  guardian_release_all, resume,
}
use fairypam_rust_agent.Input.Lease.Gate.{release_all, fail_closed, closed_result}

-- The gate is shut, no lease runs, a reason is kept, and the newest two calls asked the platform to
-- release every key of the profile, and then the Guardian to release all for that reason.
pub record IsShut (s : LeaseExecutor) : Type 0 where
  pub gate : s.input_gate_open ≡ false
  pub lease : s.expires_at ≡ none
  pub reason : ReleaseReason
  pub reason_kept : s.last_release_reason ≡ some reason
  pub earlier : List Call
  pub released :
      s.calls ≡ guardian_release_all reason ∷ emergency_release (all_scan_codes s.actions) ∷ earlier

pub release_all-IsShut :
    (env : Environment) (reason : ReleaseReason) (s : LeaseExecutor)
    → IsShut (release_all env reason s).1
unfolding release_all
release_all-IsShut env reason s = record {
  gate = ground arith;
  lease = ground arith;
  reason = reason;
  reason_kept = ground arith;
  earlier = s.calls;
  released = ground arith;
}

pub closed_result-IsShut :
    (A : Type 0) (e : SafetyError) (r : Result Failure (Unit {0})) (s : LeaseExecutor)
    → IsShut s
    → IsShut (closed_result {A = A} e (r, s)).1
closed_result-IsShut A e (ok _) s h = h
closed_result-IsShut A e (err (fault f)) s h = h
closed_result-IsShut A e (err panic) s h = h

pub fail_closed-IsShut :
    (A : Type 0) (env : Environment) (reason : ReleaseReason) (e : SafetyError) (s : LeaseExecutor)
    → IsShut (fail_closed env {A = A} reason e s).1
unfolding fail_closed
fail_closed-IsShut A env reason e s =
    closed_result-IsShut A e (release_all env reason s).0 (release_all env reason s).1
      (release_all-IsShut env reason s)

-- A method whose faults are handled by a closing handler.
pub recover-IsShut :
    (A : Type 0) (handler : SafetyError → Method A) (r : Result Failure A × LeaseExecutor)
    {f : SafetyError}
    → ((e : SafetyError) (s : LeaseExecutor) → IsShut (handler e s).1)
    → (recover handler r).0 ≡ err (fault f)
    → IsShut (recover handler r).1
recover-IsShut A handler (ok a, s) k h = cc
recover-IsShut A handler (err (fault e), s) k h = k e s
recover-IsShut A handler (err panic, s) k h = cc

pub resume-fault :
    {A B : Type 0} (P : LeaseExecutor → Type 0) (r : Result Failure A × LeaseExecutor)
    (k : A → Method B) {f : SafetyError}
    → (r.0 ≡ err (fault f) → P r.1)
    → ((a : A) → r.0 ≡ ok a → (k a r.1).0 ≡ err (fault f) → P (k a r.1).1)
    → (resume r k).0 ≡ err (fault f)
    → P (resume r k).1
resume-fault P (ok a, s) k first second h = second a refl h
resume-fault P (err e, s) k first second h = first (cc)
