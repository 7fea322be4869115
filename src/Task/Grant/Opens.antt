-- ===== src/Task/Grant/Opens.antt =====
-- bins/fairypam-agent/src/task_attempt.rs: a command that nothing stands against.
use fairypam_rust_agent.Base.{
  ℕ, Bool, true, false, ◌≡◌, refl, sym, Option, none, some, Bytes, beq, subst, if◌then◌else◌, ◌⊎◌,
  ◌||◌, is_empty, ◌==◌, arith, beq_iff,
}
use fairypam_rust_agent.Base.Result.{Result, ok}
use fairypam_rust_agent.Core.Error.{AgentError}
use fairypam_rust_agent.Task.Wire.{TaskCommandRef, AttemptRef, CommandRef, TaskCommandResult}
use fairypam_rust_agent.Task.Data.{AttemptState, max_business_command_results}
use fairypam_rust_agent.Task.State.{require_reference, same_reference}
use fairypam_rust_agent.Task.State.Check.{validate_task}
use fairypam_rust_agent.Task.Runtime.{Ledger, TaskAttemptRuntime, Method, take_active, ◌>>=◌}
use fairypam_rust_agent.Task.Runtime.Known.{known_answer}
use fairypam_rust_agent.Task.Runtime.Prepare.{
  prepare_again, prepare, prepare_inner, prepare_taken, prepare_new, unless_answered,
}
use fairypam_rust_agent.Task.Held.{load_active-loaded}
use fairypam_rust_agent.Task.Once.Stored.{Any}
use fairypam_rust_agent.Task.Contract.{is_uuid, is_digest}
use fairypam_rust_agent.Core.State.{is_some}
use fairypam_rust_agent.Task.Grant.Free.{
  IsFree, as_pending, opens_now-free, record_command-free, opened-as_pending,
}
use fairypam_rust_agent.Task.Grant.Written.{IsWritten, IsWritten-persist}

-- The task is well-formed, and names the attempt.
pub record IsAddressed (task : TaskCommandRef) (reference : AttemptRef) (command : CommandRef)
    (a : AttemptState) : Type 0 where
  pub attempted : task.attempt ≡ some reference
  pub named : task.command ≡ some command
  pub with_session : is_some command.session ≡ true
  pub with_id : is_empty command.command_id ≡ false
  pub payload : is_digest task.payload_digest ≡ true
  pub task_run : is_uuid reference.task_run_id ≡ true
  pub attempt : is_uuid reference.attempt_id ≡ true
  pub version : (reference.contract_version ≡ 1) ⊎ (reference.contract_version ≡ 3)
  pub digest : is_digest reference.contract_digest ≡ true
  pub its_own : a.reference ≡ reference

version-of : (n : ℕ) → (n ≡ 1) ⊎ (n ≡ 3) → (n == 1 || n == 3) ≡ true
version-of n h = ground arith

validate_task-addressed :
    (task : TaskCommandRef) (reference : AttemptRef) (command : CommandRef) (a : AttemptState)
    → IsAddressed task reference command a
    → validate_task task ≡ ok (reference, command)
unfolding validate_task
validate_task-addressed task reference command a w =
    rw
      (
        w.attempted,
        w.named,
        w.with_session,
        w.with_id,
        w.payload,
        w.task_run,
        w.attempt,
        version-of reference.contract_version w.version,
        w.digest,
      )
      refl

same_reference_refl : (r : AttemptRef) → same_reference r r ≡ true
same_reference_refl r = ground (
  arith,
  beq_iff r.task_run_id r.task_run_id,
  beq_iff r.attempt_id r.attempt_id,
  beq_iff r.contract_digest r.contract_digest,
)

require_reference-own :
    (reference : AttemptRef) (a : AttemptState)
    → a.reference ≡ reference
    → require_reference a reference ≡ ok tt
unfolding require_reference
require_reference-own reference a e =
    rw (subst (λ r. same_reference a.reference r ≡ true) e (same_reference_refl a.reference)) refl

module _ {W : Type 0} (sha256 : Bytes → Bytes) (io : Ledger W) (now : ℕ) (task : TaskCommandRef)
    (side_effect : Bool) (reference : AttemptRef) (command : CommandRef) (a : AttemptState)
    (addressed : IsAddressed task reference command a) (free : IsFree now command a) where
  other : beq a.last_command_id command.command_id ≡ false
  other = ground (arith, free.other, beq_iff a.last_command_id command.command_id)

  abbrev pending : AttemptState
  pending = as_pending command task.payload_digest side_effect a

  prepare_new-opens :
      (s : TaskAttemptRuntime W) (w : W)
      → IsWritten io s.root pending s.disk w
      → prepare_new sha256 io task command side_effect false max_business_command_results now a s
        ≡ (ok none, record s { active = some pending; disk = w })
  unfolding prepare_new
  prepare_new-opens s w saved =
      rw
        (
          opens_now-free now command a free,
          record_command-free now command task.payload_digest a free,
          opened-as_pending command task.payload_digest side_effect a,
          IsWritten-persist io pending s w saved,
        )
        refl

  prepare_taken-opens :
      (s : TaskAttemptRuntime W) (w : W)
      → IsWritten io s.root pending s.disk w
      → prepare_taken sha256 io task reference command side_effect false
          max_business_command_results now
          (some a)
          s
        ≡ (ok none, record s { active = some pending; disk = w })
  prepare_taken-opens s w saved = rw (require_reference-own reference a addressed.its_own) (
      subst
        (λ (b : Bool).
          (if b
              then prepare_again sha256 io task command side_effect false a
              else prepare_new sha256 io task command side_effect false max_business_command_results
                  now a)
            s
          ≡ (ok none, record s { active = some pending; disk = w }))
        (sym other) (prepare_new-opens s w saved))

  known_answer-none :
      (s : TaskAttemptRuntime W) → known_answer sha256 io task command (some a) s ≡ (ok none, s)
  unfolding known_answer
  known_answer-none s = rw (free.fresh, other) refl

  -- A command is prepared for execution whenever its task is well-formed and names the active
  -- attempt of a loaded runtime, no result of it is stored and the last command was another, the
  -- attempt is not terminal, its contract is of version 1 or its deadline is ahead, no side effect is
  -- intended or in doubt, the journal is shorter than the limit of business commands, the command's
  -- sequence is above the last one, if it is of the last command's session, and the ledger takes the
  -- attempt with the command as its pending one. That attempt is active afterwards.
  pub prepare-opens :
      (s : TaskAttemptRuntime W) (w : W)
      → s.loaded ≡ true
      → s.active ≡ some a
      → IsWritten io s.root pending s.disk w
      → prepare sha256 io now task side_effect s
        ≡ (ok none, record s { active = some pending; disk = w })
  unfolding prepare prepare_inner
  prepare-opens s w h held saved =
      rw
        (
          validate_task-addressed task reference command a addressed,
          load_active-loaded Any sha256 io s h,
        )
        (subst (λ (o : Option AttemptState). asked o s ≡ granted) (sym held)
          (rw (known_answer-none s) (
            subst (λ (o : Option AttemptState). taken o (record s { active = none }) ≡ granted)
              (sym held) (prepare_taken-opens (record s { active = none }) w saved))))
    where
      granted : Result AgentError (Option TaskCommandResult) × TaskAttemptRuntime W
      granted = (ok none, record s { active = some pending; disk = w })

      taken : Option AttemptState → Method W (Option TaskCommandResult)
      taken =
          prepare_taken sha256 io task reference command side_effect false
            max_business_command_results now

      asked : Option AttemptState → Method W (Option TaskCommandResult)
      asked active = known_answer sha256 io task command active >>= λ known.
          unless_answered sha256 io known (take_active >>= taken)
