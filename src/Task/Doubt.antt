-- ===== src/Task/Doubt.antt =====
-- bins/fairypam-agent/src/task_attempt.rs: a command that was recorded as a side effect and whose
-- outcome never came, because the agent stopped or an operation failed in between.
use fairypam_rust_agent.Base.{
  if◌then◌else◌, ℕ, Bool, true, false, ◌≡◌, refl, sym, Option, none, some, Bytes, beq, arith, subst,
  ap,
}
use fairypam_rust_agent.Base.Result.{Result, ok}
use fairypam_rust_agent.Core.Error.{AgentError}
use fairypam_rust_agent.Task.Wire.{
  TaskCommandRef, AttemptRef, CommandRef, TaskCommandResult, TaskCommandOutcomeState,
  TaskSideEffectState, outcome_code, side_effect_code,
}
use fairypam_rust_agent.Task.Data.{AttemptState, max_business_command_results}
use fairypam_rust_agent.Task.State.{
  stored_result, require_reference, require_same_command, command_result, store_current_result,
}
use fairypam_rust_agent.Task.State.Check.{validate_task}
use fairypam_rust_agent.Task.Runtime.{
  Ledger, TaskAttemptRuntime, Method, resume, take_active, active_now, ◌>>=◌,
}
use fairypam_rust_agent.Task.Runtime.Load.{load_active}
use fairypam_rust_agent.Task.Runtime.Prepare.{
  prepare, prepare_inner, prepare_taken, prepare_again, prepare_new, unless_answered, conclude_some,
  pending,
}
use fairypam_rust_agent.Task.Runtime.Known.{known_answer}
use fairypam_rust_agent.Task.Held.{load_active-loaded, store_current_result-ok, stored}
use fairypam_rust_agent.Task.Held.Post.{Post, return-Post, restore-Post, lift-Post, save-Post}
use fairypam_rust_agent.Task.Once.Stored.{Any}
use fairypam_rust_agent.Task.Once.{validate_task-command}

-- The command was recorded as a side effect, and has no outcome.
pub record IsOpen (task : TaskCommandRef) (command : CommandRef) (a : AttemptState) : Type 0 where
  pub named : task.command ≡ some command
  pub last : beq a.last_command_id command.command_id ≡ true
  pub same_payload : beq a.last_command_payload_digest task.payload_digest ≡ true
  pub unstored : stored_result a command.command_id ≡ none
  pub without_outcome : pending a ≡ true
  pub intended : a.side_effect_state ≡ side_effect_code TaskSideEffectState.intent_recorded

-- The answer is that it is not known whether the command acted, and the attempt says so.
abbrev pub InDoubt : {W : Type 0} → Option TaskCommandResult → TaskAttemptRuntime W → Type 0
InDoubt answer t =
    ((r : TaskCommandResult) × (answer ≡ some r)
      × (r.outcome.outcome ≡ outcome_code TaskCommandOutcomeState.uncertain)
      × (r.outcome.error_code ≡ some "side_effect_uncertain"))
    × ((b : AttemptState) × (t.active ≡ some b)
        × (b.side_effect_state ≡ side_effect_code TaskSideEffectState.uncertain))

abbrev uncertain_now : AttemptState → AttemptState
uncertain_now a = record a {
  side_effect_state = side_effect_code TaskSideEffectState.uncertain;
  last_command_outcome = outcome_code TaskCommandOutcomeState.uncertain;
  last_command_error_code = some "side_effect_uncertain";
  error_code = some "side_effect_uncertain";
}

module _ {W : Type 0} (sha256 : Bytes → Bytes) (io : Ledger W) where
  conclude_some-InDoubt :
      (a : AttemptState) (s : TaskAttemptRuntime W)
      → Post InDoubt (conclude_some sha256 io (stored (uncertain_now a)) s)
  unfolding command_result
  conclude_some-InDoubt a s =
      return-Post InDoubt (some _) (record s { active = some (stored (uncertain_now a)) })
        ((_, refl, refl, refl), (stored (uncertain_now a), refl, refl))

  prepare_again-InDoubt :
      (task : TaskCommandRef) (command : CommandRef) (a : AttemptState) (s : TaskAttemptRuntime W)
      → s.loaded ≡ true
      → IsOpen task command a
      → Post InDoubt (prepare_again sha256 io task command true false a s)
  unfolding prepare_again
  prepare_again-InDoubt task command a s h o =
      restore-Post InDoubt a (require_same_command a command.command_id task.payload_digest) s _
        (λ _ _.
          rw (o.without_outcome, o.intended)
            (restore-Post InDoubt (uncertain_now a) (store_current_result (uncertain_now a)) s _
              (λ c kept. save-Post InDoubt io c c s _ h (λ s' h'.
                subst (λ (x : AttemptState). Post InDoubt (conclude_some sha256 io x s'))
                  (store_current_result-ok (uncertain_now a) c kept).1
                  (conclude_some-InDoubt a s')))))

  taken-InDoubt :
      (task : TaskCommandRef) (reference : AttemptRef) (command : CommandRef) (now : ℕ)
      (a : AttemptState) (s : TaskAttemptRuntime W)
      → s.loaded ≡ true
      → IsOpen task command a
      → Post InDoubt (
          prepare_taken sha256 io task reference command true false max_business_command_results now
            (some a)
            s)
  taken-InDoubt task reference command now a s h o =
      restore-Post InDoubt a (require_reference a reference) s _ (λ _ _.
        subst (λ (b : Bool). Post InDoubt (chosen b s)) (sym o.last)
          (prepare_again-InDoubt task command a s h o))
    where
      chosen : Bool → Method W (Option TaskCommandResult)
      chosen b =
          if b
          then prepare_again sha256 io task command true false a
          else prepare_new sha256 io task command true false max_business_command_results now a

  -- When a loaded runtime's active attempt has the command on record as a side effect without an
  -- outcome, and the same command is prepared again with the same payload, then, if the call
  -- succeeds, it is not executed a second time: the answer is that its outcome is uncertain, and the
  -- attempt, still active, holds an uncertain side effect.
  pub prepare-InDoubt :
      (now : ℕ) (task : TaskCommandRef) (command : CommandRef) (a : AttemptState)
      (answer : Option TaskCommandResult) (s t : TaskAttemptRuntime W)
      → s.loaded ≡ true
      → s.active ≡ some a
      → IsOpen task command a
      → prepare sha256 io now task true s ≡ (ok answer, t)
      → InDoubt answer t
  unfolding prepare prepare_inner known_answer
  prepare-InDoubt now task command a answer s t h held o e =
      subst (λ (r : TaskAttemptRuntime W). InDoubt answer r)
        (ap (λ (r : Result AgentError (Option TaskCommandResult) × TaskAttemptRuntime W). r.1) e)
        (lift-Post InDoubt (validate_task task) s _
          (λ x valid. started x (ground (arith, validate_task-command task x valid, o.named)))
          answer
          (ap (λ (r : Result AgentError (Option TaskCommandResult) × TaskAttemptRuntime W). r.0) e))
    where
      asked : AttemptRef × CommandRef → Option AttemptState → Method W (Option TaskCommandResult)
      asked x active = known_answer sha256 io task x.1 active >>= λ known.
          unless_answered sha256 io known (
            take_active
            >>= prepare_taken sha256 io task x.0 x.1 true false max_business_command_results now)

      reached : (reference : AttemptRef) → Post InDoubt (asked (reference, command) (some a) s)
      reached reference =
          rw (o.unstored, o.last, o.same_payload, held)
            (taken-InDoubt task reference command now a (record s { active = none }) h o)

      started :
          (x : AttemptRef × CommandRef)
          → x.1 ≡ command
          → Post InDoubt (resume (load_active sha256 io s) (λ done. active_now >>= asked x))
      started x same = rw (load_active-loaded Any sha256 io s h) (
          subst (λ (p : Option AttemptState). Post InDoubt (asked x p s)) (sym held)
            (subst (λ (c : CommandRef). Post InDoubt (asked (x.0, c) (some a) s)) (sym same)
              (reached x.0)))
