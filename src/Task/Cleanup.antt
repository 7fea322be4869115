-- ===== src/Task/Cleanup.antt =====
-- bins/fairypam-agent/src/task_attempt.rs: what `cleanup_complete` says of an attempt that is over, and
-- whether its record is one that can be read back.
use fairypam_rust_agent.Base.{
  ℕ, Bool, true, false, ◌≡◌, refl, ◌&&◌, none, some, Bytes, arith, subst, ap,
}
use fairypam_rust_agent.Base.Result.{Result, ok, err, passed_on, ensure-eq-ok, ensure}
use fairypam_rust_agent.Core.Error.{AgentError}
use fairypam_rust_agent.Task.Wire.{
  TaskCommandRef, CommandRef, TaskCommandResult, TaskCommandOutcomeState, TaskAttemptState,
  TaskInputState, input_code, attempt_code,
}
use fairypam_rust_agent.Task.Data.{AttemptState, ledger_invalid, message}
use fairypam_rust_agent.Task.State.{
  require_same_command, command_result, store_current_result, capture_idle, target_settled,
  effect_unresolved,
}
use fairypam_rust_agent.Task.State.Check.{
  validate_task, validate, validate_contract, validate_contract_reference, cleanup_done, bool_eq,
  reports_cleanup, fields_fit,
}
use fairypam_rust_agent.Task.Runtime.{Ledger, TaskAttemptRuntime}
use fairypam_rust_agent.Task.Runtime.Complete.{
  complete_release, complete, complete_taken, released_input, with_outcome,
}
use fairypam_rust_agent.Task.Held.{store_current_result-ok, stored}
use fairypam_rust_agent.Task.Held.Post.{Post, return-Post, restore-Post, lift-Post, save-Post}

-- An attempt that was finished while its input could not be released, and is clean but for that.
pub record IsStuck (sha256 : Bytes → Bytes) (a : AttemptState) : Type 0 where
  pub valid : validate sha256 a ≡ ok tt
  pub over : a.attempt_state ≡ attempt_code TaskAttemptState.terminal
  pub input_unknown : a.input_state ≡ input_code TaskInputState.unknown
  pub capture_off : capture_idle a.capture_state ≡ true
  pub target_known : target_settled a.owned_target_state ≡ true
  pub resolved : effect_unresolved a.side_effect_state ≡ false

abbrev after_release : AttemptState → AttemptState
after_release a =
    stored (released_input true (with_outcome TaskCommandOutcomeState.applied none none false a))

module _ (sha256 : Bytes → Bytes) where
  validate-parts :
      (a : AttemptState)
      → validate sha256 a ≡ ok tt
      → (validate_contract sha256 a.contract ≡ ok tt)
        × (validate_contract_reference a.reference (message a.contract) ≡ ok tt)
        × (reports_cleanup a ≡ true)
  unfolding validate
  validate-parts a e =
      let (_, second, first) = passed_on _ (validate_contract sha256 a.contract) e in
      let (_, third, reference) =
        passed_on _ (validate_contract_reference a.reference (message a.contract)) second in
      (first, reference, last (fields_fit a) (reports_cleanup a) (ensure-eq-ok _ _ third))
    where
      last : (p q : Bool) → (p && q) ≡ true → q ≡ true
      last p q h = ground arith

  -- The released input makes the clean-up complete, and the attempt still denies it.
  after_release-reports_cleanup :
      (a : AttemptState)
      → IsStuck sha256 a
      → reports_cleanup a ≡ true
      → reports_cleanup (after_release a) ≡ false
  unfolding reports_cleanup
  after_release-reports_cleanup a v e =
      denied a.cleanup_complete a.attempt_state a.side_effect_state a.input_state a.capture_state
        a.owned_target_state v.over v.input_unknown v.capture_off v.target_known v.resolved e
    where
      denied :
          (cleanup : Bool) (attempt effect input capture target : ℕ)
          → attempt ≡ 6
          → input ≡ 3
          → capture_idle capture ≡ true
          → target_settled target ≡ true
          → effect_unresolved effect ≡ false
          → bool_eq cleanup (cleanup_done attempt effect input capture target) ≡ true
          → bool_eq cleanup (cleanup_done attempt effect 1 capture target) ≡ false
      denied cleanup attempt effect input capture target h1 h2 h3 h4 h5 h6 = ground arith

  after_release-validate :
      (a : AttemptState) → IsStuck sha256 a → validate sha256 (after_release a) ≡ err ledger_invalid
  unfolding validate
  after_release-validate a v =
      let (contract, reference, cleanup) = validate-parts a v.valid in
      rw (contract, reference)
        (refused (fields_fit (after_release a)) (reports_cleanup (after_release a))
          (after_release-reports_cleanup a v cleanup))
    where
      refused :
          (p q : Bool)
          → q ≡ false
          → ensure {E = AgentError} (p && q) ledger_invalid ≡ err ledger_invalid
      refused p q h = ground arith

  -- The attempt that is active afterwards is one whose record cannot be read back.
  abbrev pub IsUnreadable : {W : Type 0} → TaskCommandResult → TaskAttemptRuntime W → Type 0
  IsUnreadable answer t =
      (b : AttemptState) × (t.active ≡ some b) × (validate sha256 b ≡ err ledger_invalid)

  module _ {W : Type 0} (io : Ledger W) where
    complete_taken-IsUnreadable :
        (task : TaskCommandRef) (command : CommandRef) (a : AttemptState) (s : TaskAttemptRuntime W)
        → s.loaded ≡ true
        → IsStuck sha256 a
        → Post IsUnreadable (
            complete_taken sha256 io task command TaskCommandOutcomeState.applied none none false
              (released_input true)
              (some a)
              s)
    unfolding complete_taken
    complete_taken-IsUnreadable task command a s h v =
        restore-Post IsUnreadable a (require_same_command a command.command_id task.payload_digest)
          s _
          (λ _ _. restore-Post IsUnreadable changed (store_current_result changed) s _ (λ c kept.
            save-Post IsUnreadable io c c s _ h (λ s' h'.
              lift-Post IsUnreadable (command_result c) s' _ (λ answer _.
                return-Post IsUnreadable answer (record s' { active = some c })
                  (
                    c,
                    refl,
                    rw⁻¹ (store_current_result-ok changed c kept).1 (after_release-validate a v),
                  )))))
      where
        changed : AttemptState
        changed =
            released_input true (with_outcome TaskCommandOutcomeState.applied none none false a)

    -- An attempt that was finished while its input could not be released, its capture being off, its
    -- target settled and its side effects resolved, is left with `cleanup_complete` false by a
    -- release that succeeds: the state that `complete_release` then stores is refused by `validate`,
    -- with which a ledger is read back.
    pub complete_release-IsUnreadable :
        (task : TaskCommandRef) (a : AttemptState) (answer : TaskCommandResult)
        (s t : TaskAttemptRuntime W)
        → s.loaded ≡ true
        → s.active ≡ some a
        → IsStuck sha256 a
        → complete_release sha256 io task none true s ≡ (ok answer, t)
        → IsUnreadable answer t
    unfolding complete_release complete
    complete_release-IsUnreadable task a answer s t h held v e =
        subst (λ (r : TaskAttemptRuntime W). IsUnreadable answer r)
          (ap (λ (r : Result AgentError TaskCommandResult × TaskAttemptRuntime W). r.1) e)
          (lift-Post IsUnreadable (validate_task task) s _
            (λ x _.
              rw held (complete_taken-IsUnreadable task x.1 a (record s { active = none }) h v))
            answer (ap (λ (r : Result AgentError TaskCommandResult × TaskAttemptRuntime W). r.0) e))
