-- ===== src/Task/Grant.antt =====
-- bins/fairypam-agent/src/task_attempt.rs: when a command may be executed, and what is on record then.
pub mod Free
pub mod Written
pub mod Opens
use fairypam_rust_agent.Base.{
  ◌≢◌, if◌then◌else◌, ℕ, Bool, true, false, ◌≡◌, refl, sym, Option, none, some, Bytes, beq, ◌==◌,
  arith, Bool-cases, inl, inr, subst, ap, ◌∙◌,
}
use fairypam_rust_agent.Base.Result.{Result, ok, err}
use fairypam_rust_agent.Core.Error.{AgentError}
use fairypam_rust_agent.Task.Wire.{
  TaskCommandRef, AttemptRef, CommandRef, TaskCommandResult, TaskAttemptState, attempt_code,
}
use fairypam_rust_agent.Task.Data.{AttemptState, StoredCommandResult, max_business_command_results}
use fairypam_rust_agent.Task.State.{
  stored_result, record_command, require_reference, require_same_command, effect_unresolved,
  command_result, store_current_result,
}
use fairypam_rust_agent.Task.State.Check.{validate_task}
use fairypam_rust_agent.Task.Runtime.{
  Ledger, TaskAttemptRuntime, Method, resume, return, take_active, active_now, ◌>>=◌, persist,
}
use fairypam_rust_agent.Task.Runtime.Load.{load_active}
use fairypam_rust_agent.Task.Runtime.Prepare.{
  storing, prepare, prepare_inner, prepare_taken, prepare_again, prepare_new, unless_answered,
  opened, opens_now, contract_expired, conclude_some, pending, interrupted,
}
use fairypam_rust_agent.Task.Runtime.Known.{
  known_answer, known_in, answer_stored, payload_digest_conflict,
}
use fairypam_rust_agent.Task.Held.{recorded, record_command-ok, load_active-loaded}
use fairypam_rust_agent.Task.Held.Post.{
  Post, return-Post, restore-Post, lift-Post, resume-Post, save-Post, restoring-Post,
}
use fairypam_rust_agent.Task.Once.Stored.{Any}
use fairypam_rust_agent.Task.Grant.Free.{IsFree, as_pending, IsFree-intro, opened-as_pending}
use fairypam_rust_agent.Task.Grant.Written.{IsWritten, persist-IsWritten}
use fairypam_rust_agent.Task.Once.{validate_task-command}

-- A command is granted: nothing stands against it, the attempt has it as its pending command, and is
-- on record so.
pub record IsGranted {W : Type 0} (io : Ledger W) (now : ℕ) (task : TaskCommandRef)
    (side_effect : Bool) (a : AttemptState) (before after : TaskAttemptRuntime W) : Type 0 where
  pub command : CommandRef
  pub named : task.command ≡ some command
  pub free : IsFree now command a
  pub active : after.active ≡ some (as_pending command task.payload_digest side_effect a)
  pub on_record :
      IsWritten io before.root
        (as_pending command task.payload_digest side_effect a)
        before.disk
        after.disk

some≢none : {A : Type 0} {x : A} → some x ≢ none
some≢none e = cc

module _ {W : Type 0} (sha256 : Bytes → Bytes) (io : Ledger W) where
  some-answer :
      (r : Result AgentError TaskCommandResult × TaskAttemptRuntime W) (s' : TaskAttemptRuntime W)
      → resume r (λ answer. return (some answer)) ≡ (ok none, s')
      → ⊥
  some-answer (ok answer, s) s' e = cc
  some-answer (err x, s) s' e = cc

  known_in-none :
      (task : TaskCommandRef) (command : CommandRef) (a : AttemptState)
      (o : Option StoredCommandResult) (s s' : TaskAttemptRuntime W)
      → known_in sha256 io task command a o s ≡ (ok none, s')
      → (o ≡ none) × (s ≡ s')
  known_in-none task command a (some r) s s' e =
      absurd (some-answer (answer_stored sha256 io task a r s) s' e)
  known_in-none task command a none s s' e = (refl, go _ e)
    where
      go :
          (b : Bool)
          → (if b
                then payload_digest_conflict sha256 io task >>= (λ answer. return (some answer))
                else return none)
              s
            ≡ (ok none, s')
          → s ≡ s'
      go true e = absurd (some-answer (payload_digest_conflict sha256 io task s) s' e)
      go false e =
          ap (λ (r : Result AgentError (Option TaskCommandResult) × TaskAttemptRuntime W). r.1) e

  -- A command is executed only when it is granted in this sense.
  abbrev Grants :
      ℕ
      → TaskCommandRef
      → Bool
      → AttemptState
      → TaskAttemptRuntime W
      → Option TaskCommandResult
      → TaskAttemptRuntime W
      → Type 0
  Grants now task side_effect a before answer after =
      answer ≡ none → IsGranted io now task side_effect a before after

  module _ (now : ℕ) (task : TaskCommandRef) (side_effect : Bool) (a : AttemptState)
      (before : TaskAttemptRuntime W) where
    conclude_some-Post :
        (b : AttemptState) (s : TaskAttemptRuntime W)
        → Post (Grants now task side_effect a before) (conclude_some sha256 io b s)
    conclude_some-Post b s =
        lift-Post (Grants now task side_effect a before) (command_result b) s _ (λ answer _.
          return-Post (Grants now task side_effect a before) (some answer)
            (record s { active = some b }) (λ e. absurd (some≢none e)))

    prepare_again-Post :
        (command : CommandRef) (s : TaskAttemptRuntime W)
        → s.loaded ≡ true
        → Post
            (Grants now task side_effect a before)
            (prepare_again sha256 io task command side_effect false a s)
    unfolding prepare_again
    prepare_again-Post command s h =
        restore-Post (Grants now task side_effect a before) a
          (require_same_command a command.command_id task.payload_digest) s _
          (λ _ _. closed (pending a))
      where
        closed :
            (b : Bool)
            → Post (Grants now task side_effect a before) (
                (if b
                    then storing sha256 io (interrupted side_effect a) (conclude_some sha256 io)
                    else conclude_some sha256 io a)
                  s)
        closed true =
            restore-Post (Grants now task side_effect a before) (interrupted side_effect a)
              (store_current_result (interrupted side_effect a)) s _
              (λ c _.
                save-Post (Grants now task side_effect a before) io c c s _ h
                  (λ s' h'. conclude_some-Post c s'))
        closed false = conclude_some-Post a s

    prepare_new-Post :
        (command : CommandRef)
        → task.command ≡ some command
        → stored_result a command.command_id ≡ none
        → beq a.last_command_id command.command_id ≡ false
        → Post (Grants now task side_effect a before) (
            prepare_new sha256 io task command side_effect false max_business_command_results now a
              (record before { active = none }))
    unfolding prepare_new
    prepare_new-Post command named fresh other =
        let s = record before { active = none } in
        restore-Post (Grants now task side_effect a before) a (opens_now now a) s _ (λ _ opens.
          restore-Post (Grants now task side_effect a before) a
            (record_command command task.payload_digest max_business_command_results a) s _
            (λ b kept.
              restoring-Post (Grants now task side_effect a before) (opened command side_effect b)
                (persist io (opened command side_effect b) s) _
                (λ s' saved.
                  return-Post (Grants now task side_effect a before) none
                    (record s' { active = some (opened command side_effect b) })
                    (λ _. granted b opens kept s' saved))))
      where
        granted :
            (b : AttemptState)
            → opens_now now a ≡ ok tt
            → record_command command task.payload_digest max_business_command_results a ≡ ok b
            → (s' : TaskAttemptRuntime W)
            → persist io (opened command side_effect b) (record before { active = none })
              ≡ (ok tt, s')
            → IsGranted io now task side_effect a before
                (record s' { active = some (opened command side_effect b) })
        granted b opens kept s' saved =
            let pending : opened command side_effect b
                ≡ as_pending command task.payload_digest side_effect a =
              ap (opened command side_effect) (
                sym
                  (record_command-ok command task.payload_digest max_business_command_results a b
                    kept).1)
              ∙ opened-as_pending command task.payload_digest side_effect a in
            record {
              command = command;
              named = named;
              free = IsFree-intro now command task.payload_digest a b fresh other opens kept;
              active = ap some pending;
              on_record =
                  subst (λ c. IsWritten io before.root c before.disk s'.disk) pending
                    (persist-IsWritten io (opened command side_effect b)
                      (record before { active = none }) s' saved).0;
            }

    prepare_taken-Post :
        (reference : AttemptRef) (command : CommandRef)
        → before.loaded ≡ true
        → task.command ≡ some command
        → stored_result a command.command_id ≡ none
        → Post (Grants now task side_effect a before) (
            prepare_taken sha256 io task reference command side_effect false
              max_business_command_results now
              (some a)
              (record before { active = none }))
    prepare_taken-Post reference command h named fresh =
        restore-Post (Grants now task side_effect a before) a (require_reference a reference)
          (record before { active = none }) _
          (λ _ _. elim (Bool-cases (beq a.last_command_id command.command_id)) [
            | inl e ↦ rw e (prepare_again-Post command (record before { active = none }) h)
            | inr e ↦ rw e (prepare_new-Post command named fresh e)
          ])

  -- When `prepare` of a loaded runtime with an active attempt returns that a command is to be
  -- executed, then no result of the command is stored and the last command was another; the attempt
  -- is not terminal, its contract is of version 1 or its deadline is ahead, and no side effect is
  -- intended or in doubt; the journal is shorter than the limit of business commands, and the
  -- command's sequence is above the last one, if it is of the last command's session. The attempt
  -- that is active afterwards is the one before with that command recorded as pending, and as the
  -- intended side effect if it is one; and if the runtime has a directory, that attempt has been
  -- appended as a line to its file there.
  pub prepare-IsGranted :
      (now : ℕ) (task : TaskCommandRef) (side_effect : Bool) (a : AttemptState)
      (s t : TaskAttemptRuntime W)
      → s.loaded ≡ true
      → s.active ≡ some a
      → prepare sha256 io now task side_effect s ≡ (ok none, t)
      → IsGranted io now task side_effect a s t
  unfolding prepare prepare_inner known_answer
  prepare-IsGranted now task side_effect a s t h held e =
      subst (λ (r : TaskAttemptRuntime W). IsGranted io now task side_effect a s r)
        (ap (λ (r : Result AgentError (Option TaskCommandResult) × TaskAttemptRuntime W). r.1) e)
        (lift-Post (Grants now task side_effect a s) (validate_task task) s _ started none
          (ap (λ (r : Result AgentError (Option TaskCommandResult) × TaskAttemptRuntime W). r.0) e)
          refl)
    where
      rest :
          AttemptRef × CommandRef → Option TaskCommandResult → Method W (Option TaskCommandResult)
      rest x known = unless_answered sha256 io known (
          take_active
          >>= prepare_taken sha256 io task x.0 x.1 side_effect false max_business_command_results
              now)

      asked : AttemptRef × CommandRef → Option AttemptState → Method W (Option TaskCommandResult)
      asked x active = known_answer sha256 io task x.1 active >>= rest x

      answered :
          (x : AttemptRef × CommandRef)
          → task.command ≡ some x.1
          → (known : Option TaskCommandResult) (s' : TaskAttemptRuntime W)
          → known_in sha256 io task x.1 a (stored_result a x.1.command_id) s ≡ (ok known, s')
          → Post (Grants now task side_effect a s) (rest x known s')
      answered x named (some answer) s' k =
          return-Post (Grants now task side_effect a s) (some answer) s' (λ n. absurd (some≢none n))
      answered x named none s' k =
          let (fresh, same) = known_in-none task x.1 a (stored_result a x.1.command_id) s s' k in
          subst
            (λ (r : TaskAttemptRuntime W). Post (Grants now task side_effect a s) (rest x none r))
            same
            (subst
              (λ (o : Option AttemptState). Post (Grants now task side_effect a s) (
                prepare_taken sha256 io task x.0 x.1 side_effect false max_business_command_results
                  now o (record s { active = none })))
              (sym held) (prepare_taken-Post now task side_effect a s x.0 x.1 h named fresh))

      started :
          (x : AttemptRef × CommandRef)
          → validate_task task ≡ ok x
          → Post
              (Grants now task side_effect a s)
              (resume (load_active sha256 io s) (λ done. active_now >>= asked x))
      started x valid = rw (load_active-loaded Any sha256 io s h) (
          subst (λ (o : Option AttemptState). Post (Grants now task side_effect a s) (asked x o s))
            (sym held)
            (resume-Post (Grants now task side_effect a s)
              (known_in sha256 io task x.1 a (stored_result a x.1.command_id) s) (rest x)
              (answered x (validate_task-command task x valid))))
