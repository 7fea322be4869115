-- ===== src/Task/Once/Stored.antt =====
-- bins/fairypam-agent/src/task_attempt.rs: an outcome that `complete` accepts, and its command.
use fairypam_rust_agent.Base.{
  ℕ, Bool, true, false, ◌≡◌, ◌≢◌, refl, sym, ◌∙◌, Option, none, some, List, Bytes, beq, all, arith,
  subst, beq_iff, beq_refl, ap, String,
}
use fairypam_rust_agent.Base.Sets.{get-put}
use fairypam_rust_agent.Base.Result.{Result, ok, passed_on, ensure-eq-ok, ensure}
use fairypam_rust_agent.Core.Error.{AgentError}
use fairypam_rust_agent.Core.State.{failure}
use fairypam_rust_agent.Task.Wire.{
  TaskCommandRef, AttemptRef, CommandRef, TaskCommandResult, TaskCommandOutcomeState, outcome_code,
}
use fairypam_rust_agent.Task.Data.{AttemptState}
use fairypam_rust_agent.Task.State.{
  current_result, is_specified_outcome, require_same_command, store_current_result, command_result,
}
use fairypam_rust_agent.Task.State.Check.{validate_task}
use fairypam_rust_agent.Task.Runtime.{take_active, ◌>>=◌, Ledger, TaskAttemptRuntime, Method}
use fairypam_rust_agent.Task.Runtime.Load.{Journal}
use fairypam_rust_agent.Task.Runtime.Prepare.{prepare_inner}
use fairypam_rust_agent.Task.Runtime.Complete.{complete, complete_taken, with_outcome}
use fairypam_rust_agent.Task.Runtime.Calls.{Call, is_told, run}
use fairypam_rust_agent.Task.Held.{Held, Inv, stored-Inv, store_current_result-ok, stored, IsStable}
use fairypam_rust_agent.Task.Held.Complete.{IsLocal, changed-Inv}
use fairypam_rust_agent.Task.Held.Post.{Post, restore-Post, lift-Post, save-Post}
use fairypam_rust_agent.Task.Held.Run.{run-Held}
use fairypam_rust_agent.Task.Once.{
  Remembers, Remembers-IsStable, validate_task-command, prepare_inner-Refuses,
}

require_same_command-ok :
    (a : AttemptState) (id d : Bytes)
    → require_same_command a id d ≡ ok tt
    → (a.last_command_id ≡ id) × (a.last_command_payload_digest ≡ d)
unfolding require_same_command
require_same_command-ok a id d e =
    let (_, second, first) =
      passed_on _ (ensure (beq a.last_command_id id) (failure "attempt_already_claimed")) e in
    (
      ground (arith, ensure-eq-ok _ _ first, beq_iff a.last_command_id id),
      ground (arith, ensure-eq-ok _ _ second, beq_iff a.last_command_payload_digest d),
    )

-- Nothing is asked of the journal.
abbrev pub Any : Journal → Type 0
Any m = Unit {0}

-- A method that succeeds leaves an attempt whose journal has the property.
abbrev pub Ends :
    {W A : Type 0} → (Journal → Type 0) → Result AgentError A × TaskAttemptRuntime W → Type 0
Ends J = Post (λ answer s. Held J s)

-- What an outcome leaves of the command that it is the outcome of.
with_outcome-keeps :
    (outcome : TaskCommandOutcomeState) (source : Option ℕ) (error : Option String)
    (side_effect : Bool) (a : AttemptState)
    → ((with_outcome outcome source error side_effect a).last_command_id ≡ a.last_command_id)
      × ((with_outcome outcome source error side_effect a).last_command_payload_digest
          ≡ a.last_command_payload_digest)
with_outcome-keeps outcome source error true a = (refl, refl)
with_outcome-keeps outcome source error false a = (refl, refl)

pub Any-IsStable : IsStable Any
Any-IsStable a b h e = tt

pub stored-Remembers :
    (a : AttemptState)
    → Remembers a.last_command_id a.last_command_payload_digest (stored a).command_results
stored-Remembers a =
    rw
      (
        get-put a.last_command_id a.last_command_id (current_result a) a.command_results,
        beq_refl a.last_command_id,
      )
      refl

renamed :
    {id d : Bytes} (a b : AttemptState)
    → stored a ≡ b
    → a.last_command_id ≡ id
    → a.last_command_payload_digest ≡ d
    → Remembers id d b.command_results
renamed {id} {d} a b e f g =
    subst (λ (c : AttemptState). Remembers id d c.command_results) e
      (subst (λ (i : Bytes). Remembers i d (stored a).command_results) f
        (subst (λ (x : Bytes). Remembers a.last_command_id x (stored a).command_results) g
          (stored-Remembers a)))

module _ {W : Type 0} (sha256 : Bytes → Bytes) (io : Ledger W) where
  complete_taken-Remembers :
      (task : TaskCommandRef) (command : CommandRef) (outcome : TaskCommandOutcomeState)
      (source : Option ℕ) (error : Option String) (side_effect : Bool)
      (update : AttemptState → AttemptState) (a : AttemptState) (s : TaskAttemptRuntime W)
      → IsLocal update
      → is_specified_outcome (outcome_code outcome) ≡ true
      → s.loaded ≡ true
      → Inv Any a
      → Ends
          (Remembers command.command_id task.payload_digest)
          (complete_taken sha256 io task command outcome source error side_effect update (some a) s)
  unfolding complete_taken
  complete_taken-Remembers task command outcome source error side_effect update a s local e h v =
      restore-Post (λ answer s. Held J s) a
        (require_same_command a command.command_id task.payload_digest) s _
        (λ _ same.
          restore-Post (λ answer s. Held J s) changed (store_current_result changed) s _
            (λ c kept.
              save-Post (λ answer s. Held J s) io c c s _ h
                (λ s' h'.
                  lift-Post (λ answer s. Held J s) (command_result c) s' _
                    (λ _ _ _ _. (h', (c, refl, remembered c same kept))))))
    where
      J : Journal → Type 0
      J = Remembers command.command_id task.payload_digest

      changed : AttemptState
      changed = update (with_outcome outcome source error side_effect a)

      remembered :
          (c : AttemptState)
          → require_same_command a command.command_id task.payload_digest ≡ ok tt
          → store_current_result changed ≡ ok c
          → Inv J c
      remembered c same kept =
          let b = with_outcome outcome source error side_effect a in
          let u =
            changed-Inv Any Any-IsStable sha256 io outcome source error side_effect update a local e
              v in
          let w = stored-Inv Any Any-IsStable changed c u.0 u.1 kept in
          let (id, digest) =
            require_same_command-ok a command.command_id task.payload_digest same in
          let (id', digest') = with_outcome-keeps outcome source error side_effect a in
          (
            w.0,
            w.1,
            renamed changed c (store_current_result-ok changed c kept).1 ((local b).2 ∙ id' ∙ id)
                ((local b).3 ∙ digest' ∙ digest),
          )

  complete-Remembers :
      (task : TaskCommandRef) (command : CommandRef) (outcome : TaskCommandOutcomeState)
      (source : Option ℕ) (error : Option String) (side_effect : Bool)
      (update : AttemptState → AttemptState) (answer : TaskCommandResult)
      (s t : TaskAttemptRuntime W)
      → Held Any s
      → task.command ≡ some command
      → IsLocal update
      → is_specified_outcome (outcome_code outcome) ≡ true
      → complete sha256 io task outcome source error side_effect update s ≡ (ok answer, t)
      → Held (Remembers command.command_id task.payload_digest) t
  unfolding complete
  complete-Remembers task command outcome source error side_effect update answer s t
        (h, (a, held, v)) named local e done =
      subst
        (λ (r : TaskAttemptRuntime W). Held (Remembers command.command_id task.payload_digest) r)
        (ap (λ (r : Result AgentError TaskCommandResult × TaskAttemptRuntime W). r.1) done)
        (lift-Post (λ answer s. Held (Remembers command.command_id task.payload_digest) s)
          (validate_task task) s step
          (λ x valid. ended x (ground (arith, validate_task-command task x valid, named))) answer
          (ap (λ (r : Result AgentError TaskCommandResult × TaskAttemptRuntime W). r.0) done))
    where
      step : AttemptRef × CommandRef → Method W TaskCommandResult
      step x =
          take_active >>= complete_taken sha256 io task x.1 outcome source error side_effect update

      ended :
          (x : AttemptRef × CommandRef)
          → x.1 ≡ command
          → Ends (Remembers command.command_id task.payload_digest) (step x s)
      ended x same =
          subst (λ (c : CommandRef). Ends (Remembers c.command_id task.payload_digest) (step x s))
            same
            (rw held (
              complete_taken-Remembers task x.1 outcome source error side_effect update a
                (record s { active = none }) local e h v))

  -- A command whose outcome was accepted by `complete`, the change of the attempt with it being one
  -- that leaves the last command as it is, is never prepared for execution again: after any public
  -- calls other than one that begins an attempt and a `complete_input_frame` with the outcome
  -- `Unspecified`, no preparation of a task with that command identifier, of whatever payload and
  -- kind, returns that the command is to be executed.
  pub complete-prepare_inner :
      (task again : TaskCommandRef) (command repeated : CommandRef)
      (outcome : TaskCommandOutcomeState) (source : Option ℕ) (error : Option String)
      (side_effect : Bool) (update : AttemptState → AttemptState) (answer : TaskCommandResult)
      (s t : TaskAttemptRuntime W) (calls : List Call) (now : ℕ) (acts allow_uncertain : Bool)
      (limit : ℕ)
      → Held Any s
      → task.command ≡ some command
      → IsLocal update
      → is_specified_outcome (outcome_code outcome) ≡ true
      → complete sha256 io task outcome source error side_effect update s ≡ (ok answer, t)
      → all is_told calls ≡ true
      → again.command ≡ some repeated
      → repeated.command_id ≡ command.command_id
      → (prepare_inner sha256 io now again acts allow_uncertain limit (run sha256 io calls t)).0
        ≢ ok none
  complete-prepare_inner task again command repeated outcome source error side_effect update answer
        s t calls now acts allow_uncertain limit v named local e done told named' same =
      prepare_inner-Refuses sha256 io now again acts allow_uncertain limit repeated
        task.payload_digest (run sha256 io calls t) named'
        (subst (λ (id : Bytes). Held (Remembers id task.payload_digest) (run sha256 io calls t))
          (sym same)
          (run-Held (Remembers command.command_id task.payload_digest)
            (Remembers-IsStable command.command_id task.payload_digest) sha256 io calls t told
            (complete-Remembers task command outcome source error side_effect update answer s t v
              named local e done)))
