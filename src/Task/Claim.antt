-- ===== src/Task/Claim.antt =====
-- bins/fairypam-agent/src/task_attempt.rs: what a claim of an attempt establishes.
use fairypam_rust_agent.Base.{
  List, all, true, false, ◌≡◌, refl, sym, ◌∙◌, Option, none, some, Bytes, arith, subst, ap,
}
use fairypam_rust_agent.Base.Result.{Result, ok, err, passed_on, ok_or, ok_or-eq-ok}
use fairypam_rust_agent.Core.Error.{AgentError}
use fairypam_rust_agent.Task.Wire.{TaskCommandRef, AttemptRef, CommandRef, TaskAttemptReceiptV1}
use fairypam_rust_agent.Task.Data.{
  from_execution_contract, AttemptState, StoredContract, task_ref_invalid,
}
use fairypam_rust_agent.Task.State.{receipt, first_state, claimed, store_current_result}
use fairypam_rust_agent.Task.State.Check.{validate_task}
use fairypam_rust_agent.Task.Runtime.{
  active_now, ◌>>=◌, Ledger, TaskAttemptRuntime, Method, resume, persist,
}
use fairypam_rust_agent.Task.Runtime.Begin.{
  require_contract, begin_v2, begin_checked, begin_on, reject_terminal_reuse, drop_released,
  claimed_as,
}
use fairypam_rust_agent.Task.Held.{
  Held, Inv, stored-Inv, store_current_result-ok, load_active-loaded, persist-loaded,
}
use fairypam_rust_agent.Task.Held.Post.{Post, return-Post, lift-Post, failed-Post, resume-Post}
use fairypam_rust_agent.Task.Held.Run.{run-Held}
use fairypam_rust_agent.Task.Runtime.Calls.{Call, is_told, run}
use fairypam_rust_agent.Task.Contract.{ExecutionContract, verify_execution_contract}
use fairypam_rust_agent.Task.Once.{Remembers, Remembers-IsStable}
use fairypam_rust_agent.Task.Once.Stored.{Any, Any-IsStable, stored-Remembers}

-- The claim is the attempt's first command, and its result is stored.
first_state-Inv :
    (contract : StoredContract) (reference : AttemptRef) (task : TaskCommandRef)
    (command : CommandRef) (a : AttemptState)
    → store_current_result (first_state contract reference task command) ≡ ok a
    → Inv (Remembers command.command_id task.payload_digest) a
first_state-Inv contract reference task command a e =
    let b = first_state contract reference task command in
    let w = stored-Inv Any Any-IsStable b a refl (refl, λ id. refl, tt) e in
    (
      w.0,
      w.1,
      subst
          (λ (x : AttemptState). Remembers command.command_id task.payload_digest x.command_results)
          (store_current_result-ok b a e).1 (stored-Remembers b),
    )

-- The claim's result is stored in the attempt that is active.
abbrev Claims : {W A : Type 0} → TaskCommandRef → A → TaskAttemptRuntime W → Type 0
Claims task receipt t =
    (command : CommandRef) × (task.command ≡ some command)
    × Held (Remembers command.command_id task.payload_digest) t

module _ {W : Type 0} (sha256 : Bytes → Bytes) (io : Ledger W) where
  begin_on-Claims :
      (contract : StoredContract) (reference : AttemptRef) (command : CommandRef)
      (task : TaskCommandRef) (s : TaskAttemptRuntime W)
      → s.loaded ≡ true
      → Post (Claims task) (begin_on sha256 io contract reference command task none s)
  unfolding begin_on claimed
  begin_on-Claims contract reference command task s h =
      lift-Post (Claims task) (claimed contract reference task) s (claimed_as sha256 io)
        (λ a e. go a e (persist io a s) (persist-loaded io a s ∙ h))
    where
      held :
          (a : AttemptState)
          → claimed contract reference task ≡ ok a
          → (s' : TaskAttemptRuntime W) → s'.loaded ≡ true
          → Claims task (receipt a) (record s' { active = some a; recovered_active = false })
      held a e s' h' =
          let (c, e1, named) = passed_on _ (ok_or task.command task_ref_invalid) e in
          (
            c,
            ok_or-eq-ok _ _ named,
            (h', (a, refl, first_state-Inv contract reference task c a e1)),
          )

      go :
          (a : AttemptState)
          → claimed contract reference task ≡ ok a
          → (r : Result AgentError (Unit {0}) × TaskAttemptRuntime W) → r.1.loaded ≡ true
          → Post (Claims task) (
              resume r (λ done s'.
                (ok (receipt a), record s' { active = some a; recovered_active = false })))
      go a e (ok _, s') h' =
          return-Post (Claims task) (receipt a)
            (record s' { active = some a; recovered_active = false }) (held a e s' h')
      go a e (err x, s') h' = failed-Post (Claims task) x s'

  reject_terminal_reuse-same :
      (reference : AttemptRef) (s s' : TaskAttemptRuntime W) (u : Unit {0})
      → reject_terminal_reuse sha256 io reference s ≡ (ok u, s')
      → s ≡ s'
  unfolding reject_terminal_reuse
  reject_terminal_reuse-same reference s s' u e = ground arith

  drop_released-none :
      (s : TaskAttemptRuntime W) → s.active ≡ none → drop_released sha256 io s ≡ (ok tt, s)
  unfolding drop_released
  drop_released-none s e = ground arith

  begin_checked-Claims :
      (contract : StoredContract) (reference : AttemptRef) (command : CommandRef)
      (task : TaskCommandRef) (s : TaskAttemptRuntime W)
      → s.loaded ≡ true
      → s.active ≡ none
      → Post (Claims task) (begin_checked sha256 io contract reference command task s)
  unfolding begin_checked
  begin_checked-Claims contract reference command task s h e =
      rw (load_active-loaded Any sha256 io s h) (
        resume-Post (Claims task) (reject_terminal_reuse sha256 io reference s) next (λ u s' k.
          subst (λ (x : TaskAttemptRuntime W). Post (Claims task) (next u x))
            (reject_terminal_reuse-same reference s s' u k)
            (rw (drop_released-none s e) (
              subst
                (λ (o : Option AttemptState).
                  Post (Claims task) (begin_on sha256 io contract reference command task o s))
                (sym e) (begin_on-Claims contract reference command task s h)))))
    where
      next : Unit {0} → Method W TaskAttemptReceiptV1
      next u s =
          resume (drop_released sha256 io s)
            (λ done. active_now >>= begin_on sha256 io contract reference command task)

  begin_v2-Claims :
      (task : TaskCommandRef) (contract : ExecutionContract) (s : TaskAttemptRuntime W)
      → s.loaded ≡ true
      → s.active ≡ none
      → Post (Claims task) (begin_v2 sha256 io task contract s)
  unfolding begin_v2
  begin_v2-Claims task contract s h e =
      lift-Post (Claims task) (verify_execution_contract sha256 contract) s _ (λ _ _.
        lift-Post (Claims task) (validate_task task) s _ (λ x _.
          lift-Post (Claims task) (require_contract x.0 contract) s _
            (λ _ _. begin_checked-Claims (from_execution_contract contract) x.0 x.1 task s h e)))

  -- After `begin_v2` has succeeded on a loaded runtime without an active attempt, whatever public
  -- calls are made, other than one that begins an attempt and a `complete_input_frame` with the
  -- outcome `Unspecified`: an attempt is active, the outcome of its last command is a number of the
  -- enumeration, every stored result has a specified outcome, and the claim's own result is stored
  -- under its payload.
  pub begin_v2-run-Held :
      (task : TaskCommandRef) (contract : ExecutionContract) (answer : TaskAttemptReceiptV1)
      (s t : TaskAttemptRuntime W) (calls : List Call) (command : CommandRef)
      → s.loaded ≡ true
      → s.active ≡ none
      → task.command ≡ some command
      → begin_v2 sha256 io task contract s ≡ (ok answer, t)
      → all is_told calls ≡ true
      → Held (Remembers command.command_id task.payload_digest) (run sha256 io calls t)
  begin_v2-run-Held task contract answer s t calls command h e named done told =
      run-Held (Remembers command.command_id task.payload_digest)
        (Remembers-IsStable command.command_id task.payload_digest) sha256 io calls t told
        (begun (
          subst (λ (r : TaskAttemptRuntime W). Claims task answer r)
            (ap (λ (r : Result AgentError TaskAttemptReceiptV1 × TaskAttemptRuntime W). r.1) done)
            (begin_v2-Claims task contract s h e answer (
              ap (λ (r : Result AgentError TaskAttemptReceiptV1 × TaskAttemptRuntime W). r.0)
                done))))
    where
      same : (c : CommandRef) → task.command ≡ some c → c ≡ command
      same c named' = ground (arith, named, named')

      begun : Claims task answer t → Held (Remembers command.command_id task.payload_digest) t
      begun (c, named', v) =
          subst (λ (x : CommandRef). Held (Remembers x.command_id task.payload_digest) t)
            (same c named') v
