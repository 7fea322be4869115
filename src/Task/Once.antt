-- ===== src/Task/Once.antt =====
-- bins/fairypam-agent/src/task_attempt.rs: the preparation of a command whose outcome is in the journal.
pub mod Stored
use fairypam_rust_agent.Base.{
  ℕ, Bool, true, false, ◌≡◌, ◌≢◌, refl, sym, ◌∙◌, not, ◌&&◌, Option, none, some, List, [], ◌∷◌,
  Bytes, beq, all, arith, Bool-cases, inl, inr, subst, beq_iff, ap, String,
}
use fairypam_rust_agent.Base.Sets.{get, put, get-put}
use fairypam_rust_agent.Base.Result.{Result, ok, err, passed_on, then_ok, ok_or-eq-ok, ok_or}
use fairypam_rust_agent.Core.Error.{AgentError}
use fairypam_rust_agent.Task.Wire.{
  TaskCommandRef, AttemptRef, CommandRef, TaskCommandResult, TaskCommandOutcomeState, outcome_code,
}
use fairypam_rust_agent.Task.Data.{AttemptState, StoredCommandResult, task_ref_invalid}
use fairypam_rust_agent.Task.State.{
  current_result, is_specified_outcome, stored_result, store_current_result,
}
use fairypam_rust_agent.Task.State.Check.{validate_task}
use fairypam_rust_agent.Task.Runtime.{
  ◌>>=◌, Ledger, TaskAttemptRuntime, Method, resume, return, take_active, active_now,
}
use fairypam_rust_agent.Task.Runtime.Load.{Journal, load_active}
use fairypam_rust_agent.Task.Runtime.Prepare.{prepare_inner, unless_answered, prepare_taken}
use fairypam_rust_agent.Task.Runtime.Known.{known_answer, known_in, answer_stored}
use fairypam_rust_agent.Task.Runtime.Calls.{Call, is_told, run}
use fairypam_rust_agent.Task.Held.{
  Held, IsStable, Inv, load_active-loaded, store_current_result-ok, stored,
}
use fairypam_rust_agent.Task.Held.Run.{run-Held}

abbrev pub digest_of : Option StoredCommandResult → Option Bytes
digest_of none = none
digest_of (some r) = some r.payload_digest

-- A result of the command is stored, for that payload.
abbrev pub Remembers : Bytes → Bytes → Journal → Type 0
Remembers command_id payload_digest m = digest_of (get command_id m) ≡ some payload_digest

pub Remembers-IsStable :
    (command_id payload_digest : Bytes) → IsStable (Remembers command_id payload_digest)
Remembers-IsStable id d a b h e =
    let (room, eq) = store_current_result-ok a b e in
    subst (λ (c : AttemptState). Remembers id d c.command_results) eq
      (rw (get-put a.last_command_id id (current_result a) a.command_results) (
        ground
          (arith, h, room, beq_iff id a.last_command_id, beq_iff d a.last_command_payload_digest)))

pub validate_task-command :
    (task : TaskCommandRef) (x : AttemptRef × CommandRef)
    → validate_task task ≡ ok x
    → task.command ≡ some x.1
unfolding validate_task
validate_task-command task x e =
    let (reference, e1, r) = passed_on _ (ok_or task.attempt task_ref_invalid) e in
    let (command, e2, c) = passed_on _ (ok_or task.command task_ref_invalid) e1 in
    ok_or-eq-ok _ _ c
    ∙ ap some (ap (λ (y : AttemptRef × CommandRef). y.1) (then_ok _ (reference, command) e2).1)

module _ {W : Type 0} (sha256 : Bytes → Bytes) (io : Ledger W) where
  abbrev pub Refuses : Result AgentError (Option TaskCommandResult) × TaskAttemptRuntime W → Type 0
  Refuses r = r.0 ≢ ok none

  answered-Refuses :
      (r : Result AgentError TaskCommandResult × TaskAttemptRuntime W)
      (k : Option TaskCommandResult → Method W (Option TaskCommandResult))
      → ((answer : TaskCommandResult) (s : TaskAttemptRuntime W) → Refuses (k (some answer) s))
      → Refuses (resume (resume r (λ answer. return (some answer))) k)
  answered-Refuses (ok answer, s) k f = f answer s
  answered-Refuses (err e, s) k f = λ h. cc

  known_in-Refuses :
      (task : TaskCommandRef) (command : CommandRef) (d : Bytes) (a : AttemptState)
      (o : Option StoredCommandResult) (s : TaskAttemptRuntime W)
      (m : Method W (Option TaskCommandResult))
      → digest_of o ≡ some d
      → Refuses (
          resume
            (known_in sha256 io task command a o s)
            (λ known. unless_answered sha256 io known m))
  known_in-Refuses task command d a (some r) s m h =
      answered-Refuses (answer_stored sha256 io task a r s)
        (λ known. unless_answered sha256 io known m) (λ answer s' e. cc)
  known_in-Refuses task command d a none s m h = absurd (ground arith)

  pub prepare_inner-Refuses :
      (now : ℕ) (task : TaskCommandRef) (side_effect allow_uncertain : Bool) (limit : ℕ)
      (command : CommandRef) (d : Bytes) (s : TaskAttemptRuntime W)
      → task.command ≡ some command
      → Held (Remembers command.command_id d) s
      → Refuses (prepare_inner sha256 io now task side_effect allow_uncertain limit s)
  unfolding prepare_inner known_answer
  prepare_inner-Refuses now task side_effect allow_uncertain limit command d s named v =
      go (validate_task task) refl
    where
      rest : AttemptRef × CommandRef → Option AttemptState → Method W (Option TaskCommandResult)
      rest x active = known_answer sha256 io task x.1 active >>= λ known.
          unless_answered sha256 io known (
            take_active
            >>= prepare_taken sha256 io task x.0 x.1 side_effect allow_uncertain limit now)

      found :
          (x : AttemptRef × CommandRef)
          → x.1 ≡ command
          → Refuses (resume (load_active sha256 io s) (λ done. active_now >>= rest x))
      found x e =
          let (h, (a, held, u)) = v in
          rw (load_active-loaded (Remembers command.command_id d) sha256 io s h) (
            subst (λ (o : Option AttemptState). Refuses (rest x o s)) (sym held)
              (known_in-Refuses task x.1 d a (stored_result a x.1.command_id) s _ (
                subst (λ (c : CommandRef). Remembers c.command_id d a.command_results) (sym e)
                  u.2)))

      go :
          (r : Result AgentError (AttemptRef × CommandRef))
          → validate_task task ≡ r
          → Refuses (
              resume
                (r, s)
                (λ x. λ s'. resume (load_active sha256 io s') (λ done. active_now >>= rest x)))
      go (ok x) e = found x (ground (arith, validate_task-command task x e, named))
      go (err e) h = λ k. cc
