-- ===== src/Task/Held/Replay.antt =====
-- bins/fairypam-agent/src/task_attempt.rs: the active attempt through a replay and a rejection.
use fairypam_rust_agent.Base.{
  ℕ, Bool, true, false, ◌≡◌, refl, not, ◌&&◌, Option, none, some, Bytes, beq, arith, Bool-cases,
  inl, inr, String,
}
use fairypam_rust_agent.Task.Wire.{TaskCommandRef, AttemptRef, CommandRef, TaskCommandResult}
use fairypam_rust_agent.Task.Data.{AttemptState, StoredCommandResult, max_business_command_results}
use fairypam_rust_agent.Task.State.{
  record_command, stored_result, require_reference, require_same_command, command_result,
}
use fairypam_rust_agent.Task.State.Check.{validate_task}
use fairypam_rust_agent.Task.Runtime.{Ledger, TaskAttemptRuntime, Method, take_active, ◌>>=◌}
use fairypam_rust_agent.Task.Runtime.Load.{Journal}
use fairypam_rust_agent.Task.Runtime.Known.{payload_digest_conflict, known_answer}
use fairypam_rust_agent.Task.Runtime.Replay.{
  reject, reject_taken, reject_recorded, rejected, replay, replay_in, replay_unstored,
  replay_active, or_else,
}
use fairypam_rust_agent.Task.Runtime.Prepare.{prepare, pending}
use fairypam_rust_agent.Task.Held.{
  Inv, Held, Gives, restore-Gives, lift-Gives, resume-Gives, current-Gives, IsStable, recorded-Inv,
}
use fairypam_rust_agent.Task.Held.Prepare.{
  payload_digest_conflict-Gives, answer_stored-Gives, known_answer-Gives, prepare_inner-Gives,
  storing-Gives, conclude-Gives,
}

module _ (J : Journal → Type 0) (stable : IsStable J) {W : Type 0} (sha256 : Bytes → Bytes)
    (io : Ledger W) where
  reject_recorded-Gives :
      (task : TaskCommandRef) (command : CommandRef) (code : String) (a : AttemptState)
      (s : TaskAttemptRuntime W)
      → s.loaded ≡ true
      → Inv J a
      → Gives J (reject_recorded sha256 io task command code a s)
  reject_recorded-Gives task command code a s h v =
      restore-Gives J a (record_command command task.payload_digest max_business_command_results a)
        s _ h v
        (λ b e.
          let u = recorded-Inv J command task.payload_digest max_business_command_results a b v e in
          storing-Gives J sha256 io stable (rejected code b) s _ refl h (refl, u.1, u.2)
            (conclude-Gives J sha256 io))

  reject_taken-Gives :
      (task : TaskCommandRef) (reference : AttemptRef) (command : CommandRef) (code : String)
      (a : AttemptState) (s : TaskAttemptRuntime W)
      → s.loaded ≡ true
      → Inv J a
      → Gives J (reject_taken sha256 io task reference command code (some a) s)
  unfolding reject_taken
  reject_taken-Gives task reference command code a s h v =
      restore-Gives J a (require_reference a reference) s _ h v (λ _ _.
        elim (Bool-cases (beq a.last_command_id command.command_id && not (pending a))) [
          | inl e ↦ rw e (conclude-Gives J sha256 io a s (ground (arith, v.0)) h v)
          | inr e ↦ rw e (reject_recorded-Gives task command code a s h v)
        ])

  pub reject-Gives :
      (task : TaskCommandRef) (code : String) (s : TaskAttemptRuntime W)
      → Held J s
      → Gives J (reject sha256 io task code s)
  unfolding reject
  reject-Gives task code s v = lift-Gives J (validate_task task) s _ v (λ x _.
      current-Gives J sha256 io s (λ active. known_answer sha256 io task x.1 active >>= ask x) v
        (λ a u.
          resume-Gives J (known_answer sha256 io task x.1 (some a) s) (ask x)
            (known_answer-Gives J sha256 io task x.1 (some a) s v) (answered x)))
    where
      ask : AttemptRef × CommandRef → Option TaskCommandResult → Method W TaskCommandResult
      ask x known =
          or_else sha256 io known (take_active >>= reject_taken sha256 io task x.0 x.1 code)

      answered :
          (x : AttemptRef × CommandRef) (known : Option TaskCommandResult)
          (s : TaskAttemptRuntime W)
          → Held J s
          → Gives J (ask x known s)
      answered x (some answer) s v = v
      answered x none s (h, (a, e, v)) =
          rw e (reject_taken-Gives task x.0 x.1 code a (record s { active = none }) h v)

  pub prepare-Gives :
      (now : ℕ) (task : TaskCommandRef) (side_effect : Bool) (s : TaskAttemptRuntime W)
      → Held J s
      → Gives J (prepare sha256 io now task side_effect s)
  unfolding prepare
  prepare-Gives now task side_effect s v =
      prepare_inner-Gives J sha256 io stable now task side_effect false _ s v

  replay_unstored-Gives :
      (now : ℕ) (task : TaskCommandRef) (command : CommandRef) (a : AttemptState)
      (s : TaskAttemptRuntime W)
      → Held J s
      → Gives J (replay_unstored sha256 io now task command a s)
  replay_unstored-Gives now task command a s v =
      elim (Bool-cases (beq a.last_command_id command.command_id)) [
        | inr e ↦ rw e v
        | inl e ↦ rw e (elim (Bool-cases (beq a.last_command_payload_digest task.payload_digest)) [
          | inr d ↦ rw d (
              resume-Gives J (payload_digest_conflict sha256 io task s) _
                (payload_digest_conflict-Gives J sha256 io task s v) (λ answer s' v'. v'))
          | inl d ↦ rw d (
              lift-Gives J (require_same_command a command.command_id task.payload_digest) s _ v
                (λ _ _. elim (Bool-cases (pending a)) [
                  | inl p ↦ rw p (prepare-Gives now task true s v)
                  | inr p ↦ rw p (lift-Gives J (command_result a) s _ v (λ _ _. v))
                ]))
        ])
      ]

  replay_in-Gives :
      (now : ℕ) (task : TaskCommandRef) (command : CommandRef) (a : AttemptState)
      (o : Option StoredCommandResult) (s : TaskAttemptRuntime W)
      → Held J s
      → Gives J (replay_in sha256 io now task command a o s)
  replay_in-Gives now task command a (some r) s v =
      resume-Gives J _ _ (answer_stored-Gives J sha256 io task a r s v) (λ answer s' v'. v')
  replay_in-Gives now task command a none s v = replay_unstored-Gives now task command a s v

  pub replay-Gives :
      (now : ℕ) (task : TaskCommandRef) (s : TaskAttemptRuntime W)
      → Held J s
      → Gives J (replay sha256 io now task s)
  unfolding replay replay_active
  replay-Gives now task s v = lift-Gives J (validate_task task) s _ v (λ x _.
      current-Gives J sha256 io s (replay_active sha256 io now task x.0 x.1) v (λ a u.
        lift-Gives J (require_reference a x.0) s _ v
          (λ _ _. replay_in-Gives now task x.1 a (stored_result a x.1.command_id) s v)))
