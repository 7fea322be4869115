-- ===== src/Task/Held/Complete.antt =====
-- bins/fairypam-agent/src/task_attempt.rs: the active attempt through the outcome of a command.
use fairypam_rust_agent.Base.{
  subst, sym, ℕ, Bool, true, false, ◌≡◌, Option, none, some, Bytes, arith, String,
}
use fairypam_rust_agent.Task.Wire.{
  TaskCommandRef, AttemptRef, CommandRef, TaskCommandOutcomeState, outcome_code,
}
use fairypam_rust_agent.Task.Data.{AttemptState}
use fairypam_rust_agent.Task.State.{require_same_command, is_specified_outcome}
use fairypam_rust_agent.Task.State.Check.{validate_task}
use fairypam_rust_agent.Task.Runtime.{Ledger, TaskAttemptRuntime, take_active, ◌>>=◌}
use fairypam_rust_agent.Task.Runtime.Load.{Journal}
use fairypam_rust_agent.Task.Runtime.Complete.{complete, complete_taken, with_outcome}
use fairypam_rust_agent.Task.Held.{
  IsSpecified, Inv, Held, Gives, restore-Gives, lift-Gives, IsStable,
}
use fairypam_rust_agent.Task.Held.Prepare.{storing-Gives, conclude-Gives}

-- A change of the attempt that leaves the journal and the last command with its outcome.
abbrev pub IsLocal : (AttemptState → AttemptState) → Type 0
IsLocal update =
    (a : AttemptState)
    → ((update a).command_results ≡ a.command_results)
      × ((update a).last_command_outcome ≡ a.last_command_outcome)
      × ((update a).last_command_id ≡ a.last_command_id)
      × ((update a).last_command_payload_digest ≡ a.last_command_payload_digest)

module _ (J : Journal → Type 0) (stable : IsStable J) {W : Type 0} (sha256 : Bytes → Bytes)
    (io : Ledger W) where
  moved-Inv :
      (a b : AttemptState)
      → is_specified_outcome b.last_command_outcome ≡ true
      → b.command_results ≡ a.command_results
      → Inv J a
      → Inv J b
  moved-Inv a b h e (l, v, j) = (ground (arith, h), subst IsSpecified (sym e) v, subst J (sym e) j)

  pub changed-Inv :
      (outcome : TaskCommandOutcomeState) (source : Option ℕ) (error : Option String)
      (side_effect : Bool) (update : AttemptState → AttemptState) (a : AttemptState)
      → IsLocal update
      → is_specified_outcome (outcome_code outcome) ≡ true
      → Inv J a
      → (is_specified_outcome
            (update (with_outcome outcome source error side_effect a)).last_command_outcome
          ≡ true)
        × Inv J (update (with_outcome outcome source error side_effect a))
  changed-Inv outcome source error true update a local h v =
      let b = with_outcome outcome source error true a in
      let told = subst (λ (n : ℕ). is_specified_outcome n ≡ true) (sym (local b).1) h in
      (told, moved-Inv a (update b) told (local b).0 v)
  changed-Inv outcome source error false update a local h v =
      let b = with_outcome outcome source error false a in
      let told = subst (λ (n : ℕ). is_specified_outcome n ≡ true) (sym (local b).1) h in
      (told, moved-Inv a (update b) told (local b).0 v)

  pub complete_taken-Gives :
      (task : TaskCommandRef) (command : CommandRef) (outcome : TaskCommandOutcomeState)
      (source : Option ℕ) (error : Option String) (side_effect : Bool)
      (update : AttemptState → AttemptState) (a : AttemptState) (s : TaskAttemptRuntime W)
      → IsLocal update
      → is_specified_outcome (outcome_code outcome) ≡ true
      → s.loaded ≡ true
      → Inv J a
      → Gives J
          (complete_taken sha256 io task command outcome source error side_effect update (some a) s)
  unfolding complete_taken
  complete_taken-Gives task command outcome source error side_effect update a s local e h v =
      let u = changed-Inv outcome source error side_effect update a local e v in
      restore-Gives J a (require_same_command a command.command_id task.payload_digest) s _ h v
        (λ _ _.
          storing-Gives J sha256 io stable
            (update (with_outcome outcome source error side_effect a)) s _ u.0 h u.1
            (conclude-Gives J sha256 io))

  pub complete-Gives :
      (task : TaskCommandRef) (outcome : TaskCommandOutcomeState) (source : Option ℕ)
      (error : Option String) (side_effect : Bool) (update : AttemptState → AttemptState)
      (s : TaskAttemptRuntime W)
      → IsLocal update
      → is_specified_outcome (outcome_code outcome) ≡ true
      → Held J s
      → Gives J (complete sha256 io task outcome source error side_effect update s)
  unfolding complete
  complete-Gives task outcome source error side_effect update s local e v =
      lift-Gives J (validate_task task) s _ v (λ x _. taken x v)
    where
      taken :
          (x : AttemptRef × CommandRef)
          → Held J s
          → Gives J (
              (take_active
                  >>= complete_taken sha256 io task x.1 outcome source error side_effect update)
                s)
      taken x (h, (a, r, u)) = rw r (
          complete_taken-Gives task x.1 outcome source error side_effect update a
            (record s { active = none }) local e h u)
