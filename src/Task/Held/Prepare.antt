-- ===== src/Task/Held/Prepare.antt =====
-- bins/fairypam-agent/src/task_attempt.rs: the active attempt through the preparation of a command.
use fairypam_rust_agent.Base.{
  ◌==◌, subst, ℕ, Bool, true, false, ◌≡◌, refl, ◌&&◌, Option, none, some, Bytes, beq, arith,
  Bool-cases, inl, inr, not,
}
use fairypam_rust_agent.Task.Wire.{
  TaskSideEffectState, side_effect_code, TaskCommandRef, AttemptRef, CommandRef, TaskCommandResult,
}
use fairypam_rust_agent.Task.State.{
  require_same_command, is_specified_outcome, store_current_result, record_command, stored_result,
  require_reference, command_result,
}
use fairypam_rust_agent.Task.Data.{AttemptState, StoredCommandResult}
use fairypam_rust_agent.Task.State.Check.{validate_task}
use fairypam_rust_agent.Task.Runtime.{◌>>=◌, Ledger, TaskAttemptRuntime, Method}
use fairypam_rust_agent.Task.Runtime.Load.{Journal}
use fairypam_rust_agent.Task.Runtime.Prepare.{
  prepare_again, prepare_new, close_interrupted, pending, interrupted, opened, may_open, storing,
  conclude_some, opens_now, conclude, prepare_taken, prepare_inner, unless_answered,
}
use fairypam_rust_agent.Task.Runtime.Known.{
  known_in, payload_digest_conflict, conflict_taken, known_digest, conflicted, answer_stored,
  known_answer, conflict_with,
}
use fairypam_rust_agent.Task.Held.{
  stored-Inv, recorded-Inv, store_current_result-ok, Inv, Held, Gives, give, restore-Gives,
  save-Gives, lift-Gives, resume-Gives, taken-Gives, current-Gives, IsStable, take_active,
}

module _ (J : Journal → Type 0) {W : Type 0} (sha256 : Bytes → Bytes) (io : Ledger W) where
  conflict_with-Gives :
      (task : TaskCommandRef) (command : CommandRef) (a : AttemptState) (known : Option Bytes)
      (s : TaskAttemptRuntime W)
      → s.loaded ≡ true
      → Inv J a
      → Gives J (conflict_with sha256 io task command a known s)
  conflict_with-Gives task command a none s h v = give J a s h v
  conflict_with-Gives task command a (some known) s h v =
      elim (Bool-cases (beq known task.payload_digest)) [
        | inl e ↦ rw e (give J a s h v)
        | inr e ↦ rw e (
            save-Gives J io (conflicted a) (conflicted a) s _ h v
              (λ s' h'. give J (conflicted a) s' h' v))
      ]

  pub payload_digest_conflict-Gives :
      (task : TaskCommandRef) (s : TaskAttemptRuntime W)
      → Held J s
      → Gives J (payload_digest_conflict sha256 io task s)
  unfolding payload_digest_conflict
  payload_digest_conflict-Gives task s v = lift-Gives J (validate_task task) s _ v (λ x _.
      taken-Gives J sha256 io s (conflict_taken sha256 io task x.0 x.1) v (λ a s' h u.
        restore-Gives J a (require_reference a x.0) s' _ h u
          (λ _ _. conflict_with-Gives task x.1 a (known_digest a x.1.command_id) s' h u)))

  pub answer_stored-Gives :
      (task : TaskCommandRef) (a : AttemptState) (r : StoredCommandResult)
      (s : TaskAttemptRuntime W)
      → Held J s
      → Gives J (answer_stored sha256 io task a r s)
  unfolding answer_stored
  answer_stored-Gives task a r s v = elim (Bool-cases (beq r.payload_digest task.payload_digest)) [
    | inl e ↦ rw e v
    | inr e ↦ rw e (payload_digest_conflict-Gives task s v)
  ]

  pub conclude-Gives :
      (a : AttemptState) (s : TaskAttemptRuntime W)
      → is_specified_outcome a.last_command_outcome ≡ true
      → s.loaded ≡ true
      → Inv J a
      → Gives J (conclude sha256 io a s)
  unfolding command_result
  conclude-Gives a s e h v = rw e (give J a s h v)

  conclude_some-Gives :
      (a : AttemptState) (s : TaskAttemptRuntime W)
      → is_specified_outcome a.last_command_outcome ≡ true
      → s.loaded ≡ true
      → Inv J a
      → Gives J (conclude_some sha256 io a s)
  unfolding command_result
  conclude_some-Gives a s e h v = rw e (give J a s h v)

  known_in-Gives :
      (task : TaskCommandRef) (command : CommandRef) (a : AttemptState)
      (o : Option StoredCommandResult) (s : TaskAttemptRuntime W)
      → Held J s
      → Gives J (known_in sha256 io task command a o s)
  known_in-Gives task command a (some r) s v =
      resume-Gives J _ _ (answer_stored-Gives task a r s v) (λ answer s' v'. v')
  known_in-Gives task command a none s v =
      elim (Bool-cases (
        beq a.last_command_id command.command_id
        && not (beq a.last_command_payload_digest task.payload_digest))) [
          | inl e ↦
              rw e
                (resume-Gives J _ _ (payload_digest_conflict-Gives task s v) (λ answer s' v'. v'))
          | inr e ↦ rw e v
        ]

  pub known_answer-Gives :
      (task : TaskCommandRef) (command : CommandRef) (o : Option AttemptState)
      (s : TaskAttemptRuntime W)
      → Held J s
      → Gives J (known_answer sha256 io task command o s)
  unfolding known_answer
  known_answer-Gives task command none s v = v
  known_answer-Gives task command (some a) s v =
      known_in-Gives task command a (stored_result a command.command_id) s v

  pub may_open-Gives :
      {B : Type 0} (allow_uncertain : Bool) (now : ℕ) (a : AttemptState) (s : TaskAttemptRuntime W)
      (k : Unit {0} → Method W B)
      → s.loaded ≡ true
      → Inv J a
      → Gives J (k tt s)
      → Gives J ((may_open sha256 io allow_uncertain now a >>= k) s)
  may_open-Gives true now a s k h v f = f
  may_open-Gives false now a s k h v f = restore-Gives J a (opens_now now a) s k h v (λ _ _. f)

  interrupted-Inv :
      (side_effect : Bool) (a : AttemptState)
      → Inv J a
      → (is_specified_outcome (interrupted side_effect a).last_command_outcome ≡ true)
        × Inv J (interrupted side_effect a)
  interrupted-Inv side_effect a v =
      elim (Bool-cases (
        side_effect
        && a.side_effect_state == side_effect_code TaskSideEffectState.intent_recorded)) [
          | inl e ↦ rw e (refl, (refl, v.1, v.2))
          | inr e ↦ rw e (refl, (refl, v.1, v.2))
        ]

  opened-Inv :
      (command : CommandRef) (side_effect : Bool) (a : AttemptState)
      → Inv J a
      → Inv J (opened command side_effect a)
  opened-Inv command true a v = (refl, v.1, v.2)
  opened-Inv command false a v = (refl, v.1, v.2)

  module _ (stable : IsStable J) where
    pub storing-Gives :
        {B : Type 0} (a : AttemptState) (s : TaskAttemptRuntime W) (k : AttemptState → Method W B)
        → is_specified_outcome a.last_command_outcome ≡ true
        → s.loaded ≡ true
        → Inv J a
        → ((b : AttemptState) (s' : TaskAttemptRuntime W)
            → is_specified_outcome b.last_command_outcome ≡ true
            → s'.loaded ≡ true
            → Inv J b
            → Gives J (k b s'))
        → Gives J (storing sha256 io a k s)
    storing-Gives a s k e h v f = restore-Gives J a (store_current_result a) s _ h v (λ b eq.
        save-Gives J io b b s _ h (stored-Inv J stable a b e v eq) (λ s' h'.
          f b s'
            (subst (λ (c : AttemptState). is_specified_outcome c.last_command_outcome ≡ true)
              (store_current_result-ok a b eq).1 e)
            h' (stored-Inv J stable a b e v eq)))

    close_interrupted-Gives :
        (side_effect : Bool) (a : AttemptState) (s : TaskAttemptRuntime W)
        → s.loaded ≡ true
        → Inv J a
        → Gives J (close_interrupted sha256 io side_effect a s)
    close_interrupted-Gives side_effect a s h v = elim (Bool-cases (pending a)) [
      | inr e ↦ rw e (conclude_some-Gives a s (ground (arith, v.0)) h v)
      | inl e ↦ rw e (
          storing-Gives (interrupted side_effect a) s _ (interrupted-Inv side_effect a v).0 h
            (interrupted-Inv side_effect a v).1 conclude_some-Gives)
    ]

    pub prepare_again-Gives :
        (task : TaskCommandRef) (command : CommandRef) (side_effect allow_uncertain : Bool)
        (a : AttemptState) (s : TaskAttemptRuntime W)
        → s.loaded ≡ true
        → Inv J a
        → Gives J (prepare_again sha256 io task command side_effect allow_uncertain a s)
    unfolding prepare_again
    prepare_again-Gives task command side_effect allow_uncertain a s h v =
        restore-Gives J a (require_same_command a command.command_id task.payload_digest) s _ h v
          (λ _ _. elim (Bool-cases (allow_uncertain && pending a)) [
            | inl e ↦ rw e (give J a s h v)
            | inr e ↦ rw e (close_interrupted-Gives side_effect a s h v)
          ])

    pub prepare_new-Gives :
        (task : TaskCommandRef) (command : CommandRef) (side_effect allow_uncertain : Bool)
        (limit now : ℕ) (a : AttemptState) (s : TaskAttemptRuntime W)
        → s.loaded ≡ true
        → Inv J a
        → Gives J (prepare_new sha256 io task command side_effect allow_uncertain limit now a s)
    unfolding prepare_new
    prepare_new-Gives task command side_effect allow_uncertain limit now a s h v =
        may_open-Gives allow_uncertain now a s _ h v (
          restore-Gives J a (record_command command task.payload_digest limit a) s _ h v (λ b eq.
            save-Gives J io (opened command side_effect b) (opened command side_effect b) s _ h
              (opened-Inv command side_effect b
                (recorded-Inv J command task.payload_digest limit a b v eq))
              (λ s' h'. give J (opened command side_effect b) s' h' (
                opened-Inv command side_effect b
                  (recorded-Inv J command task.payload_digest limit a b v eq)))))

    prepare_taken-Gives :
        (task : TaskCommandRef) (reference : AttemptRef) (command : CommandRef)
        (side_effect allow_uncertain : Bool) (limit now : ℕ) (a : AttemptState)
        (s : TaskAttemptRuntime W)
        → s.loaded ≡ true
        → Inv J a
        → Gives J (
            prepare_taken sha256 io task reference command side_effect allow_uncertain limit now
              (some a)
              s)
    prepare_taken-Gives task reference command side_effect allow_uncertain limit now a s h v =
        restore-Gives J a (require_reference a reference) s _ h v (λ _ _.
          elim (Bool-cases (beq a.last_command_id command.command_id)) [
            | inl e ↦ rw e (prepare_again-Gives task command side_effect allow_uncertain a s h v)
            | inr e ↦
                rw e (prepare_new-Gives task command side_effect allow_uncertain limit now a s h v)
          ])

    pub prepare_inner-Gives :
        (now : ℕ) (task : TaskCommandRef) (side_effect allow_uncertain : Bool) (limit : ℕ)
        (s : TaskAttemptRuntime W)
        → Held J s
        → Gives J (prepare_inner sha256 io now task side_effect allow_uncertain limit s)
    unfolding prepare_inner
    prepare_inner-Gives now task side_effect allow_uncertain limit s v =
        lift-Gives J (validate_task task) s _ v (λ x _.
          current-Gives J sha256 io s (λ active. known_answer sha256 io task x.1 active >>= ask x) v
            (λ a u.
              resume-Gives J (known_answer sha256 io task x.1 (some a) s) (ask x)
                (known_answer-Gives task x.1 (some a) s v) (answered x)))
      where
        ask :
            AttemptRef × CommandRef → Option TaskCommandResult → Method W (Option TaskCommandResult)
        ask x known = unless_answered sha256 io known (
            take_active
            >>= prepare_taken sha256 io task x.0 x.1 side_effect allow_uncertain limit now)

        answered :
            (x : AttemptRef × CommandRef) (known : Option TaskCommandResult)
            (s : TaskAttemptRuntime W)
            → Held J s
            → Gives J (ask x known s)
        answered x (some answer) s v = v
        answered x none s (h, (a, e, v)) = rw e (
            prepare_taken-Gives task x.0 x.1 side_effect allow_uncertain limit now a
              (record s { active = none }) h v)
