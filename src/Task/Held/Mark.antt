-- ===== src/Task/Held/Mark.antt =====
-- bins/fairypam-agent/src/task_attempt.rs: the active attempt through what befalls it without a
-- command, and through the questions about it.
use fairypam_rust_agent.Base.{
  arith, ◌∙◌, ℕ, Bool, true, ◌≡◌, refl, Option, none, some, Bytes, beq, Bool-cases, inl, inr,
  String,
}
use fairypam_rust_agent.Base.Result.{Result, ok, err}
use fairypam_rust_agent.Core.Target.{TargetBinding}
use fairypam_rust_agent.Task.Wire.{TaskCommandRef, AttemptRef, CommandRef}
use fairypam_rust_agent.Task.Data.{AttemptState, StoredCommandResult}
use fairypam_rust_agent.Task.State.{
  require_reference, record_command, stored_result, result, store_current_result,
}
use fairypam_rust_agent.Task.State.Check.{validate_task}
use fairypam_rust_agent.Task.Runtime.{
  Ledger, TaskAttemptRuntime, Method, return, persist, resume, put_active,
}
use fairypam_rust_agent.Task.Runtime.Load.{Journal}
use fairypam_rust_agent.Task.Runtime.Known.{payload_digest_conflict}
use fairypam_rust_agent.Task.Runtime.Inspect.{
  inspect, inspect_active, inspect_taken, inspected, inspect_new, inspect_in, inspect_again,
}
use fairypam_rust_agent.Task.Runtime.Begin.{
  require_active, refresh_owned_target, refresh_taken, refresh_target, refreshed, is_active,
  same_process, referenced,
}
use fairypam_rust_agent.Task.Runtime.Safety.{
  emergency_finish, finish_active, emergency, mark_taken, mark_active_side_effect_uncertain,
  mark_input_released, doubtful, let_go, active_contract_expired,
}
use fairypam_rust_agent.Task.Held.{
  persist-loaded, persist-active, Inv, Held, Gives, give, restore-Gives, save-Gives, lift-Gives,
  resume-Gives, current-Gives, taken-Gives, IsStable, recorded-Inv, stored-Inv, AgentError,
  restoring, is_specified_outcome, load_active-loaded,
}
use fairypam_rust_agent.Task.Held.Prepare.{payload_digest_conflict-Gives}

module _ (J : Journal → Type 0) {W : Type 0} (sha256 : Bytes → Bytes) (io : Ledger W) where
  mark_taken-Gives :
      (update : AttemptState → AttemptState) (a : AttemptState) (s : TaskAttemptRuntime W)
      → s.loaded ≡ true
      → Inv J (update a)
      → Gives J (mark_taken sha256 io update (some a) s)
  mark_taken-Gives update a s h v =
      save-Gives J io (update a) (update a) s _ h v (λ s' h'. give J (update a) s' h' v)

  pub mark_active_side_effect_uncertain-Gives :
      (code : String) (released : Bool) (s : TaskAttemptRuntime W)
      → Held J s
      → Gives J (mark_active_side_effect_uncertain sha256 io code released s)
  unfolding mark_active_side_effect_uncertain
  mark_active_side_effect_uncertain-Gives code released s v =
      taken-Gives J sha256 io s (mark_taken sha256 io (doubtful code released)) v
        (λ a s' h u. mark_taken-Gives (doubtful code released) a s' h u)

  pub mark_input_released-Gives :
      (code : String) (s : TaskAttemptRuntime W)
      → Held J s
      → Gives J (mark_input_released sha256 io code s)
  unfolding mark_input_released
  mark_input_released-Gives code s v =
      taken-Gives J sha256 io s (mark_taken sha256 io (let_go code)) v
        (λ a s' h u. mark_taken-Gives (let_go code) a s' h u)

  copied-Gives :
      {B : Type 0} (a : AttemptState) (s : TaskAttemptRuntime W) (k : Unit {0} → Method W B)
      → Held J s
      → ((s' : TaskAttemptRuntime W) → Held J s' → Gives J (k tt s'))
      → Gives J (resume (persist io a s) k)
  copied-Gives a s k (h, (b, e, v)) f =
      go (persist io a s) (persist-loaded io a s ∙ h) (b, persist-active io a s ∙ e, v)
    where
      go :
          (r : Result AgentError (Unit {0}) × TaskAttemptRuntime W)
          → r.1.loaded ≡ true
          → (b : AttemptState) × (r.1.active ≡ some b) × Inv J b
          → Gives J (resume r k)
      go (ok _, s') h' w = f s' (h', w)
      go (err e, s') h' w = (h', w)

  pub emergency_finish-Gives :
      (released stopped running : Bool) (code : Option String) (s : TaskAttemptRuntime W)
      → Held J s
      → Gives J (emergency_finish sha256 io released stopped running code s)
  unfolding emergency_finish
  emergency_finish-Gives released stopped running code s v =
      current-Gives J sha256 io s
        (finish_active sha256 io (emergency released stopped running code)) v
        (λ a u.
          copied-Gives (emergency released stopped running code a) s _ v
            (λ s' v'. give J (emergency released stopped running code a) s' v'.0 u))

  pub require_active-Gives :
      (task : TaskCommandRef) (s : TaskAttemptRuntime W)
      → Held J s
      → Gives J (require_active sha256 io task s)
  unfolding require_active
  require_active-Gives task s v = lift-Gives J (validate_task task) s _ v (λ x _.
      current-Gives J sha256 io s (referenced sha256 io x.0) v
        (λ a u. lift-Gives J (require_reference a x.0) s _ v (λ _ _. v)))

  pub is_active-Gives : (s : TaskAttemptRuntime W) → Held J s → Gives J (is_active sha256 io s)
  unfolding is_active
  is_active-Gives s v = rw (load_active-loaded J sha256 io s v.0) v

  pub active_contract_expired-Gives :
      (now : ℕ) (s : TaskAttemptRuntime W)
      → Held J s
      → Gives J (active_contract_expired sha256 io now s)
  unfolding active_contract_expired
  active_contract_expired-Gives now s v = rw (load_active-loaded J sha256 io s v.0) v

  refresh_target-Gives :
      (binding : TargetBinding) (a : AttemptState) (o : Option TargetBinding)
      (s : TaskAttemptRuntime W)
      → s.loaded ≡ true
      → Inv J a
      → Gives J (refresh_target sha256 io binding a o s)
  refresh_target-Gives binding a none s h v = give J a s h v
  refresh_target-Gives binding a (some previous) s h v =
      elim (Bool-cases (same_process previous binding)) [
        | inr e ↦ rw e (give J a s h v)
        | inl e ↦ rw e (
            kept (persist io (refreshed binding a) s)
              (persist-loaded io (refreshed binding a) s ∙ h))
      ]
    where
      kept :
          (r : Result AgentError (Unit {0}) × TaskAttemptRuntime W)
          → r.1.loaded ≡ true
          → Gives J (
              resume (restoring (refreshed binding a) r) (λ done. put_active (refreshed binding a)))
      kept (ok _, s') h' = give J (refreshed binding a) s' h' v
      kept (err e, s') h' = give J (refreshed binding a) s' h' v

  pub refresh_owned_target-Gives :
      (reference : AttemptRef) (binding : TargetBinding) (s : TaskAttemptRuntime W)
      → Held J s
      → Gives J (refresh_owned_target sha256 io reference binding s)
  unfolding refresh_owned_target refresh_taken
  refresh_owned_target-Gives reference binding s v =
      taken-Gives J sha256 io s (refresh_taken sha256 io reference binding) v (λ a s' h u.
        restore-Gives J a (require_reference a reference) s' _ h u
          (λ _ _. refresh_target-Gives binding a a.owned_target s' h u))

  module _ (stable : IsStable J) where
    inspect_again-Gives :
        (a : AttemptState) (r : StoredCommandResult) (s : TaskAttemptRuntime W)
        → s.loaded ≡ true
        → Inv J a
        → is_specified_outcome r.outcome ≡ true
        → Gives J (inspect_again sha256 io a r s)
    unfolding result
    inspect_again-Gives a r s h v e = rw e (give J a s h v)

    inspect_new-Gives :
        (task : TaskCommandRef) (command : CommandRef) (a : AttemptState) (s : TaskAttemptRuntime W)
        → s.loaded ≡ true
        → Inv J a
        → Gives J (inspect_new sha256 io task command a s)
    inspect_new-Gives task command a s h v =
        restore-Gives J a (record_command command task.payload_digest _ a) s _ h v (λ b e.
          let u = recorded-Inv J command task.payload_digest _ a b v e in
          restore-Gives J (inspected b) (store_current_result (inspected b)) s _ h (refl, u.1, u.2)
            (λ c d.
              save-Gives J io c c s _ h (kept b c u d) (λ s' h'. give J c s' h' (kept b c u d))))
      where
        kept : (b c : AttemptState) → Inv J b → store_current_result (inspected b) ≡ ok c → Inv J c
        kept b c u d = stored-Inv J stable (inspected b) c refl (refl, u.1, u.2) d

    inspect_in-Gives :
        (task : TaskCommandRef) (command : CommandRef) (a : AttemptState)
        (o : Option StoredCommandResult) (s : TaskAttemptRuntime W)
        → stored_result a command.command_id ≡ o
        → s.loaded ≡ true
        → Inv J a
        → Gives J (inspect_in sha256 io task command a o s)
    inspect_in-Gives task command a (some r) s e h v =
        elim (Bool-cases (beq r.payload_digest task.payload_digest)) [
          | inr d ↦ rw d (
              resume-Gives J (payload_digest_conflict sha256 io task (record s { active = some a }))
                (λ answer. return answer.receipt)
                (payload_digest_conflict-Gives J sha256 io task (record s { active = some a })
                  (give J a s h v))
                (λ answer s' v'. v'))
          | inl d ↦ rw d (inspect_again-Gives a r s h v (ground (arith, e, v.1 command.command_id)))
        ]
    inspect_in-Gives task command a none s e h v = inspect_new-Gives task command a s h v

    inspect_active-Gives :
        (task : TaskCommandRef) (reference : AttemptRef) (command : CommandRef) (a : AttemptState)
        (s : TaskAttemptRuntime W)
        → s.loaded ≡ true
        → Inv J a
        → Gives J (inspect_active sha256 io task reference command a s)
    unfolding inspect_active
    inspect_active-Gives task reference command a s h v =
        restore-Gives J a (require_reference a reference) s _ h v
          (λ _ _. inspect_in-Gives task command a (stored_result a command.command_id) s refl h v)

    pub inspect-Gives :
        (task : TaskCommandRef) (s : TaskAttemptRuntime W)
        → Held J s
        → Gives J (inspect sha256 io task s)
    unfolding inspect inspect_taken
    inspect-Gives task s v = lift-Gives J (validate_task task) s _ v (λ x _.
        taken-Gives J sha256 io s (inspect_taken sha256 io task x.0 x.1) v
          (λ a s' h u. inspect_active-Gives task x.0 x.1 a s' h u))
