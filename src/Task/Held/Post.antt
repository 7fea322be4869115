-- ===== src/Task/Held/Post.antt =====
-- bins/fairypam-agent/src/task_attempt.rs: what holds of the answer and of the runtime when a method
-- succeeds.
use fairypam_rust_agent.Base.{subst, ◌≡◌, refl, true, ◌∙◌, some}
use fairypam_rust_agent.Base.Result.{ok_injective, Result, ok, err}
use fairypam_rust_agent.Core.Error.{AgentError}
use fairypam_rust_agent.Task.Data.{AttemptState}
use fairypam_rust_agent.Task.Runtime.{
  Ledger, TaskAttemptRuntime, Method, resume, restoring, persist,
}
use fairypam_rust_agent.Task.Held.{persist-loaded}

module _ {W A : Type 0} (Q : A → TaskAttemptRuntime W → Type 0) where
  abbrev pub Post : Result AgentError A × TaskAttemptRuntime W → Type 0
  Post r = (answer : A) → r.0 ≡ ok answer → Q answer r.1

  pub return-Post : (x : A) (s : TaskAttemptRuntime W) → Q x s → Post (ok x, s)
  return-Post x s q answer h = subst (λ (y : A). Q y s) (ok_injective x answer h) q

  pub failed-Post : (e : AgentError) (s : TaskAttemptRuntime W) → Post (err e, s)
  failed-Post e s answer h = absurd (cc)

  pub restore-Post :
      {B : Type 0} (a : AttemptState) (r : Result AgentError B) (s : TaskAttemptRuntime W)
      (k : B → Method W A)
      → ((x : B) → r ≡ ok x → Post (k x s))
      → Post (resume (restoring a (r, s)) k)
  restore-Post a (ok x) s k f = f x refl
  restore-Post a (err e) s k f = failed-Post e (record s { active = some a })

  pub lift-Post :
      {B : Type 0} (r : Result AgentError B) (s : TaskAttemptRuntime W) (k : B → Method W A)
      → ((x : B) → r ≡ ok x → Post (k x s))
      → Post (resume (r, s) k)
  lift-Post (ok x) s k f = f x refl
  lift-Post (err e) s k f = failed-Post e s

  pub resume-Post :
      {B : Type 0} (r : Result AgentError B × TaskAttemptRuntime W) (k : B → Method W A)
      → ((x : B) (s : TaskAttemptRuntime W) → r ≡ (ok x, s) → Post (k x s))
      → Post (resume r k)
  resume-Post (ok x, s) k f = f x s refl
  resume-Post (err e, s) k f = failed-Post e s

  pub restoring-Post :
      (a : AttemptState) (r : Result AgentError (Unit {0}) × TaskAttemptRuntime W)
      (k : Unit {0} → Method W A)
      → ((s : TaskAttemptRuntime W) → r ≡ (ok tt, s) → Post (k tt s))
      → Post (resume (restoring a r) k)
  restoring-Post a (ok _, s) k f = f s refl
  restoring-Post a (err e, s) k f = failed-Post e (record s { active = some a })

  pub save-Post :
      (io : Ledger W) (a b : AttemptState) (s : TaskAttemptRuntime W) (k : Unit {0} → Method W A)
      → s.loaded ≡ true
      → ((s' : TaskAttemptRuntime W) → s'.loaded ≡ true → Post (k tt s'))
      → Post (resume (restoring a (persist io b s)) k)
  save-Post io a b s k h f = go (persist io b s) (persist-loaded io b s ∙ h)
    where
      go :
          (r : Result AgentError (Unit {0}) × TaskAttemptRuntime W)
          → r.1.loaded ≡ true
          → Post (resume (restoring a r) k)
      go (ok _, s') h' = f s' h'
      go (err e, s') h' = failed-Post e (record s' { active = some a })
