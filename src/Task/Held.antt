-- ===== src/Task/Held.antt =====
-- bins/fairypam-agent/src/task_attempt.rs: what the methods keep of the active attempt, and of a law of
-- its journal.
pub mod Post
pub mod Prepare
pub mod Replay
pub mod Complete
pub mod Mark
pub mod Run
use fairypam_rust_agent.Base.{
  ℕ, Bool, true, false, ◌≡◌, refl, ◌&&◌, Option, none, some, Bytes, leb, arith, beq_iff, ◌∙◌, not,
  length, sym, subst,
}
use fairypam_rust_agent.Base.Sets.{get, put, get-put}
use fairypam_rust_agent.Base.Result.{passed_on, Result, ok, err, then_ok}
use fairypam_rust_agent.Core.Error.{AgentError}
use fairypam_rust_agent.Core.State.{is_some_and}
use fairypam_rust_agent.Task.Wire.{CommandRef}
use fairypam_rust_agent.Task.State.{
  record_command, generation_of, session_id_of, is_specified_outcome, store_current_result,
  stored_result, has_room, current_result,
}
use fairypam_rust_agent.Task.Data.{AttemptState, max_command_results}
use fairypam_rust_agent.Task.Runtime.{
  ◌>>=◌, Ledger, TaskAttemptRuntime, Method, resume, restoring, persist, take_active, active_now,
}
use fairypam_rust_agent.Task.Runtime.Load.{Journal, load_active}

abbrev pub IsSpecified : Journal → Type 0
IsSpecified m =
    (id : Bytes) → is_some_and (λ r. not (is_specified_outcome r.outcome)) (get id m) ≡ false

-- What storing the result of the last command makes of the attempt, when there is room for it.
abbrev pub stored : AttemptState → AttemptState
stored a = record a { command_results = put a.last_command_id (current_result a) a.command_results }

pub store_current_result-ok :
    (a b : AttemptState)
    → store_current_result a ≡ ok b
    → (has_room
          (stored_result a a.last_command_id)
          a.last_command_payload_digest
          (length a.command_results)
          max_command_results
        ≡ ok tt)
      × (stored a ≡ b)
unfolding store_current_result
store_current_result-ok a b e = then_ok _ (stored a) e

pub store_current_result-IsSpecified :
    (a b : AttemptState)
    → is_specified_outcome a.last_command_outcome ≡ true
    → IsSpecified a.command_results
    → store_current_result a ≡ ok b
    → IsSpecified b.command_results
store_current_result-IsSpecified a b h v e id =
    rw
      (
        sym (store_current_result-ok a b e).1,
        get-put a.last_command_id id (current_result a) a.command_results,
      )
      (ground (arith, v id))

pub persist-loaded :
    {W : Type 0} (io : Ledger W) (a : AttemptState) (s : TaskAttemptRuntime W)
    → (persist io a s).1.loaded ≡ s.loaded
unfolding persist
persist-loaded io a s = ground arith

-- What recording a command makes of the attempt.
abbrev pub recorded : CommandRef → Bytes → AttemptState → AttemptState
recorded command payload_digest a = record a {
  last_command_id = command.command_id;
  last_command_sequence = command.sequence;
  last_command_generation = generation_of command.session;
  last_command_session_id = session_id_of command.session;
  last_command_payload_digest = payload_digest;
}

pub record_command-ok :
    (command : CommandRef) (payload_digest : Bytes) (limit : ℕ) (a b : AttemptState)
    → record_command command payload_digest limit a ≡ ok b
    → (has_room (stored_result a command.command_id) payload_digest (length a.command_results) limit
        ≡ ok tt)
      × (recorded command payload_digest a ≡ b)
unfolding record_command
record_command-ok command payload_digest limit a b e =
    let (_, rest, room) = passed_on _ (has_room _ payload_digest _ limit) e in
    (room, (then_ok _ (recorded command payload_digest a) rest).1)

pub persist-active :
    {W : Type 0} (io : Ledger W) (a : AttemptState) (s : TaskAttemptRuntime W)
    → (persist io a s).1.active ≡ s.active
unfolding persist
persist-active io a s = ground arith

-- A law that the journal keeps when the result of the last command is stored.
abbrev pub IsStable : (Journal → Type 0) → Type 0
IsStable J =
    (a b : AttemptState) → J a.command_results → store_current_result a ≡ ok b → J b.command_results

module _ (J : Journal → Type 0) where
  abbrev pub Inv : AttemptState → Type 0
  Inv a =
      (leb a.last_command_outcome 3 ≡ true) × IsSpecified a.command_results × J a.command_results

  pub recorded-Inv :
      (command : CommandRef) (payload_digest : Bytes) (limit : ℕ) (a b : AttemptState)
      → Inv a
      → record_command command payload_digest limit a ≡ ok b
      → Inv b
  recorded-Inv command payload_digest limit a b v e =
      subst Inv (record_command-ok command payload_digest limit a b e).1 v

  pub stored-Inv :
      IsStable J
      → (a b : AttemptState) → is_specified_outcome a.last_command_outcome ≡ true
      → Inv a
      → store_current_result a ≡ ok b
      → Inv b
  stored-Inv stable a b h (l, v, j) e = (
    subst (λ (c : AttemptState). leb c.last_command_outcome 3 ≡ true)
        (store_current_result-ok a b e).1 l,
    store_current_result-IsSpecified a b h v e,
    stable a b j e,
  )

  module _ {W : Type 0} where
    -- The attempt is held in the runtime, which has been loaded.
    abbrev pub Held : TaskAttemptRuntime W → Type 0
    Held s = (s.loaded ≡ true) × ((a : AttemptState) × (s.active ≡ some a) × Inv a)

    abbrev pub Gives : {A : Type 0} → Result AgentError A × TaskAttemptRuntime W → Type 0
    Gives r = Held r.1

    pub give :
        (a : AttemptState) (s : TaskAttemptRuntime W)
        → s.loaded ≡ true
        → Inv a
        → Held (record s { active = some a })
    give a s h v = (h, (a, refl, v))

    -- A step that cannot fail without giving the attempt back.
    pub restore-Gives :
        {A B : Type 0} (a : AttemptState) (r : Result AgentError A) (s : TaskAttemptRuntime W)
        (k : A → Method W B)
        → s.loaded ≡ true
        → Inv a
        → ((x : A) → r ≡ ok x → Gives (k x s))
        → Gives (resume (restoring a (r, s)) k)
    restore-Gives a (ok x) s k h v f = f x refl
    restore-Gives a (err e) s k h v f = give a s h v

    pub save-Gives :
        {B : Type 0} (io : Ledger W) (a b : AttemptState) (s : TaskAttemptRuntime W)
        (k : Unit {0} → Method W B)
        → s.loaded ≡ true
        → Inv a
        → ((s' : TaskAttemptRuntime W) → s'.loaded ≡ true → Gives (k tt s'))
        → Gives (resume (restoring a (persist io b s)) k)
    save-Gives io a b s k h v f = go (persist io b s) (persist-loaded io b s ∙ h)
      where
        go :
            (r : Result AgentError (Unit {0}) × TaskAttemptRuntime W)
            → r.1.loaded ≡ true
            → Gives (resume (restoring a r) k)
        go (ok _, s') h' = f s' h'
        go (err e, s') h' = give a s' h' v

    -- A step that leaves the runtime as it is.
    pub lift-Gives :
        {A B : Type 0} (r : Result AgentError A) (s : TaskAttemptRuntime W) (k : A → Method W B)
        → Held s
        → ((x : A) → r ≡ ok x → Gives (k x s))
        → Gives (resume (r, s) k)
    lift-Gives (ok x) s k v f = f x refl
    lift-Gives (err e) s k v f = v

    pub resume-Gives :
        {A B : Type 0} (r : Result AgentError A × TaskAttemptRuntime W) (k : A → Method W B)
        → Gives r
        → ((x : A) (s : TaskAttemptRuntime W) → Held s → Gives (k x s))
        → Gives (resume r k)
    resume-Gives (ok x, s) k v f = f x s v
    resume-Gives (err e, s) k v f = v

    pub assoc-Gives :
        {A B C : Type 0} (r : Result AgentError A × TaskAttemptRuntime W) (g : A → Method W B)
        (k : B → Method W C)
        → Gives (resume r (λ x s. resume (g x s) k))
        → Gives (resume (resume r g) k)
    assoc-Gives (ok x, s) g k v = v
    assoc-Gives (err e, s) g k v = v

    pub load_active-loaded :
        (sha256 : Bytes → Bytes) (io : Ledger W) (s : TaskAttemptRuntime W)
        → s.loaded ≡ true
        → load_active sha256 io s ≡ (ok tt, s)
    unfolding load_active
    load_active-loaded sha256 io s h = rw h refl

    module _ (sha256 : Bytes → Bytes) (io : Ledger W) {A : Type 0} (s : TaskAttemptRuntime W) where
      pub taken-Gives :
          (k : Option AttemptState → Method W A)
          → Held s
          → ((a : AttemptState) (s' : TaskAttemptRuntime W)
              → s'.loaded ≡ true
              → Inv a
              → Gives (k (some a) s'))
          → Gives (resume (load_active sha256 io s) (λ done. take_active >>= k))
      taken-Gives k (h, (a, e, v)) f =
          rw (load_active-loaded sha256 io s h, e) (f a (record s { active = none }) h v)

      pub current-Gives :
          (k : Option AttemptState → Method W A)
          → Held s
          → ((a : AttemptState) → Inv a → Gives (k (some a) s))
          → Gives (resume (load_active sha256 io s) (λ done. active_now >>= k))
      current-Gives k (h, (a, e, v)) f =
          rw (load_active-loaded sha256 io s h)
            (subst (λ (o : Option AttemptState). Gives (k o s)) (sym e) (f a v))
