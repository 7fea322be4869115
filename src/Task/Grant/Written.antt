-- ===== src/Task/Grant/Written.antt =====
-- bins/fairypam-agent/src/task_attempt.rs: when an attempt is on record.
use fairypam_rust_agent.Base.{
  ◌≡◌, ◌≤◌, ◌++◌, ◌∙◌, ap, sym, refl, true, false, none, some, [], ◌∷◌, codes, leb, length, arith,
  if◌then◌else◌, Bool, Option, ℕ, Bytes,
}
use fairypam_rust_agent.Base.Result.{Result, ok, err}
use fairypam_rust_agent.Core.Error.{AgentError}
use fairypam_rust_agent.Task.Data.{AttemptState, max_record_bytes, ledger_full}
use fairypam_rust_agent.Task.Runtime.{
  Ledger, TaskAttemptRuntime, persist, persist_at, written, append_bytes, created,
}

-- The directory is made, and then the attempt, without its journal, is appended as a line to its
-- file, unless the runtime keeps nothing.
abbrev pub IsWritten : {W : Type 0} → Ledger W → Option Bytes → AttemptState → W → W → Type 0
IsWritten io none a before after = after ≡ before
IsWritten {W} io (some root) a before after =
    (bytes : Bytes) × (middle : W) × (io.to_vec (record a { command_results = [] }) ≡ some bytes)
    × (length bytes ≤ max_record_bytes)
    × (io.create_dir_all root before ≡ (true, middle))
    × (io.append (io.join root (a.reference.attempt_id ++ codes ".jsonl")) (bytes ++ b'\n' ∷ [])
          middle
        ≡ (true, after))

leb_of : (n : ℕ) → n ≤ max_record_bytes → leb n max_record_bytes ≡ true
leb_of n h = ground arith

module _ {W : Type 0} (io : Ledger W) (a : AttemptState) where
  abbrev bare : AttemptState
  bare = record a { command_results = [] }

  abbrev file : Bytes → Bytes
  file root = io.join root (a.reference.attempt_id ++ codes ".jsonl")

  written-ok :
      (r : Bool × W) (s t : TaskAttemptRuntime W)
      → written io r s ≡ (ok tt, t)
      → (r ≡ (true, t.disk)) × (t ≡ record s { disk = t.disk })
  written-ok (true, w) s t h =
      let e = ap (λ (x : Result AgentError (Unit {0}) × TaskAttemptRuntime W). x.1) h in
      (
        ap (λ (x : TaskAttemptRuntime W). (true, x.disk)) e,
        sym e ∙ ap (λ (x : TaskAttemptRuntime W). record s { disk = x.disk }) e,
      )
  written-ok (false, w) s t h = absurd (cc)

  append_bytes-IsWritten :
      (o : Option Bytes) (root : Bytes) (w : W) (s t : TaskAttemptRuntime W)
      → io.to_vec bare ≡ o
      → io.create_dir_all root w ≡ (true, s.disk)
      → append_bytes io o root a s ≡ (ok tt, t)
      → IsWritten io (some root) a w t.disk × (t ≡ record s { disk = t.disk })
  append_bytes-IsWritten none root w s t e made h = absurd (cc)
  append_bytes-IsWritten (some bytes) root w s t e made h =
      go (leb (length bytes) max_record_bytes) (λ k. ground (arith, k)) h
    where
      go :
          (b : Bool)
          → (b ≡ true → length bytes ≤ max_record_bytes)
          → (if b
              then written io (io.append (file root) (bytes ++ b'\n' ∷ []) s.disk) s
              else (err ledger_full, s))
            ≡ (ok tt, t)
          → IsWritten io (some root) a w t.disk × (t ≡ record s { disk = t.disk })
      go true small g =
          let (done, same) =
            written-ok (io.append (file root) (bytes ++ b'\n' ∷ []) s.disk) s t g in
          ((bytes, s.disk, e, small refl, made, done), same)
      go false small g = absurd (cc)

  created-IsWritten :
      (r : Bool × W) (root : Bytes) (w : W) (s t : TaskAttemptRuntime W)
      → io.create_dir_all root w ≡ r
      → created io r root a s ≡ (ok tt, t)
      → IsWritten io (some root) a w t.disk × (t ≡ record s { disk = t.disk })
  created-IsWritten (true, v) root w s t made h =
      append_bytes-IsWritten (io.to_vec bare) root w (record s { disk = v }) t refl made h
  created-IsWritten (false, v) root w s t made h = absurd (cc)

  persist_at-IsWritten :
      (o : Option Bytes) (s t : TaskAttemptRuntime W)
      → persist_at io o a s ≡ (ok tt, t)
      → IsWritten io o a s.disk t.disk × (t ≡ record s { disk = t.disk })
  persist_at-IsWritten none s t h =
      let e = ap (λ (x : Result AgentError (Unit {0}) × TaskAttemptRuntime W). x.1) h in
      (
        ap (λ (x : TaskAttemptRuntime W). x.disk) (sym e),
        sym e ∙ ap (λ (x : TaskAttemptRuntime W). record s { disk = x.disk }) e,
      )
  persist_at-IsWritten (some root) s t h =
      created-IsWritten (io.create_dir_all root s.disk) root s.disk s t refl h

  pub persist-IsWritten :
      (s t : TaskAttemptRuntime W)
      → persist io a s ≡ (ok tt, t)
      → IsWritten io s.root a s.disk t.disk × (t ≡ record s { disk = t.disk })
  unfolding persist
  persist-IsWritten s t h = persist_at-IsWritten s.root s t h

  IsWritten-persist_at :
      (o : Option Bytes) (s : TaskAttemptRuntime W) (w : W)
      → IsWritten io o a s.disk w
      → persist_at io o a s ≡ (ok tt, record s { disk = w })
  IsWritten-persist_at none s w h = rw h refl
  IsWritten-persist_at (some root) s w (bytes, middle, e, k, made, done) =
      rw (made, e, leb_of (length bytes) k, done) refl

  pub IsWritten-persist :
      (s : TaskAttemptRuntime W) (w : W)
      → IsWritten io s.root a s.disk w
      → persist io a s ≡ (ok tt, record s { disk = w })
  unfolding persist
  IsWritten-persist s w h = IsWritten-persist_at s.root s w h
