-- ===== src/Task/Runtime.antt =====
-- bins/fairypam-agent/src/task_attempt.rs: the runtime of task attempts, what it keeps, and its
-- ledger. The file system and the JSON codec are a `Ledger`: a file system `W` that its calls pass
-- on. A method returns its result with the runtime as it leaves it, also when it fails.
pub mod Load
pub mod Known
pub mod Prepare
pub mod Replay
pub mod Begin
pub mod Inspect
pub mod Complete
pub mod Safety
pub mod Calls
use fairypam_rust_agent.Base.{
  ℕ, Bool, true, false, ◌||◌, ◌++◌, Option, none, some, List, [], ◌∷◌, Bytes, codes, leb, ◌==◌,
  length, if◌then◌else◌,
}
use fairypam_rust_agent.Base.Result.{Result, ok, err}
use fairypam_rust_agent.Core.Error.{AgentError}
use fairypam_rust_agent.Core.State.{failure}
use fairypam_rust_agent.Task.Wire.{TaskCommandResult}
use fairypam_rust_agent.Task.Data.{ledger_full, ledger_invalid, max_record_bytes, AttemptState}

-- A directory's entry: one that cannot be read, a path with the extension `jsonl`, or another.
pub data Entry : Type 0 where
  unreadable_entry other_entry : Entry
  ledger_entry : (path : Bytes) → Entry

pub data Listing : Type 0 where
  absent_directory unreadable_directory : Listing
  entries : List Entry → Listing

-- A file's lines, of which one that cannot be read is `none`.
pub data Lines : Type 0 where
  absent_file unreadable_file : Lines
  lines : List (Option Bytes) → Lines

-- `true` is success, for the two calls that write.
pub record Ledger (W : Type 0) : Type 0 where
  pub join : Bytes → Bytes → Bytes
  pub create_dir_all : Bytes → W → Bool × W
  pub append : Bytes → Bytes → W → Bool × W
  pub read_dir : Bytes → W → Listing
  pub read_lines : Bytes → W → Lines
  pub to_vec : AttemptState → Option Bytes
  pub from_str : Bytes → Option AttemptState

pub record TaskAttemptRuntime (W : Type 0) : Type 0 where
  pub root : Option Bytes
  pub active : Option AttemptState
  pub loaded : Bool
  pub recovered_active : Bool
  pub disk : W

abbrev pub Method : Type 0 → Type 0 → Type 0
Method W A = TaskAttemptRuntime W → Result AgentError A × TaskAttemptRuntime W

abbrev pub resume :
    {W A B : Type 0}
    → Result AgentError A × TaskAttemptRuntime W
    → (A → Method W B)
    → Result AgentError B × TaskAttemptRuntime W
resume (ok a, s) k = k a s
resume (err e, s) k = (err e, s)

infixl 5 ◌>>=◌ ◌>>◌
abbrev pub ◌>>=◌ : {W A B : Type 0} → Method W A → (A → Method W B) → Method W B
◌>>=◌ m k s = resume (m s) k

abbrev pub ◌>>◌ : {W B : Type 0} → Method W (Unit {0}) → Method W B → Method W B
m >> k = m >>= λ done. k

abbrev pub return : {W A : Type 0} → A → Method W A
return a s = (ok a, s)

abbrev pub fail : {W A : Type 0} → AgentError → Method W A
fail e s = (err e, s)

abbrev pub lift : {W A : Type 0} → Result AgentError A → Method W A
lift r s = (r, s)

abbrev pub active_now : {W : Type 0} → Method W (Option AttemptState)
active_now s = (ok s.active, s)

-- `self.active.take()`.
abbrev pub take_active : {W : Type 0} → Method W (Option AttemptState)
take_active s = (ok s.active, record s { active = none })

-- `self.active = Some(active)`.
abbrev pub put_active : {W : Type 0} → AttemptState → Method W (Unit {0})
put_active a s = (ok tt, record s { active = some a })

-- `if let Err(error) = … { self.active = Some(active); return Err(error); }`.
abbrev pub restoring :
    {W A : Type 0}
    → AttemptState
    → Result AgentError A × TaskAttemptRuntime W
    → Result AgentError A × TaskAttemptRuntime W
restoring a (ok x, s) = (ok x, s)
restoring a (err e, s) = (err e, record s { active = some a })

abbrev pub or_restore : {W A : Type 0} → AttemptState → Method W A → Method W A
or_restore a m s = restoring a (m s)

-- The constructors; `production` is `at` the root that `production_root` gives, or without one.
unfoldable pub at : {W : Type 0} → Option Bytes → W → TaskAttemptRuntime W
at root disk = record {
  root = root;
  active = none;
  loaded = false;
  recovered_active = false;
  disk = disk;
}

unfoldable pub memory : {W : Type 0} → W → TaskAttemptRuntime W
memory disk = record {
  root = none;
  active = none;
  loaded = true;
  recovered_active = false;
  disk = disk;
}

abbrev pub unavailable : AgentError
unavailable = failure "task.ledger_unavailable"

module _ {W : Type 0} (io : Ledger W) where
  abbrev pub ledger_path : Bytes → Bytes → Bytes
  ledger_path root attempt_id = io.join root (attempt_id ++ codes ".jsonl")

  -- What is written of a state: all of it but the journal, which a read rebuilds.
  abbrev pub record_of : AttemptState → AttemptState
  record_of a = record a { command_results = [] }

  abbrev pub written :
      Bool × W → TaskAttemptRuntime W → Result AgentError (Unit {0}) × TaskAttemptRuntime W
  written (true, w) s = (ok tt, record s { disk = w })
  written (false, w) s = (err unavailable, record s { disk = w })

  abbrev pub append_bytes : Option Bytes → Bytes → AttemptState → Method W (Unit {0})
  append_bytes none root a s = (err ledger_invalid, s)
  append_bytes (some bytes) root a s =
      if leb (length bytes) max_record_bytes
      then written
          (io.append (ledger_path root a.reference.attempt_id) (bytes ++ b'\n' ∷ []) s.disk) s
      else (err ledger_full, s)

  abbrev pub created : Bool × W → Bytes → AttemptState → Method W (Unit {0})
  created (true, w) root a s = append_bytes (io.to_vec (record_of a)) root a (record s { disk = w })
  created (false, w) root a s = (err unavailable, record s { disk = w })

  abbrev pub persist_at : Option Bytes → AttemptState → Method W (Unit {0})
  persist_at none a s = (ok tt, s)
  persist_at (some root) a s = created (io.create_dir_all root s.disk) root a s

  unfoldable pub persist : AttemptState → Method W (Unit {0})
  persist a s = persist_at s.root a s

  -- `self.persist(&active)`, which on failure gives the active attempt back.
  abbrev pub persist_or_restore : AttemptState → Method W (Unit {0})
  persist_or_restore a = or_restore a (persist a)
