-- ===== src/Task/Runtime/Load.antt =====
-- bins/fairypam-agent/src/task_attempt.rs: an attempt rebuilt from the lines of its ledger, and the
-- start of a runtime from the ledgers on disk.
use text.Mathlib.Text.{◌==◌ as str_eq}
use fairypam_rust_agent.Base.{
  true, Option, none, some, List, [], ◌∷◌, Bytes, leb, ◌==◌, length, if◌then◌else◌,
}
use fairypam_rust_agent.Base.Sets.{put}
use fairypam_rust_agent.Base.Result.{Result, ok, err, ok_or, ◌>>=◌ as bind, ◌>>◌ as seq}
use fairypam_rust_agent.Core.Error.{AgentError}
use fairypam_rust_agent.Core.State.{failure, is_some}
use fairypam_rust_agent.Task.Wire.{TaskCommandOutcomeState, AttemptRef, outcome_code}
use fairypam_rust_agent.Task.Data.{
  StoredCommandResult, ledger_invalid, max_record_bytes, AttemptState,
}
use fairypam_rust_agent.Task.State.{local_resources_released, store_current_result}
use fairypam_rust_agent.Task.State.Check.{validate}
use fairypam_rust_agent.Task.Runtime.{
  Ledger, Entry, Listing, TaskAttemptRuntime, Method, unavailable, ledger_path, fail, resume, ◌>>◌,
  unreadable_entry, other_entry, ledger_entry, absent_directory, unreadable_directory, entries,
  absent_file, unreadable_file, lines, Lines,
}

-- The journal rebuilt so far.
abbrev pub Journal : Type 0
Journal = List (Bytes × StoredCommandResult)

-- `for (command_id, result) in results { command_results.insert(command_id, result) }`.
abbrev pub insert_all : Journal → Journal → Journal
insert_all [] journal = journal
insert_all ((command_id, r) ∷ rest) journal = insert_all rest (put command_id r journal)

abbrev pub journal_of : Result AgentError AttemptState → Journal → Result AgentError Journal
journal_of (err e) journal = err e
journal_of (ok a) journal = ok (insert_all a.command_results journal)

-- What a line adds to the journal: the results it holds, and the result of its last command.
unfoldable pub journal_line : AttemptState → Journal → Result AgentError Journal
unfolding store_current_result
journal_line a journal =
    let with_results = insert_all a.command_results journal in
    if a.last_command_outcome == outcome_code TaskCommandOutcomeState.unspecified
    then ok with_results
    else journal_of (store_current_result (record a { command_results = [] })) with_results

module _ {W : Type 0} (sha256 : Bytes → Bytes) (io : Ledger W) where
  abbrev pub decode_line : Option Bytes → Result AgentError AttemptState
  decode_line none = err unavailable
  decode_line (some line) =
      if leb (length line) max_record_bytes
      then ok_or (io.from_str line) ledger_invalid
      else err ledger_invalid

  unfoldable pub read_records :
      List (Option Bytes)
      → Option AttemptState
      → Journal
      → Result AgentError (Option AttemptState × Journal)
  unfolding journal_line
  read_records [] last journal = ok (last, journal)
  read_records (line ∷ rest) last journal =
      bind (decode_line line)
        (λ a. bind (journal_line a journal) (λ j. read_records rest (some a) j))

  abbrev pub rebuilt : Option AttemptState × Journal → Result AgentError AttemptState
  rebuilt (none, journal) = err ledger_invalid
  rebuilt (some a, journal) =
      let state = record a { command_results = journal } in seq (validate sha256 state) (ok state)

  abbrev pub load_lines : Lines → Result AgentError AttemptState
  load_lines absent_file = err (failure "task.ledger_not_found")
  load_lines unreadable_file = err unavailable
  load_lines (lines records) = bind (read_records records none []) rebuilt

  unfoldable pub load_last : Bytes → W → Result AgentError AttemptState
  unfolding validate read_records
  load_last path w = load_lines (io.read_lines path w)

  abbrev pub entry_path : Entry → Result AgentError (Option Bytes)
  entry_path unreadable_entry = err unavailable
  entry_path other_entry = ok none
  entry_path (ledger_entry path) = ok (some path)

  abbrev claim_loaded : AttemptState → Method W (Unit {0})
  claim_loaded a s =
      if local_resources_released a
      then (ok tt, s)
      else if is_some s.active
      then (err (failure "task.ledger_conflict"), record s { active = some a })
      else (ok tt, record s { active = some a; recovered_active = true })

  abbrev load_path : Option Bytes → Method W (Unit {0})
  load_path none s = (ok tt, s)
  load_path (some path) s = resume (load_last path s.disk, s) claim_loaded

  unfoldable pub load_entries : List Entry → Method W (Unit {0})
  unfolding load_last local_resources_released
  load_entries [] s = (ok tt, s)
  load_entries (entry ∷ rest) s =
      resume (resume (entry_path entry, s) load_path) (λ done. load_entries rest)

  abbrev set_loaded : Method W (Unit {0})
  set_loaded s = (ok tt, record s { loaded = true })

  abbrev load_listing : Listing → Method W (Unit {0})
  load_listing absent_directory = set_loaded
  load_listing unreadable_directory = fail unavailable
  load_listing (entries es) = load_entries es >> set_loaded

  unfoldable pub load_active : Method W (Unit {0})
  unfolding load_entries
  load_active s = if s.loaded then (ok tt, s) else elim s.root [
    | none ↦ set_loaded s
    | some root ↦ load_listing (io.read_dir root s.disk) s
  ]

  abbrev found_or_none : Result AgentError AttemptState → Result AgentError (Option AttemptState)
  found_or_none (ok a) = ok (some a)
  found_or_none (err e) = if str_eq e.code "task.ledger_not_found" then ok none else err e

  unfoldable pub load_named :
      AttemptRef → TaskAttemptRuntime W → Result AgentError (Option AttemptState)
  unfolding load_last
  load_named reference s = elim s.root [
    | none ↦ ok none
    | some root ↦ found_or_none (load_last (ledger_path io root reference.attempt_id) s.disk)
  ]
