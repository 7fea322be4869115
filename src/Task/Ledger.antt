-- ===== src/Task/Ledger.antt =====
-- bins/fairypam-agent/src/task_attempt.rs: what the ledger of an attempt says when it is read back.
use fairypam_rust_agent.Base.{
  ◌∙◌, true, ◌≡◌, refl, not, ◌&&◌, Option, none, some, List, [], ◌∷◌, Bytes, beq, leb, length, All,
  if◌then◌else◌, arith, subst, ap, Bool-cases, inl, inr, map,
}
use fairypam_rust_agent.Base.Sets.{get, put, get-put}
use fairypam_rust_agent.Base.Result.{◌>>=◌ as bind, Result, ok, then_ok}
use fairypam_rust_agent.Core.Error.{AgentError}
use fairypam_rust_agent.Task.Data.{AttemptState, StoredCommandResult, max_record_bytes}
use fairypam_rust_agent.Task.State.{current_result, store_current_result}
use fairypam_rust_agent.Task.State.Check.{validate}
use fairypam_rust_agent.Task.Runtime.{Ledger, record_of, lines, Lines}
use fairypam_rust_agent.Task.Runtime.Load.{
  Journal, journal_line, read_records, decode_line, rebuilt, load_last, load_lines,
}
use fairypam_rust_agent.Task.Runtime.Prepare.{pending}

-- The states that were written, oldest first, each with its line.
abbrev pub History : Type 0
History = List (AttemptState × Bytes)

abbrev pub line_of : AttemptState × Bytes → Option Bytes
line_of (a, line) = some line

-- The result of a command in the latest of the states that were written with it.
abbrev pub latest : Bytes → History → Option StoredCommandResult → Option StoredCommandResult
latest id [] found = found
latest id ((a, line) ∷ rest) found =
    latest id rest
      (if not (pending a) && beq id a.last_command_id then some (current_result a) else found)

abbrev pub last_written : History → Option AttemptState → Option AttemptState
last_written [] last = last
last_written ((a, line) ∷ rest) last = last_written rest (some (record a { command_results = [] }))

abbrev next_journal : AttemptState → Journal → Journal
next_journal a j = if pending a then j else put a.last_command_id (current_result a) j

get-next_journal :
    (a : AttemptState) (j : Journal) (id : Bytes)
    → get id (next_journal a j)
      ≡ (if not (pending a) && beq id a.last_command_id then some (current_result a) else get id j)
get-next_journal a j id = elim (Bool-cases (pending a)) [
  | inl e ↦ rw e refl
  | inr e ↦ rw (e, get-put a.last_command_id id (current_result a) j) refl
]

module _ {W : Type 0} (sha256 : Bytes → Bytes) (io : Ledger W) where
  -- The line is one that JSON decodes to what was encoded, within the bound of a record.
  abbrev pub IsWritten : AttemptState × Bytes → Type 0
  IsWritten (a, line) =
      (io.from_str line ≡ some (record_of io a)) × (leb (length line) max_record_bytes ≡ true)

  journal_line-record :
      (a : AttemptState) (j : Journal)
      → journal_line (record_of io a) j
        ≡ ok (if pending a then j else put a.last_command_id (current_result a) j)
  unfolding journal_line store_current_result put
  journal_line-record a j = elim (Bool-cases (pending a)) [ inl e ↦ rw e refl | inr e ↦ rw e refl ]

  decode_line-written :
      (a : AttemptState) (line : Bytes)
      → IsWritten (a, line)
      → decode_line sha256 io (some line) ≡ ok (record_of io a)
  decode_line-written a line (e, h) = rw (h, e) refl

  abbrev pub Rebuilds :
      History
      → Option AttemptState
      → Journal
      → Result AgentError (Option AttemptState × Journal)
      → Type 0
  Rebuilds h last j r =
      (m : Journal) × (r ≡ ok (last_written h last, m))
      × ((id : Bytes) → get id m ≡ latest id h (get id j))

  read_records-Rebuilds :
      (h : History) (last : Option AttemptState) (j : Journal)
      → All IsWritten h
      → Rebuilds h last j (read_records sha256 io (map line_of h) last j)
  unfolding read_records
  read_records-Rebuilds [] last j w = (j, refl, λ id. refl)
  read_records-Rebuilds ((a, line) ∷ rest) last j (w, ws) =
      let (m, e, view) = read_records-Rebuilds rest (some (record_of io a)) (next_journal a j) ws in
      (
        m,
        rw (decode_line-written a line w, journal_line-record a j) e,
        λ id. view id ∙ ap (latest id rest) (get-next_journal a j id),
      )

  -- After `load_last` has read a ledger, the journal has for each command the result that the latest
  -- state written with that command as the last one and with an outcome had, and no other result;
  -- and the rest of the attempt is that of the last state written. The lines are those that were
  -- written, each of which decodes to the state without its journal.
  pub load_last-latest :
      (path : Bytes) (w : W) (h : History) (b : AttemptState)
      → io.read_lines path w ≡ lines (map line_of h)
      → All IsWritten h
      → load_last sha256 io path w ≡ ok b
      → ((id : Bytes) → get id b.command_results ≡ latest id h none)
        × ((a : AttemptState) × (last_written h none ≡ some a)
            × (record a { command_results = b.command_results } ≡ b))
  unfolding load_last
  load_last-latest path w h b read written e =
      let (m, records, view) = read_records-Rebuilds h none [] written in
      ends m view (last_written h none) refl (
        subst
          (λ (r : Result AgentError (Option AttemptState × Journal)).
            bind r (rebuilt sha256 io) ≡ ok b)
          records (subst (λ (l : Lines). load_lines sha256 io l ≡ ok b) read e))
    where
      ends :
          (m : Journal)
          → ((id : Bytes) → get id m ≡ latest id h none)
          → (last : Option AttemptState) → last_written h none ≡ last
          → rebuilt sha256 io (last, m) ≡ ok b
          → ((id : Bytes) → get id b.command_results ≡ latest id h none)
            × ((a : AttemptState) × (last_written h none ≡ some a)
                × (record a { command_results = b.command_results } ≡ b))
      ends m view none k r = absurd (ground arith)
      ends m view (some a) k r =
          let same =
            (then_ok (validate sha256 (record a { command_results = m }))
              (record a { command_results = m }) r).1 in
          (
            λ id.
                subst (λ (c : AttemptState). get id c.command_results ≡ latest id h none) same
                  (view id),
            (
              a,
              k,
              subst (λ (c : AttemptState). record a { command_results = c.command_results } ≡ c)
                  same refl,
            ),
          )
