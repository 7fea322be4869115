-- ===== src/Task/Grant/Free.antt =====
-- bins/fairypam-agent/src/task_attempt.rs: when nothing stands against a command, in words of the
-- attempt's fields, and when an attempt is on record.
use fairypam_rust_agent.Base.{
  ℕ, ◌<◌, ◌≤◌, Bool, true, false, not, ◌&&◌, ◌≡◌, ◌≢◌, ◌⊎◌, inl, inr, refl, Option, none, some,
  Bytes, beq, beq_iff, leb, ltb, ◌==◌, arith, length, if◌then◌else◌, Bool-cases,
}
use fairypam_rust_agent.Base.Int.{ℤ, pos, negsuc}
use fairypam_rust_agent.Base.Result.{Result, ok, err, ensure, ◌>>◌, ensure-eq-ok}
use fairypam_rust_agent.Core.Error.{AgentError}
use fairypam_rust_agent.Core.State.{SessionIdentity, is_some_and, failure}
use fairypam_rust_agent.Task.Wire.{
  CommandRef, TaskCommandOutcomeState, TaskAttemptState, TaskSideEffectState, outcome_code,
  attempt_code, side_effect_code,
}
use fairypam_rust_agent.Task.Data.{AttemptState, StoredCommandResult, max_business_command_results}
use fairypam_rust_agent.Task.State.{stored_result, record_command, has_room, effect_unresolved}
use fairypam_rust_agent.Task.Runtime.Prepare.{opens_now, deadline_passed, contract_expired, opened}
use fairypam_rust_agent.Task.Held.{recorded}

-- A contract of version 1 has no deadline.
abbrev pub InTime : ℕ → ℕ → ℤ → Type 0
InTime now version deadline = (version ≤ 1) ⊎ ((end : ℕ) × (deadline ≡ pos end) × (now < end))

-- A command of the last command's session comes behind it.
abbrev pub IsNext : CommandRef → AttemptState → Type 0
IsNext command a =
    (session : SessionIdentity)
    → command.session ≡ some session
    → session.session_id ≡ a.last_command_session_id
    → a.last_command_sequence < command.sequence

-- No result of the command is stored and the last command was another; the attempt is not terminal,
-- its contract has not expired, and no side effect is intended or in doubt; the journal is shorter
-- than the limit of business commands, and the command is the next one of its session.
pub record IsFree (now : ℕ) (command : CommandRef) (a : AttemptState) : Type 0 where
  pub fresh : stored_result a command.command_id ≡ none
  pub other : a.last_command_id ≢ command.command_id
  pub live : a.attempt_state ≢ attempt_code TaskAttemptState.terminal
  pub in_time : InTime now a.contract.contract_version a.contract.deadline_unix_ms
  pub not_intended : a.side_effect_state ≢ side_effect_code TaskSideEffectState.intent_recorded
  pub not_in_doubt : a.side_effect_state ≢ side_effect_code TaskSideEffectState.uncertain
  pub room : length a.command_results < max_business_command_results
  pub next : IsNext command a

-- The attempt with the command as its last one, without an outcome; as the intended side effect, if
-- it is one.
abbrev pub as_pending : CommandRef → Bytes → Bool → AttemptState → AttemptState
as_pending command payload_digest side_effect a = record (recorded command payload_digest a) {
  last_command_outcome = outcome_code TaskCommandOutcomeState.unspecified;
  last_command_source_frame_sequence = none;
  last_command_error_code = none;
  error_code = none;
  side_effect_state =
      if side_effect
      then side_effect_code TaskSideEffectState.intent_recorded
      else a.side_effect_state;
  last_side_effect_command_id =
      if side_effect then command.command_id else a.last_side_effect_command_id;
}

expired-InTime :
    (now version : ℕ) (deadline : ℤ)
    → (ltb 1 version && deadline_passed deadline now) ≡ false
    → InTime now version deadline
expired-InTime now version (pos end) h = elim (Bool-cases (ltb 1 version)) [
  | inl e ↦ inr (end, refl, ground (arith, e))
  | inr e ↦ inl (ground (arith, e))
]
expired-InTime now version (negsuc n) h = inl (ground arith)

InTime-expired :
    (now version : ℕ) (deadline : ℤ)
    → InTime now version deadline
    → (ltb 1 version && deadline_passed deadline now) ≡ false
InTime-expired now version deadline (inl old) = ground arith
InTime-expired now version deadline (inr (end, e, h)) = rw e (ground arith)

next-of :
    (o : Option SessionIdentity) (last : Bytes) (sequence last_sequence : ℕ)
    → (is_some_and (λ session. beq session.session_id last) o && leb sequence last_sequence) ≡ false
    → (session : SessionIdentity) → o ≡ some session
    → session.session_id ≡ last
    → last_sequence < sequence
next-of o last sequence last_sequence h session e same =
    ground (arith, h, e, beq_iff session.session_id last)

after-of :
    (o : Option SessionIdentity) (last : Bytes) (sequence last_sequence : ℕ)
    → ((session : SessionIdentity)
        → o ≡ some session
        → session.session_id ≡ last
        → last_sequence < sequence)
    → (is_some_and (λ session. beq session.session_id last) o && leb sequence last_sequence) ≡ false
after-of none last sequence last_sequence h = refl
after-of (some session) last sequence last_sequence h =
    elim (Bool-cases (beq session.session_id last)) [
      | inl e ↦ ground (arith, e, h session refl ((beq_iff session.session_id last).0 e))
      | inr e ↦ ground (arith, e)
    ]

room-of :
    (o : Option StoredCommandResult) (digest : Bytes) (count limit : ℕ)
    → o ≡ none
    → has_room o digest count limit ≡ ok tt
    → count < limit
room-of o digest count limit e h = ground arith

opens_now-ok :
    (now : ℕ) (a : AttemptState)
    → opens_now now a ≡ ok tt
    → ((a.attempt_state == attempt_code TaskAttemptState.terminal) ≡ false)
      × (contract_expired now a ≡ false)
      × (effect_unresolved a.side_effect_state ≡ false)
opens_now-ok now a e = ground arith

two_checks :
    {A : Type 0} (first second : Result AgentError (Unit {0})) (x : A) {b : A}
    → (first >> (second >> ok x)) ≡ ok b
    → (first ≡ ok tt) × (second ≡ ok tt)
two_checks (ok _) (ok _) x e = (refl, refl)
two_checks (ok _) (err y) x e = absurd (cc)
two_checks (err y) second x e = absurd (cc)

abbrev replays : CommandRef → AttemptState → Bool
replays command a =
    is_some_and (λ session. beq session.session_id a.last_command_session_id) command.session
    && leb command.sequence a.last_command_sequence

checked-of :
    (command : CommandRef) (digest : Bytes) (a b : AttemptState)
    → record_command command digest max_business_command_results a ≡ ok b
    → (has_room
          (stored_result a command.command_id)
          digest
          (length a.command_results)
          max_business_command_results
        ≡ ok tt)
      × (not (not (beq a.last_command_id command.command_id) && replays command a) ≡ true)
unfolding record_command
checked-of command digest a b e =
    let in_order = not (not (beq a.last_command_id command.command_id) && replays command a) in
    let (room, next) =
      two_checks
        (has_room (stored_result a command.command_id) digest (length a.command_results)
          max_business_command_results)
        (ensure in_order (failure "command_sequence_invalid")) (recorded command digest a) e in
    (room, ensure-eq-ok in_order (failure "command_sequence_invalid") next)

-- The checks of a new command, from both sides.
pub IsFree-intro :
    (now : ℕ) (command : CommandRef) (digest : Bytes) (a b : AttemptState)
    → stored_result a command.command_id ≡ none
    → beq a.last_command_id command.command_id ≡ false
    → opens_now now a ≡ ok tt
    → record_command command digest max_business_command_results a ≡ ok b
    → IsFree now command a
unfolding record_command
IsFree-intro now command digest a b fresh other opens kept =
    let (live, in_time, resolved) = opens_now-ok now a opens in
    let (room, next) = checked-of command digest a b kept in
    record {
      fresh = fresh;
      other = λ e. absurd (ground (arith, beq_iff a.last_command_id command.command_id));
      live = λ e. absurd (ground arith);
      in_time = expired-InTime now a.contract.contract_version a.contract.deadline_unix_ms in_time;
      not_intended = λ e. absurd (ground arith);
      not_in_doubt = λ e. absurd (ground arith);
      room =
          room-of (stored_result a command.command_id) digest (length a.command_results)
            max_business_command_results fresh room;
      next =
          next-of command.session a.last_command_session_id command.sequence a.last_command_sequence
            (ground (arith, next, other));
    }

neq : (m n : ℕ) → m ≢ n → (m == n) ≡ false
neq m n h = ground (arith, h)

unresolved :
    (state : ℕ)
    → state ≢ side_effect_code TaskSideEffectState.intent_recorded
    → state ≢ side_effect_code TaskSideEffectState.uncertain
    → effect_unresolved state ≡ false
unresolved state h k = ground (arith, h, k)

abbrev passed : Result AgentError (Unit {0})
passed = ok tt

opens-of :
    (terminal expired unsettled : Bool)
    → terminal ≡ false
    → expired ≡ false
    → unsettled ≡ false
    → (if terminal
        then err (failure "attempt_terminal")
        else if expired
        then err (failure "task.contract_expired")
        else if unsettled
        then err (failure "side_effect_uncertain")
        else ok tt)
      ≡ passed
opens-of terminal expired unsettled e f g = rw (e, f, g) refl

pub opens_now-free :
    (now : ℕ) (command : CommandRef) (a : AttemptState)
    → IsFree now command a
    → opens_now now a ≡ ok tt
opens_now-free now command a free =
    opens-of (a.attempt_state == attempt_code TaskAttemptState.terminal) (contract_expired now a)
      (effect_unresolved a.side_effect_state) (neq a.attempt_state _ free.live)
      (InTime-expired now a.contract.contract_version a.contract.deadline_unix_ms free.in_time)
      (unresolved a.side_effect_state free.not_intended free.not_in_doubt)

pub record_command-free :
    (now : ℕ) (command : CommandRef) (digest : Bytes) (a : AttemptState)
    → IsFree now command a
    → record_command command digest max_business_command_results a ≡ ok (recorded command digest a)
unfolding record_command
record_command-free now command digest a free = rw (free.fresh, after) (ground (arith, free.room))
  where
    after :
        (is_some_and (λ session. beq session.session_id a.last_command_session_id) command.session
          && leb command.sequence a.last_command_sequence)
        ≡ false
    after =
        after-of command.session a.last_command_session_id command.sequence a.last_command_sequence
          free.next

pub opened-as_pending :
    (command : CommandRef) (digest : Bytes) (side_effect : Bool) (a : AttemptState)
    → opened command side_effect (recorded command digest a)
      ≡ as_pending command digest side_effect a
opened-as_pending command digest true a = refl
opened-as_pending command digest false a = refl
