-- ===== src/Input/Lease/Applied.antt =====
-- crates/fairypam-agent-input/src/lease.rs: what a lease that is applied leaves.
pub mod Meaning
use fairypam_rust_agent.Base.{
  ℕ, ◌<◌, ◌+◌, Bool, true, false, some, List, [], ◌∷◌, ◌≡◌, ◌∙◌, sym, ◌⊎◌, inl, inr, refl, arith,
  ap, Bytes, ◌&&◌, ltb, ltb→lt, not, String,
}
use mathlib.Core.Path.{subst}
use fairypam_rust_agent.Base.Result.{Result, ok, err}
use fairypam_rust_agent.Base.Sets.{BTreeSet, extend, difference, contains, contains-difference}
use fairypam_rust_agent.Core.State.{session_eq, is_some_and}
use fairypam_rust_agent.Guardian.Protocol.{ReleaseReason, session_changed}
use fairypam_rust_agent.Input.Action.{SafetyError, ActionMap}
use fairypam_rust_agent.Input.Action.Physical.{all_scan_codes}
use fairypam_rust_agent.Input.Lease.{
  Environment, Call, LeaseExecutor, InputLease, Failure, fault, panic, recover,
  validate_before_input, guardian_register_intent, guardian_commit_holds, guardian_release_all,
  emergency_release, call, require, next_guardian_sequence,
}
use fairypam_rust_agent.Input.Lease.Gate.{
  InputPermit, permit_is_valid_for, release_all, fail_closed,
}
use fairypam_rust_agent.Input.Lease.Apply.{
  apply_lease, apply_lease_inner, change_session, require_new_sequence, press_lease, admit,
  replace_holds, lease_failure_reason,
}
use fairypam_rust_agent.Input.Lease.Keys.{
  calls_for, pressing, releasing, resume-elim, hold_difference-calls, check_holds-state,
}
use fairypam_rust_agent.Input.Lease.Applied.Meaning.{Begins, IsApplied}

-- What the checks of a lease leave.
record IsBegun (lease : InputLease) (now : ℕ) (before middle : LeaseExecutor) : Type 0 where
  begun : Begins lease before middle.calls middle.held_actions
  same : middle.actions ≡ before.actions
  positive : 0 < lease.sequence
  lasting : now < lease.expires_at
  untouched : middle.guardian_sequence ≡ before.guardian_sequence

-- The calls of a replacement of the holds, over the ones made before.
abbrev replacing : BTreeSet → BTreeSet → ActionMap → ℕ → List Call → List Call
replacing desired previous actions sequence past =
    guardian_commit_holds sequence desired
    ∷ calls_for pressing actions (difference desired previous) (
        calls_for releasing actions (difference previous desired)
          (guardian_register_intent sequence desired ∷ past))

-- What the replacement of the holds leaves.
abbrev Replaces : BTreeSet → ℕ → LeaseExecutor → LeaseExecutor → Type 0
Replaces desired sequence before after = after ≡ record before {
  held_actions = desired;
  guarded_actions = [];
  calls = replacing desired before.held_actions before.actions sequence before.calls;
}

require-ok :
    (b : Bool) (code : String) (s : LeaseExecutor) {after : LeaseExecutor}
    → require b code s ≡ (ok tt, after)
    → (b ≡ true) × (after ≡ s)
require-ok true code s h = (refl, ground arith)
require-ok false code s h = absurd (ground arith)

IsBegun-intro :
    (lease : InputLease) (now : ℕ) (s t u v w : LeaseExecutor)
    → (t ≡ s)
    → (ltb now lease.expires_at ≡ true) × (u ≡ t)
    → Begins lease u v.calls v.held_actions
      × (v.actions ≡ u.actions)
      × (0 < lease.sequence)
      × (v.guardian_sequence ≡ u.guardian_sequence)
    → w ≡ v
    → IsBegun lease now s w
IsBegun-intro lease now s t u v w e (lasting, f) (begun, same, positive, untouched) g = record {
  begun = elim begun [
    | inl (kept, calls, held, advanced) ↦
        inl (cc, cc, cc, subst (λ x. x.sequence < lease.sequence) (f ∙ e) advanced)
    | inr (other, calls, held) ↦ inr (cc, cc, cc)
  ];
  same = cc;
  positive = positive;
  lasting = ltb→lt now lease.expires_at lasting;
  untouched = cc;
}

Replaces-intro :
    (desired : BTreeSet) (sequence : ℕ) (s t u after : LeaseExecutor)
    → t ≡ record s { calls = guardian_register_intent sequence desired ∷ s.calls }
    → u ≡ record t {
      held_actions = extend t.held_actions desired;
      calls =
          calls_for pressing t.actions
            (difference desired t.held_actions)
            (calls_for releasing t.actions (difference t.held_actions desired) t.calls);
    }
    → after ≡ record u {
      held_actions = desired;
      guarded_actions = [];
      calls = guardian_commit_holds sequence desired ∷ u.calls;
    }
    → Replaces desired sequence s after
Replaces-intro desired sequence s t u after e f g = rw (g, f, e) refl

IsApplied-intro :
    (lease : InputLease) (now sequence : ℕ) (s t u v w after : LeaseExecutor)
    → IsBegun lease now s t
    → u ≡ record t { calls = validate_before_input ∷ t.calls }
    → (sequence ≡ u.guardian_sequence + 1) × (v ≡ u)
    → Replaces lease.desired_holds sequence v w
    → after ≡ record w {
      active_session = some lease.session;
      sequence = lease.sequence;
      guardian_sequence = sequence;
      expires_at = some lease.expires_at;
      input_gate_open = true;
    }
    → IsApplied lease now s after
IsApplied-intro lease now sequence s t u v w after b e (f, g) k l = record {
  gate = cc;
  session = cc;
  sequence = cc;
  deadline = cc;
  held = cc;
  unguarded = cc;
  same_actions =
      ap (λ x. x.actions) l ∙ ap (λ x. x.actions) k ∙ ap (λ x. x.actions) (g ∙ e) ∙ b.same;
  lasting = b.lasting;
  positive = b.positive;
  guardian_sequence =
      ap (λ x. x.guardian_sequence) l
      ∙ f
      ∙ ap (λ n. n + 1) (ap (λ x. x.guardian_sequence) e ∙ b.untouched);
  start = t.calls;
  previous = t.held_actions;
  released = difference t.held_actions lease.desired_holds;
  pressed = difference lease.desired_holds t.held_actions;
  begins = b.begun;
  releases = λ id. contains-difference id t.held_actions lease.desired_holds;
  presses = λ id. contains-difference id lease.desired_holds t.held_actions;
  calls =
      ap (λ x. x.calls) l
      ∙ ap (λ x. x.calls) k
      ∙ ap (λ x. replacing lease.desired_holds x.held_actions x.actions sequence x.calls) (g ∙ e)
      ∙ ap
          (λ actions.
            replacing lease.desired_holds t.held_actions actions sequence
              (validate_before_input ∷ t.calls))
          b.same
      ∙ ap
          (λ n.
            replacing lease.desired_holds t.held_actions s.actions n
              (validate_before_input ∷ t.calls))
          (sym (ap (λ x. x.guardian_sequence) l));
}

recovered :
    (env : Environment) (reason : SafetyError → ReleaseReason)
    (r : Result Failure (Unit {0}) × LeaseExecutor) {after : LeaseExecutor}
    → recover (λ e. fail_closed env (reason e) e) r ≡ (ok tt, after)
    → r ≡ (ok tt, after)
unfolding fail_closed release_all call
recovered env reason (ok a, s) h = h
recovered env reason (err panic, s) h = h
recovered env reason (err (fault e), s) h = absurd (ground arith)

call-ok :
    (env : Environment) (c : Call) (s : LeaseExecutor) {after : LeaseExecutor}
    → call env c s ≡ (ok tt, after)
    → after ≡ record s { calls = c ∷ s.calls }
unfolding call
call-ok env c s h = ground arith

next-ok :
    (s : LeaseExecutor) {n : ℕ} {after : LeaseExecutor}
    → next_guardian_sequence s ≡ (ok n, after)
    → (n ≡ s.guardian_sequence + 1) × (after ≡ s)
unfolding next_guardian_sequence
next-ok s h = ground arith

module _ (env : Environment) where
  change_session-Begins :
      (lease : InputLease) (s t u : LeaseExecutor)
      → change_session env lease.session s ≡ (ok tt, t)
      → require_new_sequence lease.sequence t ≡ (ok tt, u)
      → Begins lease s u.calls u.held_actions
        × (u.actions ≡ s.actions)
        × (0 < lease.sequence)
        × (u.guardian_sequence ≡ s.guardian_sequence)
  unfolding change_session require_new_sequence
  change_session-Begins lease s t u h k = ground arith

  admit-IsBegun :
      (lease : InputLease) (permit : InputPermit) (now : ℕ) (s : LeaseExecutor)
      {after : LeaseExecutor}
      → admit env lease permit now s ≡ (ok tt, after)
      → IsBegun lease now s after
  unfolding admit
  admit-IsBegun lease permit now s {after} h =
      let permitted = permit_is_valid_for permit now lease.session in
      resume-elim _ (require permitted "input.permit_invalid" s) _ h λ _ t first h1.
        resume-elim _ (require (ltb now lease.expires_at) "input.lease_expired" t) _ h1
          λ _ u second h2. resume-elim _ (change_session env lease.session u) _ h2 λ _ x changed h3.
            resume-elim _ (require_new_sequence lease.sequence x) _ h3 λ _ v advanced h4.
              IsBegun-intro lease now s t u v after
                (require-ok permitted "input.permit_invalid" s first).1
                (require-ok (ltb now lease.expires_at) "input.lease_expired" t second)
                (change_session-Begins lease u x v changed advanced)
                (check_holds-state lease.desired_holds v h4)

  replace_holds-Replaces :
      (desired : BTreeSet) (sequence : ℕ) (s : LeaseExecutor) {after : LeaseExecutor}
      → replace_holds env desired sequence s ≡ (ok tt, after)
      → Replaces desired sequence s after
  unfolding replace_holds
  replace_holds-Replaces desired sequence s {after} h =
      resume-elim _ (call env (guardian_register_intent sequence desired) s) _ h
        λ _ t registered h1. resume-elim _ (press_lease env desired t) _ h1 λ _ u pressed h2.
          Replaces-intro desired sequence s t u after
            (call-ok env (guardian_register_intent sequence desired) s registered)
            (unfold press_lease in
              hold_difference-calls env t.held_actions desired
                (record t { held_actions = extend t.held_actions desired }) pressed)
            (call-ok env (guardian_commit_holds sequence desired)
              (record u { held_actions = desired; guarded_actions = [] }) h2)

  pub apply_lease_inner-IsApplied :
      (lease : InputLease) (permit : InputPermit) (now : ℕ) (s : LeaseExecutor)
      {after : LeaseExecutor}
      → apply_lease_inner env lease permit now s ≡ (ok tt, after)
      → IsApplied lease now s after
  unfolding apply_lease_inner
  apply_lease_inner-IsApplied lease permit now s {after} h =
      resume-elim _ (admit env lease permit now s) _ h λ _ t admitted h1.
        resume-elim _ (call env validate_before_input t) _ h1 λ _ u validated h2.
          resume-elim _ (next_guardian_sequence u) _ h2 λ sequence v numbered h3.
            resume-elim _ (replace_holds env lease.desired_holds sequence v) _ h3 λ _ w replaced h4.
              IsApplied-intro lease now sequence s t u v w after
                (admit-IsBegun lease permit now s admitted)
                (call-ok env validate_before_input t validated) (next-ok u numbered)
                (replace_holds-Replaces lease.desired_holds sequence v replaced) (ground arith)

  -- A lease that `apply_lease` accepts expires later than now and has a sequence above the last one
  -- of its session; it leaves the gate open and exactly what it asks for recorded as held. The calls
  -- made are a release of all input if the session changes, the platform's check, the intent at the
  -- Guardian, a release of each action that was held, unless the session changes, and is not asked
  -- for, a press of each action that is asked for and was not held, and the commitment of the holds,
  -- in that order.
  pub apply_lease-IsApplied :
      (lease : InputLease) (permit : InputPermit) (now : ℕ) (s after : LeaseExecutor)
      → apply_lease env lease permit now s ≡ (ok tt, after)
      → IsApplied lease now s after
  unfolding apply_lease
  apply_lease-IsApplied lease permit now s after h =
      apply_lease_inner-IsApplied lease permit now s
        (recovered env lease_failure_reason (apply_lease_inner env lease permit now s) h)
