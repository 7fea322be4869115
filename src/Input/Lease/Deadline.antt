-- ===== src/Input/Lease/Deadline.antt =====
-- crates/fairypam-agent-input/src/lease.rs: an open gate has a deadline.
use fairypam_rust_agent.Base.{
  ℕ, Bool, true, false, not, ◌&&◌, ◌||◌, List, [], ◌∷◌, ◌≡◌, arith, String, ltb,
}
use fairypam_rust_agent.Base.Result.{Result, ok, err}
use fairypam_rust_agent.Base.Sets.{BTreeSet, difference, extend}
use fairypam_rust_agent.Core.State.{SessionIdentity, is_some}
use fairypam_rust_agent.Guardian.Protocol.{ActionId, ReleaseReason}
use fairypam_rust_agent.Input.Action.{SafetyError, ResolvedAction}
use fairypam_rust_agent.Input.Lease.{
  Environment, Call, InputLease, LeaseExecutor, Failure, Method, fault, panic, resume, recover,
  lift, require, call, for_each, next_guardian_sequence, hold_action, validate_before_input,
  guardian_register_intent, guardian_commit_holds,
}
use fairypam_rust_agent.Input.Lease.Gate.{
  InputPermit, release_all, fail_closed, tick, permit_is_valid_for,
}
use fairypam_rust_agent.Input.Lease.Apply.{
  apply_lease, apply_lease_inner, admit, replace_holds, change_session, require_new_sequence,
  press_lease, apply_hold_difference, release_one, press_one, release_held, press_held, check_hold,
  lease_failure_reason,
}

-- While the gate is open there is a session and a deadline.
abbrev pub has_lease : LeaseExecutor → Bool
has_lease s = not s.input_gate_open || (is_some s.active_session && is_some s.expires_at)

abbrev pub Keeps : {A : Type 0} → Method A → Type 0
Keeps m = (s : LeaseExecutor) → has_lease s ≡ true → has_lease (m s).1 ≡ true

pub then-Keeps :
    {A B : Type 0} (r : Result Failure A × LeaseExecutor) (k : A → Method B)
    → has_lease r.1 ≡ true
    → ((a : A) → Keeps (k a))
    → has_lease (resume r k).1 ≡ true
then-Keeps (ok a, s) k h later = later a s h
then-Keeps (err e, s) k h later = h

pub recover-Keeps :
    {A : Type 0} (handler : SafetyError → Method A) (r : Result Failure A × LeaseExecutor)
    → has_lease r.1 ≡ true
    → ((e : SafetyError) → Keeps (handler e))
    → has_lease (recover handler r).1 ≡ true
recover-Keeps handler (ok a, s) h later = h
recover-Keeps handler (err (fault e), s) h later = later e s h
recover-Keeps handler (err panic, s) h later = h

pub require-Keeps : (b : Bool) (code : String) → Keeps (require b code)
require-Keeps true code s h = h
require-Keeps false code s h = h

pub lift-Keeps : {A : Type 0} (r : Result SafetyError A) → Keeps (lift r)
lift-Keeps (ok a) s h = h
lift-Keeps (err e) s h = h

pub next-Keeps : Keeps next_guardian_sequence
unfolding next_guardian_sequence
next-Keeps s h = ground arith

pub for_each-Keeps :
    {A : Type 0} (body : A → Method (Unit {0})) (list : List A)
    → ((a : A) → Keeps (body a))
    → Keeps (for_each body list)
unfolding for_each
for_each-Keeps body [] each s h = h
for_each-Keeps body (a ∷ list) each s h =
    then-Keeps (body a s) (λ _. for_each body list) (each a s h) λ _. for_each-Keeps body list each

module _ (env : Environment) where
  pub call-Keeps : (c : Call) → Keeps (call env c)
  unfolding call
  call-Keeps c s h = h

  pub release_all-Keeps : (reason : ReleaseReason) → Keeps (release_all env reason)
  unfolding release_all
  release_all-Keeps reason s h = ground arith

  pub fail_closed-Keeps :
      (A : Type 0) (reason : ReleaseReason) (e : SafetyError)
      → Keeps (fail_closed env {A = A} reason e)
  unfolding fail_closed release_all
  fail_closed-Keeps A reason e s h = ground arith

  pub change_session-Keeps : (session : SessionIdentity) → Keeps (change_session env session)
  unfolding change_session release_all
  change_session-Keeps session s h = ground arith

  release_held-Keeps : (action : ResolvedAction) → Keeps (release_held env action)
  unfolding call
  release_held-Keeps action s h = ground arith

  press_held-Keeps : (action : ResolvedAction) → Keeps (press_held env action)
  unfolding call
  press_held-Keeps action s h = ground arith

  hold_difference-Keeps :
      (previous desired : BTreeSet) → Keeps (apply_hold_difference env previous desired)
  unfolding apply_hold_difference
  hold_difference-Keeps previous desired s h =
      then-Keeps (for_each (release_one env) (difference previous desired) s) _
        (for_each-Keeps (release_one env) (difference previous desired)
          (λ action t k.
            unfold release_one in
            then-Keeps (lift (hold_action t.actions action) t) (release_held env)
              (lift-Keeps (hold_action t.actions action) t k) release_held-Keeps)
          s h)
        λ _. for_each-Keeps (press_one env) (difference desired previous) λ action t k.
          unfold press_one in
          then-Keeps (lift (hold_action t.actions action) t) (press_held env)
            (lift-Keeps (hold_action t.actions action) t k) press_held-Keeps

  press_lease-Keeps : (desired : BTreeSet) → Keeps (press_lease env desired)
  unfolding press_lease
  press_lease-Keeps desired s h =
      hold_difference-Keeps s.held_actions desired
        (record s { held_actions = extend s.held_actions desired }) h

  replace_holds-Keeps :
      (desired : BTreeSet) (sequence : ℕ) → Keeps (replace_holds env desired sequence)
  unfolding replace_holds
  replace_holds-Keeps desired sequence s h =
      then-Keeps (call env (guardian_register_intent sequence desired) s) _
        (call-Keeps (guardian_register_intent sequence desired) s h)
        λ _ t k. then-Keeps (press_lease env desired t) _ (press_lease-Keeps desired t k) λ _ u l.
          call-Keeps (guardian_commit_holds sequence desired)
            (record u { held_actions = desired; guarded_actions = [] }) l

  check_hold-Keeps : (action : ActionId) → Keeps (check_hold action)
  unfolding check_hold
  check_hold-Keeps action s h =
      then-Keeps (lift (hold_action s.actions action) s) _
        (lift-Keeps (hold_action s.actions action) s h) λ _ t k. k

  admit-Keeps :
      (lease : InputLease) (permit : InputPermit) (now : ℕ) → Keeps (admit env lease permit now)
  unfolding admit
  admit-Keeps lease permit now s h =
      let permitted = permit_is_valid_for permit now lease.session in
      then-Keeps (require permitted "input.permit_invalid" s) _
        (require-Keeps permitted "input.permit_invalid" s h)
        λ _ t k.
          then-Keeps (require (ltb now lease.expires_at) "input.lease_expired" t) _
            (require-Keeps (ltb now lease.expires_at) "input.lease_expired" t k)
            λ _ u l.
              then-Keeps (change_session env lease.session u) _
                (change_session-Keeps lease.session u l)
                λ _ v m.
                  then-Keeps (require_new_sequence lease.sequence v) _
                    (unfold require_new_sequence in require-Keeps _ "input.sequence_invalid" v m)
                    λ _. for_each-Keeps check_hold lease.desired_holds check_hold-Keeps

  pub apply_lease-Keeps :
      (lease : InputLease) (permit : InputPermit) (now : ℕ)
      → Keeps (apply_lease env lease permit now)
  unfolding apply_lease apply_lease_inner
  apply_lease-Keeps lease permit now s h =
      recover-Keeps (λ e. fail_closed env (lease_failure_reason e) e)
        (apply_lease_inner env lease permit now s)
        (then-Keeps (admit env lease permit now s) _ (admit-Keeps lease permit now s h) λ _ t k.
          then-Keeps (call env validate_before_input t) _ (call-Keeps validate_before_input t k)
            λ _ u l. then-Keeps (next_guardian_sequence u) _ (next-Keeps u l) λ sequence v m.
              then-Keeps (replace_holds env lease.desired_holds sequence v) _
                (replace_holds-Keeps lease.desired_holds sequence v m) λ _ w n. ground arith)
        λ e. fail_closed-Keeps (Unit {0}) (lease_failure_reason e) e

  pub tick-Keeps : (now : ℕ) → Keeps (tick env now)
  unfolding tick release_all call
  tick-Keeps now s h = ground arith
