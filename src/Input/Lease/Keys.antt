-- ===== src/Input/Lease/Keys.antt =====
-- crates/fairypam-agent-input/src/lease.rs: the keys that a change of the holds presses and releases.
use fairypam_rust_agent.Base.{
  Option, none, some, List, [], ◌∷◌, ◌++◌, ◌≡◌, ◌∙◌, refl, sym, arith, subst,
}
use fairypam_rust_agent.Base.Result.{Result, ok, err, ok_or}
use fairypam_rust_agent.Base.Sets.{BTreeSet, difference, get}
use fairypam_rust_agent.Guardian.Protocol.{ActionId}
use fairypam_rust_agent.Input.Action.{
  SafetyError, ResolvedAction, ActionMap, resolve, hold_key, pulse_key, client_point_click,
}
use fairypam_rust_agent.Input.Lease.{
  Environment, Call, LeaseExecutor, Failure, Method, resume, press_key, release_key,
  press_mouse_button, release_mouse_button, call, for_each, hold_action, only_held, lift,
}
use fairypam_rust_agent.Input.Lease.Apply.{
  release_held, press_held, release_one, press_one, apply_hold_difference, check_hold,
}

pub resume-ok :
    {A B : Type 0} (r : Result Failure A × LeaseExecutor) (k : A → Method B) {b : B}
    {after : LeaseExecutor}
    → resume r k ≡ (ok b, after)
    → (a : A) × (s : LeaseExecutor) × (r ≡ (ok a, s)) × (k a s ≡ (ok b, after))
resume-ok (ok a, s) k h = (a, s, refl, h)
resume-ok (err e, s) k h = absurd (ground arith)

pub resume-elim :
    {A B : Type 0} (P : Type 0) (r : Result Failure A × LeaseExecutor) (k : A → Method B) {b : B}
    {after : LeaseExecutor}
    → resume r k ≡ (ok b, after)
    → ((a : A) (s : LeaseExecutor) → r ≡ (ok a, s) → k a s ≡ (ok b, after) → P)
    → P
resume-elim P (ok a, s) k h f = f a s refl h
resume-elim P (err e, s) k h f = absurd (ground arith)

-- The call that presses what an action holds, and the one that releases it.
abbrev pub pressing : ResolvedAction → List Call
pressing (hold_key code extended) = press_key code extended ∷ []
pressing (pulse_key code extended) = press_key code extended ∷ []
pressing (client_point_click button) = press_mouse_button button ∷ []
pressing _ = []

abbrev pub releasing : ResolvedAction → List Call
releasing (hold_key code extended) = release_key code extended ∷ []
releasing (pulse_key code extended) = release_key code extended ∷ []
releasing (client_point_click button) = release_mouse_button button ∷ []
releasing _ = []

abbrev of_named : (ResolvedAction → List Call) → Option ResolvedAction → List Call
of_named f none = []
of_named f (some action) = f action

-- The calls for some actions in their order, over the calls made before; newest first.
abbrev pub calls_for :
    (ResolvedAction → List Call) → ActionMap → List ActionId → List Call → List Call
calls_for f actions [] past = past
calls_for f actions (id ∷ ids) past = calls_for f actions ids (of_named f (get id actions) ++ past)

-- All that happened between two states is that those calls were made.
abbrev Calls : (ResolvedAction → List Call) → List ActionId → LeaseExecutor → LeaseExecutor → Type 0
Calls f ids before after =
    after ≡ record before { calls = calls_for f before.actions ids before.calls }

only_held-some :
    (o : Option ResolvedAction) (e : SafetyError) {action : ResolvedAction}
    → only_held (ok_or o e) ≡ ok action
    → o ≡ some action
only_held-some none e h = absurd (cc)
only_held-some (some (hold_key code extended)) e h = cc
only_held-some (some (pulse_key code extended)) e h = cc
only_held-some (some (client_point_click button)) e h = cc
only_held-some (some _) e h = absurd (cc)

hold_action-get :
    (actions : ActionMap) (id : ActionId) {action : ResolvedAction}
    → hold_action actions id ≡ ok action
    → get id actions ≡ some action
unfolding hold_action resolve
hold_action-get actions id h = only_held-some (get id actions) _ h

module _ (env : Environment) where
  release_held-calls :
      (action : ResolvedAction) (s : LeaseExecutor) {after : LeaseExecutor}
      → release_held env action s ≡ (ok tt, after)
      → after ≡ record s { calls = releasing action ++ s.calls }
  unfolding call
  release_held-calls (hold_key code extended) s h = ground arith
  release_held-calls (pulse_key code extended) s h = ground arith
  release_held-calls (client_point_click button) s h = ground arith
  release_held-calls _ s h = absurd (ground arith)

  press_held-calls :
      (action : ResolvedAction) (s : LeaseExecutor) {after : LeaseExecutor}
      → press_held env action s ≡ (ok tt, after)
      → after ≡ record s { calls = pressing action ++ s.calls }
  unfolding call
  press_held-calls (hold_key code extended) s h = ground arith
  press_held-calls (pulse_key code extended) s h = ground arith
  press_held-calls (client_point_click button) s h = ground arith
  press_held-calls _ s h = absurd (ground arith)

  module _ (f : ResolvedAction → List Call) (body : ResolvedAction → Method (Unit {0}))
      (each : (action : ResolvedAction) (s after : LeaseExecutor)
        → body action s ≡ (ok tt, after)
        → after ≡ record s { calls = f action ++ s.calls }) where
    one-Calls :
        (r : Result SafetyError ResolvedAction) (id : ActionId) (s : LeaseExecutor)
        {after : LeaseExecutor}
        → hold_action s.actions id ≡ r
        → resume (lift r s) body ≡ (ok tt, after)
        → after ≡ record s { calls = of_named f (get id s.actions) ++ s.calls }
    one-Calls (ok action) id s e h = rw (hold_action-get s.actions id e) (each action s _ h)
    one-Calls (err x) id s e h = absurd (ground arith)

    for_each-Calls :
        (step : ActionId → Method (Unit {0}))
        → ((id : ActionId) (s : LeaseExecutor)
            → step id s ≡ resume (lift (hold_action s.actions id) s) body)
        → (ids : List ActionId) (s : LeaseExecutor) {after : LeaseExecutor}
        → for_each step ids s ≡ (ok tt, after)
        → Calls f ids s after
    unfolding for_each
    for_each-Calls step same [] s h = ground arith
    for_each-Calls step same (id ∷ ids) s {after} h =
        let (_, t, first, rest) = resume-ok (step id s) _ h in
        let one = one-Calls (hold_action s.actions id) id s refl (sym (same id s) ∙ first) in
        subst (λ x. Calls f ids x after) one (for_each-Calls step same ids t rest)

  -- A change of the holds releases what is held and not desired, and then presses what is desired
  -- and not held.
  pub hold_difference-calls :
      (previous desired : BTreeSet) (s : LeaseExecutor) {after : LeaseExecutor}
      → apply_hold_difference env previous desired s ≡ (ok tt, after)
      → after ≡ record s {
        calls =
            calls_for pressing s.actions
              (difference desired previous)
              (calls_for releasing s.actions (difference previous desired) s.calls);
      }
  unfolding apply_hold_difference
  hold_difference-calls previous desired s {after} h =
      let (_, t, released, pressed) =
        resume-ok (for_each (release_one env) (difference previous desired) s) _ h in
      subst (λ x. Calls pressing (difference desired previous) x after)
        (for_each-Calls releasing (release_held env) (λ action u v. release_held-calls action u)
          (release_one env) (λ id u. unfold release_one in refl) (difference previous desired) s
          released)
        (for_each-Calls pressing (press_held env) (λ action u v. press_held-calls action u)
          (press_one env) (λ id u. unfold press_one in refl) (difference desired previous) t
          pressed)

pub only_checked :
    (r : Result SafetyError ResolvedAction) (s : LeaseExecutor) {after : LeaseExecutor}
    → resume (lift r s) (λ _ t. (ok tt, t)) ≡ (ok tt, after)
    → after ≡ s
only_checked (ok a) s h = ground arith
only_checked (err e) s h = absurd (ground arith)

pub check_holds-state :
    (actions : List ActionId) (s : LeaseExecutor) {after : LeaseExecutor}
    → for_each check_hold actions s ≡ (ok tt, after)
    → after ≡ s
unfolding for_each
check_holds-state [] s h = ground arith
check_holds-state (action ∷ actions) s h =
    let (_, t, first, rest) = resume-ok (check_hold action s) _ h in
    check_holds-state actions t rest
    ∙ (unfold check_hold in only_checked (hold_action s.actions action) s first)
