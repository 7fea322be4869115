-- ===== src/Input/Lease/Kept.antt =====
-- crates/fairypam-agent-input/src/lease.rs: an open gate has a deadline, of each method.
use fairypam_rust_agent.Base.{
  ℕ, Bool, true, false, ◌&&◌, ◌-◌, Option, none, some, List, [], ◌∷◌, ◌++◌, refl, arith, leb, ltb,
}
use fairypam_rust_agent.Base.Int.{ℤ}
use fairypam_rust_agent.Base.Sets.{BTreeSet, difference, is_subset}
use fairypam_rust_agent.Core.State.{SessionIdentity}
use fairypam_rust_agent.Guardian.Protocol.{ActionId, platform_failure}
use fairypam_rust_agent.Input.Action.{ResolvedAction, resolve}
use fairypam_rust_agent.Input.Action.Physical.{Key, physical_actions}
use fairypam_rust_agent.Input.Lease.{
  Environment, lift, require, call, next_guardian_sequence, validate_before_input, hold_action,
  guardian_register_intent, guardian_commit_holds, guardian_heartbeat, ◌>>=◌, ◌>>◌, modify,
  clicked_client_point,
}
use fairypam_rust_agent.Input.Lease.Gate.{
  InputPermit, fail_closed, require_open_gate, require_guarded_gate, permit_is_valid_for,
}
use fairypam_rust_agent.Input.Lease.Apply.{change_session}
use fairypam_rust_agent.Input.Lease.Guarded.{
  arm_guarded_physical_frame_inner, renew_guarded_inner, apply_guarded_inner, transitions_of,
  send_transitions, is_fresh_gate, are_hold_keys, transition,
}
use fairypam_rust_agent.Input.Lease.Pulse.{
  execute_pulse, execute_pulse_inner, execute_relative_mouse_inner, execute_client_point_inner,
  guard_holds, pulse_resolved, move_resolved, lease_end, click_button, client_point_click_hold,
}
use fairypam_rust_agent.Input.Lease.Deadline.{
  Keeps, then-Keeps, recover-Keeps, require-Keeps, lift-Keeps, next-Keeps, call-Keeps,
  fail_closed-Keeps, change_session-Keeps,
}

open_gate-Keeps :
    (session : SessionIdentity) (permit : InputPermit) (now : ℕ)
    → Keeps (require_open_gate session permit now)
unfolding require_open_gate
open_gate-Keeps session permit now s h = ground arith

guarded_gate-Keeps :
    (session : SessionIdentity) (permit : InputPermit) (now : ℕ)
    → Keeps (require_guarded_gate session permit now)
unfolding require_guarded_gate require_open_gate
guarded_gate-Keeps session permit now s h = ground arith

module _ (env : Environment) (permit : InputPermit) (now : ℕ) where
  pub arm_inner-Keeps :
      (session : SessionIdentity) (sequence expires_at : ℕ) (keys : List Key)
      → Keeps (arm_guarded_physical_frame_inner env session sequence expires_at keys permit now)
  unfolding arm_guarded_physical_frame_inner
  arm_inner-Keeps session sequence expires_at keys s h =
      let allowed = permit_is_valid_for permit now session && ltb now expires_at in
      then-Keeps (require allowed "input.permit_invalid" s) _ (require-Keeps allowed _ s h) λ _ t k.
        then-Keeps (change_session env session t) _ (change_session-Keeps env session t k) λ _ u l.
          then-Keeps (require (is_fresh_gate sequence u) "input.sequence_invalid" u) _
            (require-Keeps (is_fresh_gate sequence u) _ u l)
            λ _ v m.
              then-Keeps (lift (physical_actions v.actions keys []) v) _
                (lift-Keeps (physical_actions v.actions keys []) v m)
                λ guarded w n. guard_all guarded w n
    where
      guard_all :
          (guarded : BTreeSet)
          → Keeps (
              (λ w. require (are_hold_keys w.actions guarded) "input.action_kind_invalid" w)
              >> (call env validate_before_input
                  >> (next_guardian_sequence >>= λ n.
                      (call env (guardian_register_intent n guarded)
                        >> (call env (guardian_commit_holds n guarded)
                            >> modify (λ s. record s {
                              active_session = some session;
                              sequence = sequence;
                              guardian_sequence = n;
                              expires_at = some expires_at;
                              held_actions = [];
                              guarded_actions = guarded;
                              input_gate_open = true;
                            }))))))
      guard_all guarded w n =
          then-Keeps (require (are_hold_keys w.actions guarded) "input.action_kind_invalid" w) _
            (require-Keeps (are_hold_keys w.actions guarded) _ w n)
            λ _ a p.
              then-Keeps (call env validate_before_input a) _
                (call-Keeps env validate_before_input a p)
                λ _ b q. then-Keeps (next_guardian_sequence b) _ (next-Keeps b q) λ number c r.
                  then-Keeps (call env (guardian_register_intent number guarded) c) _
                    (call-Keeps env (guardian_register_intent number guarded) c r)
                    λ _ d t.
                      then-Keeps (call env (guardian_commit_holds number guarded) d) _
                        (call-Keeps env (guardian_commit_holds number guarded) d t) λ _ e z. refl

  pub renew_inner-Keeps :
      (session : SessionIdentity) (sequence expires_at : ℕ)
      → Keeps (renew_guarded_inner env session sequence expires_at permit now)
  unfolding renew_guarded_inner
  renew_inner-Keeps session sequence expires_at s h =
      then-Keeps (require_guarded_gate session permit now s) _
        (guarded_gate-Keeps session permit now s h)
        λ _ t k.
          then-Keeps
            (require (ltb t.sequence sequence && ltb now expires_at) "input.sequence_invalid" t) _
            (require-Keeps (ltb t.sequence sequence && ltb now expires_at) _ t k)
            λ _ u l.
              then-Keeps (call env (guardian_heartbeat u.guardian_sequence) u) _
                (call-Keeps env (guardian_heartbeat u.guardian_sequence) u l) λ _ v m. ground arith

  transition-Keeps : (pressed : Bool) (action : ResolvedAction) → Keeps (transition pressed action)
  transition-Keeps pressed action s h = ground arith

  transitions-Keeps :
      (pressed : Bool) (actions : List ActionId) → Keeps (transitions_of pressed actions)
  unfolding transitions_of
  transitions-Keeps pressed [] s h = h
  transitions-Keeps pressed (action ∷ actions) s h =
      then-Keeps ((lift (hold_action s.actions action) >>= transition pressed) s) _
        (then-Keeps (lift (hold_action s.actions action) s) (transition pressed)
          (lift-Keeps (hold_action s.actions action) s h) (transition-Keeps pressed))
        λ _ t k.
          then-Keeps (transitions_of pressed actions t) _ (transitions-Keeps pressed actions t k)
            λ _ u l. l

  send_transitions-Keeps :
      (transitions : List (ℕ × Bool × Bool)) → Keeps (send_transitions env transitions)
  unfolding send_transitions call
  send_transitions-Keeps [] s h = h
  send_transitions-Keeps (t ∷ ts) s h = h

  pub guarded_inner-Keeps :
      (session : SessionIdentity) (keys : List Key)
      → Keeps (apply_guarded_inner env session keys permit now)
  unfolding apply_guarded_inner
  guarded_inner-Keeps session keys s h =
      then-Keeps (require_guarded_gate session permit now s) _
        (guarded_gate-Keeps session permit now s h)
        λ _ t k.
          then-Keeps (lift (physical_actions t.actions keys []) t) _
            (lift-Keeps (physical_actions t.actions keys []) t k)
            λ desired u l.
              then-Keeps
                (require (is_subset desired u.guarded_actions) "input.action_not_guarded" u) _
                (require-Keeps (is_subset desired u.guarded_actions) _ u l)
                λ _ v m.
                  then-Keeps (transitions_of false (difference v.held_actions desired) v) _
                    (transitions-Keeps false (difference v.held_actions desired) v m)
                    λ ups w n.
                      then-Keeps (transitions_of true (difference desired w.held_actions) w) _
                        (transitions-Keeps true (difference desired w.held_actions) w n)
                        λ downs x o.
                          then-Keeps (send_transitions env (ups ++ downs) x) _
                            (send_transitions-Keeps (ups ++ downs) x o) λ _ y q. q

  pulse_inner-Keeps :
      (action : ActionId) (session : SessionIdentity)
      → Keeps (execute_pulse_inner env action session permit now)
  unfolding execute_pulse_inner call
  pulse_inner-Keeps action session s h =
      then-Keeps (require_open_gate session permit now s) _ (open_gate-Keeps session permit now s h)
        λ _ t k.
          then-Keeps (lift (resolve t.actions action) t) (pulse_resolved env)
            (lift-Keeps (resolve t.actions action) t k) λ action u l. ground arith

  pub pulse-Keeps :
      (action : ActionId) (session : SessionIdentity)
      → Keeps (execute_pulse env action session permit now)
  unfolding execute_pulse
  pulse-Keeps action session s h =
      recover-Keeps (fail_closed env platform_failure)
        (execute_pulse_inner env action session permit now s) (pulse_inner-Keeps action session s h)
        (fail_closed-Keeps env (Unit {0}) platform_failure)

  pub move_inner-Keeps :
      (action : ActionId) (x y : ℤ) (session : SessionIdentity)
      → Keeps (execute_relative_mouse_inner env action x y session permit now)
  unfolding execute_relative_mouse_inner call
  move_inner-Keeps action x y session s h =
      then-Keeps (require_open_gate session permit now s) _ (open_gate-Keeps session permit now s h)
        λ _ t k.
          then-Keeps (lift (resolve t.actions action) t) (move_resolved env x y)
            (lift-Keeps (resolve t.actions action) t k) λ action u l. ground arith

  guard_holds-Keeps : (holds : BTreeSet) → Keeps (guard_holds env holds)
  unfolding guard_holds
  guard_holds-Keeps holds s h = then-Keeps (next_guardian_sequence s) _ (next-Keeps s h) λ n t k.
      then-Keeps (call env (guardian_register_intent n holds) t) _
        (call-Keeps env (guardian_register_intent n holds) t k)
        λ _ u l.
          then-Keeps (call env (guardian_commit_holds n holds) u) _
            (call-Keeps env (guardian_commit_holds n holds) u l) λ _ v m. m

  lease_end-Keeps : (o : Option ℕ) → Keeps (lease_end env o)
  lease_end-Keeps none s h = h
  lease_end-Keeps (some expires_at) s h = h

  click_button-Keeps : (action : ResolvedAction) → Keeps (click_button env action)
  click_button-Keeps action s h = ground arith

  pub click_inner-Keeps :
      (action : ActionId) (x y : ℕ) (session : SessionIdentity)
      → Keeps (execute_client_point_inner env action x y session permit now)
  unfolding execute_client_point_inner
  click_inner-Keeps action x y session s h =
      then-Keeps (require_open_gate session permit now s) _ (open_gate-Keeps session permit now s h)
        λ _ t k.
          then-Keeps (lease_end env t.expires_at t) _ (lease_end-Keeps t.expires_at t k)
            λ expires_at u l.
              then-Keeps
                (require (leb client_point_click_hold (expires_at - now)) "input.lease_expired" u) _
                (require-Keeps (leb client_point_click_hold (expires_at - now)) _ u l)
                λ _ v m.
                  then-Keeps
                    (require (leb x 1_000_000 && leb y 1_000_000) "input.client_point_invalid" v) _
                    (require-Keeps (leb x 1_000_000 && leb y 1_000_000) _ v m)
                    (clicks_at expires_at)
    where
      clicks_at :
          (expires_at : ℕ)
          → (a : Unit {0})
          → Keeps (
              (λ t. lift (resolve t.actions action) t) >>= λ resolved.
              click_button env resolved >>= λ button.
              guard_holds env (action ∷ [])
              >> (call env (clicked_client_point button x y expires_at) >> guard_holds env []))
      clicks_at expires_at _ v m =
          then-Keeps (lift (resolve v.actions action) v) _
            (lift-Keeps (resolve v.actions action) v m)
            λ resolved w n.
              then-Keeps (click_button env resolved w) _ (click_button-Keeps resolved w n)
                λ button a o.
                  then-Keeps (guard_holds env (action ∷ []) a) _
                    (guard_holds-Keeps (action ∷ []) a o)
                    λ _ b p.
                      then-Keeps (call env (clicked_client_point button x y expires_at) b) _
                        (call-Keeps env (clicked_client_point button x y expires_at) b p)
                        λ _. guard_holds-Keeps []
