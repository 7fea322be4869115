-- ===== src/Input/Action/Codes.antt =====
-- crates/fairypam-agent-input/src/action.rs: the scan codes that an emergency release names.
use fairypam_rust_agent.Base.{
  Some, ℕ, Bool, true, false, ◌||◌, ◌&&◌, Option, none, some, List, [], ◌∷◌, ◌≡◌, refl, arith, ◌==◌,
  any, ◌∙◌, ltb, ap, sym, Bool-cases, inl, inr, ◌⊎◌, ◌↔◌,
}
use fairypam_rust_agent.Input.Action.{ActionMap, ResolvedAction, hold_key, pulse_key}
use fairypam_rust_agent.Input.Action.Physical.{insert_code, code_of, all_scan_codes, insert_some}

abbrev pub names_code : ℕ → List ℕ → Bool
names_code a codes = any (λ b. a == b) codes

abbrev pub has_code : ℕ → Option ℕ → Bool
has_code a none = false
has_code a (some b) = a == b

abbrev pub ascends : List ℕ → Bool
ascends [] = true
ascends (a ∷ []) = true
ascends (a ∷ b ∷ rest) = ltb a b && ascends (b ∷ rest)

insert_code-names :
    (a b : ℕ) (codes : List ℕ) → names_code a (insert_code b codes) ≡ (a == b || names_code a codes)
unfolding insert_code
insert_code-names a b [] = refl
insert_code-names a b (c ∷ codes) = ground (arith, insert_code-names a b codes)

insert_code-ascends :
    (b : ℕ) (codes : List ℕ) → ascends codes ≡ true → ascends (insert_code b codes) ≡ true
unfolding insert_code
insert_code-ascends b [] h = refl
insert_code-ascends b (c ∷ []) h = ground arith
insert_code-ascends b (c ∷ d ∷ codes) h = ground (arith, insert_code-ascends b (d ∷ codes))

insert_some-names :
    (a : ℕ) (o : Option ℕ) (codes : List ℕ)
    → names_code a (insert_some o codes) ≡ (has_code a o || names_code a codes)
insert_some-names a none codes = refl
insert_some-names a (some code) codes = insert_code-names a code codes

insert_some-ascends :
    (o : Option ℕ) (codes : List ℕ) → ascends codes ≡ true → ascends (insert_some o codes) ≡ true
insert_some-ascends none codes h = h
insert_some-ascends (some code) codes h = insert_code-ascends code codes h

names :
    (a : ℕ) (actions : ActionMap)
    → names_code a (all_scan_codes actions) ≡ any (λ e. has_code a (code_of e.1)) actions
unfolding all_scan_codes
names a [] = refl
names a ((id, action) ∷ actions) =
    insert_some-names a (code_of action) (all_scan_codes actions)
    ∙ ap (λ b. has_code a (code_of action) || b) (names a actions)

sorted : (actions : ActionMap) → ascends (all_scan_codes actions) ≡ true
unfolding all_scan_codes
sorted [] = refl
sorted ((id, action) ∷ actions) =
    insert_some-ascends (code_of action) (all_scan_codes actions) (sorted actions)

-- An action holds or pulses the key with this scan code.
abbrev pub UsesKey : ℕ → ResolvedAction → Type 0
UsesKey a action =
    (extended : Bool) × ((action ≡ hold_key a extended) ⊎ (action ≡ pulse_key a extended))

code-UsesKey :
    (a : ℕ) (action : ResolvedAction) → has_code a (code_of action) ≡ true → UsesKey a action
code-UsesKey a (hold_key code extended) h =
    (extended, inl (ap (λ c. hold_key c extended) (ground (arith, h))))
code-UsesKey a (pulse_key code extended) h =
    (extended, inr (ap (λ c. pulse_key c extended) (ground (arith, h))))
code-UsesKey a _ h = absurd (cc)

UsesKey-code :
    (a : ℕ) (action : ResolvedAction) → UsesKey a action → has_code a (code_of action) ≡ true
UsesKey-code a action (extended, inl e) = rw e (ground arith)
UsesKey-code a action (extended, inr e) = rw e (ground arith)

any-Some :
    (a : ℕ) (actions : ActionMap)
    → any (λ e. has_code a (code_of e.1)) actions ≡ true
    → Some (λ e. UsesKey a e.1) actions
any-Some a [] h = absurd (cc)
any-Some a (e ∷ actions) h = elim (Bool-cases (has_code a (code_of e.1))) [
  | inl k ↦ inl (code-UsesKey a e.1 k)
  | inr k ↦ inr (any-Some a actions (ground (arith, h, k)))
]

Some-any :
    (a : ℕ) (actions : ActionMap)
    → Some (λ e. UsesKey a e.1) actions
    → any (λ e. has_code a (code_of e.1)) actions ≡ true
Some-any a [] k = absurd k
Some-any a (e ∷ actions) (inl k) = rw (UsesKey-code a e.1 k) refl
Some-any a (e ∷ actions) (inr k) = ground (arith, Some-any a actions k)

-- The scan codes that an emergency release names ascend without a repetition, and a scan code is
-- among them exactly when some action holds or pulses the key with it, extended or not.
pub all_scan_codes-names :
    (actions : ActionMap)
    → (ascends (all_scan_codes actions) ≡ true)
      × ((a : ℕ)
          → (names_code a (all_scan_codes actions) ≡ true) ↔ Some (λ e. UsesKey a e.1) actions)
all_scan_codes-names actions = (
  sorted actions,
  λ a. (
    λ h. any-Some a actions (sym (names a actions) ∙ h),
    λ k. names a actions ∙ Some-any a actions k,
  ),
)
