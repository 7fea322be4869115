-- ===== src/Input/Action/Physical.antt =====
-- crates/fairypam-agent-input/src/action.rs: from physical keys and buttons to actions and back.
use fairypam_rust_agent.Base.{
  ℕ, Bool, true, false, ◌&&◌, ◌||◌, Option, none, some, List, [], ◌∷◌, ◌++◌, ◌==◌, if◌then◌else◌,
  Ordering, compare,
}
use fairypam_rust_agent.Base.Int.{ℤ}
use fairypam_rust_agent.Base.Sets.{BTreeSet, insert, from_list}
use fairypam_rust_agent.Base.Result.{Result, ok, err, ok_or, try_map, ◌>>=◌}
use fairypam_rust_agent.Core.State.{is_some}
use fairypam_rust_agent.Guardian.Protocol.{
  ActionId, PhysicalHold, MouseButton, scan_code, mouse_button,
}
use fairypam_rust_agent.Input.Action.{
  SafetyError, SemanticMouseButton, ResolvedAction, ActionMap, safety_error, left, right, middle,
  x1, x2, hold_key, pulse_key, wheel, client_point_click,
}

-- A key is a scan code and whether it is extended.
abbrev pub Key : Type 0
Key = ℕ × Bool

abbrev bool_eq : Bool → Bool → Bool
bool_eq true b = b
bool_eq false true = false
bool_eq false false = true

abbrev pub key_eq : Key → Key → Bool
key_eq (code, extended) (code', extended') = code == code' && bool_eq extended extended'

-- The variables of the loop in `action_for_key`.
pub record KeySearch : Type 0 where
  pub held : Option (ActionId × ResolvedAction)
  pub pulsed : Option (ActionId × ResolvedAction)
  pub pulse_ambiguous : Bool

abbrev get_or_insert {ℓ} : {A : Type ℓ} → Option A → A → Option A
get_or_insert none a = some a
get_or_insert (some b) a = some b

abbrev pub search_entry : Key → KeySearch → ActionId × ResolvedAction → KeySearch
search_entry key s (id, hold_key code extended) =
    if key_eq (code, extended) key
    then record s { held = get_or_insert s.held (id, hold_key code extended) }
    else s
search_entry key s (id, pulse_key code extended) =
    if key_eq (code, extended) key
    then record s {
      pulsed = some (id, pulse_key code extended);
      pulse_ambiguous = s.pulse_ambiguous || is_some s.pulsed;
    }
    else s
search_entry key s _ = s

unfoldable pub search_keys : Key → KeySearch → ActionMap → KeySearch
search_keys key s [] = s
search_keys key s (entry ∷ actions) = search_keys key (search_entry key s entry) actions

abbrev or_else {ℓ} : {A : Type ℓ} → Option A → Option A → Option A
or_else none b = b
or_else (some a) b = some a

unfoldable pub action_for_key : ActionMap → Key → Result SafetyError (ActionId × ResolvedAction)
unfolding search_keys
action_for_key actions key =
    let s =
      search_keys key (record { held = none; pulsed = none; pulse_ambiguous = false }) actions in
    if s.pulse_ambiguous || (is_some s.held && is_some s.pulsed)
    then err (safety_error "input.frame_invalid")
    else ok_or (or_else s.held s.pulsed) (safety_error "input.key_not_allowed")

abbrev button_number : SemanticMouseButton → ℕ
button_number left = 0
button_number right = 1
button_number middle = 2
button_number x1 = 3
button_number x2 = 4

abbrev pub button_eq : SemanticMouseButton → SemanticMouseButton → Bool
button_eq a b = button_number a == button_number b

-- The first action whose button it is.
abbrev pub first_for_button : SemanticMouseButton → ActionMap → Option ActionId
first_for_button button [] = none
first_for_button button ((id, client_point_click allowed) ∷ actions) =
    if button_eq allowed button then some id else first_for_button button actions
first_for_button button ((id, _) ∷ actions) = first_for_button button actions

unfoldable pub action_for_button : ActionMap → SemanticMouseButton → Result SafetyError ActionId
action_for_button actions button =
    ok_or (first_for_button button actions) (safety_error "input.mouse_button_not_allowed")

unfoldable pub physical_action : ActionMap → Key → Result SafetyError ActionId
physical_action actions key = elim (action_for_key actions key) [
  | ok (id, hold_key code extended) ↦ ok id
  | ok _ ↦ err (safety_error "input.action_kind_invalid")
  | err e ↦ err e
]

unfoldable pub physical_actions :
    ActionMap → List Key → List SemanticMouseButton → Result SafetyError BTreeSet
physical_actions actions keys buttons = do
  held ← try_map (physical_action actions) keys
  clicked ← try_map (action_for_button actions) buttons
  ok (from_list (held ++ clicked))

-- `none` is the `unreachable!` behind the key resolver.
abbrev pub sort_key : BTreeSet → BTreeSet → ActionId × ResolvedAction → Option (BTreeSet × BTreeSet)
sort_key holds pulses (id, hold_key code extended) = some (insert id holds, pulses)
sort_key holds pulses (id, pulse_key code extended) = some (holds, insert id pulses)
sort_key holds pulses _ = none

unfoldable pub sort_keys :
    ActionMap → BTreeSet → BTreeSet → List Key → Option (Result SafetyError (BTreeSet × BTreeSet))
sort_keys actions holds pulses [] = some (ok (holds, pulses))
sort_keys actions holds pulses (key ∷ keys) = elim (action_for_key actions key) [
  | err e ↦ some (err e)
  | ok entry ↦ elim (sort_key holds pulses entry) [
    | none ↦ none
    | some (holds', pulses') ↦ sort_keys actions holds' pulses' keys
  ]
]

unfoldable pub physical_frame_actions :
    ActionMap
    → List Key
    → List SemanticMouseButton
    → Option (Result SafetyError (BTreeSet × BTreeSet))
unfolding sort_keys
physical_frame_actions actions keys buttons = elim (try_map (action_for_button actions) buttons) [
  | err e ↦ some (err e)
  | ok clicked ↦ sort_keys actions (from_list clicked) [] keys
]

abbrev pub wheel_limit : ActionMap → Option ℤ
wheel_limit [] = none
wheel_limit ((id, wheel maximum_delta) ∷ actions) = some maximum_delta
wheel_limit ((id, _) ∷ actions) = wheel_limit actions

abbrev guardian_button : SemanticMouseButton → MouseButton
guardian_button left = MouseButton.left
guardian_button right = MouseButton.right
guardian_button middle = MouseButton.middle
guardian_button x1 = MouseButton.x1
guardian_button x2 = MouseButton.x2

abbrev pub physical_hold : ActionId → ResolvedAction → Option PhysicalHold
physical_hold id (hold_key code extended) = some (scan_code id code extended)
physical_hold id (pulse_key code extended) = some (scan_code id code extended)
physical_hold id (client_point_click button) = some (mouse_button id (guardian_button button))
physical_hold id _ = none

-- The keys stay in their order, so this is the `BTreeMap`.
unfoldable pub physical_holds : ActionMap → List (ActionId × PhysicalHold)
physical_holds [] = []
physical_holds ((id, action) ∷ actions) = elim (physical_hold id action) [
  | none ↦ physical_holds actions
  | some held ↦ (id, held) ∷ physical_holds actions
]

-- A `BTreeSet<u16>`.
unfoldable pub insert_code : ℕ → List ℕ → List ℕ
insert_code a [] = a ∷ []
insert_code a (b ∷ bs) = elim (compare a b) [
  | Ordering.lt ↦ a ∷ b ∷ bs
  | Ordering.eq ↦ b ∷ bs
  | Ordering.gt ↦ b ∷ insert_code a bs
]

abbrev pub code_of : ResolvedAction → Option ℕ
code_of (hold_key code extended) = some code
code_of (pulse_key code extended) = some code
code_of _ = none

abbrev pub insert_some : Option ℕ → List ℕ → List ℕ
insert_some none codes = codes
insert_some (some code) codes = insert_code code codes

unfoldable pub all_scan_codes : ActionMap → List ℕ
unfolding insert_code
all_scan_codes [] = []
all_scan_codes ((id, action) ∷ actions) = insert_some (code_of action) (all_scan_codes actions)
