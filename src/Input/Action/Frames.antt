-- ===== src/Input/Action/Frames.antt =====
-- crates/fairypam-agent-input/src/action.rs: the actions of a physical frame.
use fairypam_rust_agent.Base.{
  Bool, true, false, ◌&&◌, Option, none, some, List, [], ◌∷◌, ◌≡◌, ◌≢◌, refl, arith,
}
use fairypam_rust_agent.Base.Sets.{BTreeSet, from_list}
use fairypam_rust_agent.Base.Result.{Result, ok, err, try_map}
use fairypam_rust_agent.Input.Action.{
  ActionMap, SafetyError, SemanticMouseButton, ResolvedAction, hold_key, pulse_key,
}
use fairypam_rust_agent.Input.Action.Physical.{
  Key, KeySearch, search_keys, search_entry, action_for_key, sort_keys, physical_frame_actions,
  action_for_button, sort_key,
}
use fairypam_rust_agent.Guardian.Protocol.{ActionId}

abbrev Found : Type 0
Found = Result SafetyError (ActionId × ResolvedAction)

abbrev Sorted : Type 0
Sorted = Option (Result SafetyError (BTreeSet × BTreeSet))

abbrev is_key : ResolvedAction → Bool
is_key (hold_key code extended) = true
is_key (pulse_key code extended) = true
is_key _ = false

abbrev is_key_or_none : Option (ActionId × ResolvedAction) → Bool
is_key_or_none none = true
is_key_or_none (some e) = is_key e.1

abbrev finds_keys : KeySearch → Bool
finds_keys s = is_key_or_none s.held && is_key_or_none s.pulsed

search_entry-finds :
    (key : Key) (s : KeySearch) (e : ActionId × ResolvedAction)
    → finds_keys s ≡ true
    → finds_keys (search_entry key s e) ≡ true
search_entry-finds key s e h = ground arith

search_keys-finds :
    (key : Key) (actions : ActionMap) (s : KeySearch)
    → finds_keys s ≡ true
    → finds_keys (search_keys key s actions) ≡ true
unfolding search_keys
search_keys-finds key [] s h = h
search_keys-finds key (e ∷ actions) s h =
    search_keys-finds key actions (search_entry key s e) (search_entry-finds key s e h)

action_for_key-is_key :
    (actions : ActionMap) (key : Key) {e : ActionId × ResolvedAction}
    → action_for_key actions key ≡ ok e
    → is_key e.1 ≡ true
unfolding action_for_key
action_for_key-is_key actions key h = ground (
  arith,
  search_keys-finds key actions (record { held = none; pulsed = none; pulse_ambiguous = false })
      refl,
)

by_search :
    (holds pulses : BTreeSet) (next : BTreeSet → BTreeSet → Sorted) (r : Found)
    → ((a b : BTreeSet) → next a b ≢ none)
    → ((e : ActionId × ResolvedAction) → r ≡ ok e → is_key e.1 ≡ true)
    → elim r [
      | err e ↦ some (err e)
      | ok entry ↦ elim (sort_key holds pulses entry) [
        | none ↦ none
        | some (holds', pulses') ↦ next holds' pulses'
      ]
    ]
      ≢ none
by_search holds pulses next (err e) later key h = cc
by_search holds pulses next (ok (id, hold_key code extended)) later key h = later _ _ h
by_search holds pulses next (ok (id, pulse_key code extended)) later key h = later _ _ h
by_search holds pulses next (ok (id, other)) later key h =
    let no_key = key (id, other) refl in absurd (ground arith)

sort_keys-ne-none :
    (actions : ActionMap) (holds pulses : BTreeSet) (keys : List Key)
    → sort_keys actions holds pulses keys ≢ none
unfolding sort_keys
sort_keys-ne-none actions holds pulses [] h = cc
sort_keys-ne-none actions holds pulses (key ∷ keys) h =
    by_search holds pulses (λ a b. sort_keys actions a b keys) (action_for_key actions key)
      (λ a b. sort_keys-ne-none actions a b keys) (λ e. action_for_key-is_key actions key) h

clicked-ne-none :
    (next : BTreeSet → Sorted) (r : Result SafetyError (List ActionId))
    → ((a : BTreeSet) → next a ≢ none)
    → elim r [ err e ↦ some (err e) | ok clicked ↦ next (from_list clicked) ] ≢ none
clicked-ne-none next (err e) later h = cc
clicked-ne-none next (ok clicked) later h = later _ h

-- The split of a frame's keys into holds and pulses never reaches the `unreachable!` behind the
-- search for a key.
pub physical_frame_actions-ne-none :
    (actions : ActionMap) (keys : List Key) (buttons : List SemanticMouseButton)
    → physical_frame_actions actions keys buttons ≢ none
unfolding physical_frame_actions
physical_frame_actions-ne-none actions keys buttons =
    clicked-ne-none (λ holds. sort_keys actions holds [] keys)
      (try_map (action_for_button actions) buttons) λ holds. sort_keys-ne-none actions holds [] keys
