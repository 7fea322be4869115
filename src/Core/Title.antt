-- ===== src/Core/Title.antt =====
-- crates/fairypam-agent-core/src/state.rs: the patterns for window titles, `wildcard_match`.
pub mod Glob
use fairypam_rust_agent.Base.{
  ℕ, suc, Bool, true, false, not, ◌&&◌, Option, none, some, List, [], ◌∷◌, Bytes, beq, is_empty,
  ◌==◌, if◌then◌else◌,
}

abbrev pub star : ℕ
star = b'*'

abbrev add_front : ℕ → List Bytes → List Bytes
add_front b [] = (b ∷ []) ∷ []
add_front b (part ∷ parts) = (b ∷ part) ∷ parts

-- `pattern.split('*')`: one part more than there are stars.
unfoldable pub split : Bytes → List Bytes
split [] = [] ∷ []
split (b ∷ bs) = let rest = split bs in if b == star then [] ∷ rest else add_front b rest

-- `value.strip_prefix(part)`.
unfoldable pub strip_prefix : Bytes → Bytes → Option Bytes
strip_prefix [] value = some value
strip_prefix (b ∷ bs) [] = none
strip_prefix (b ∷ bs) (c ∷ cs) = if b == c then strip_prefix bs cs else none

abbrev at_position : ℕ → Option Bytes → Option (ℕ × Bytes) → Option (ℕ × Bytes)
at_position n (some after) later = some (n, after)
at_position n none later = later

-- `remaining.find(part)`, the first position, with what stands after the part there.
unfoldable pub find_from : ℕ → Bytes → Bytes → Option (ℕ × Bytes)
unfolding strip_prefix
find_from n part [] = at_position n (strip_prefix part []) none
find_from n part (c ∷ cs) = at_position n (strip_prefix part (c ∷ cs)) (find_from (suc n) part cs)

abbrev starts_with_star : Bytes → Bool
starts_with_star [] = false
starts_with_star (b ∷ bs) = b == star

unfoldable pub ends_with_star : Bytes → Bool
ends_with_star [] = false
ends_with_star (b ∷ []) = b == star
ends_with_star (b ∷ c ∷ rest) = ends_with_star (c ∷ rest)

-- The loop over the parts; `none` where it returns false.
unfoldable pub walk : Bytes → ℕ → List Bytes → Bytes → Option Bytes
unfolding find_from
walk pattern' index [] remaining = some remaining
walk pattern' index (part ∷ parts) remaining = elim (is_empty part) [
  | true ↦ walk pattern' (suc index) parts remaining
  | false ↦ elim (find_from 0 part remaining) [
    | none ↦ none
    | some (position, after) ↦
        elim (index == 0 && (not (starts_with_star pattern') && not (position == 0))) [
          | true ↦ none
          | false ↦ walk pattern' (suc index) parts after
        ]
  ]
]

abbrev finish : Bytes → Option Bytes → Bool
finish pattern' none = false
finish pattern' (some remaining) = if ends_with_star pattern' then true else is_empty remaining

abbrev has_one_part : List Bytes → Bool
has_one_part (part ∷ []) = true
has_one_part _ = false

-- On the text after `to_lowercase`.
unfoldable pub wildcard_match_lowered : Bytes → Bytes → Bool
unfolding split walk ends_with_star
wildcard_match_lowered pattern' value =
    let parts = split pattern' in
    if has_one_part parts then beq pattern' value else finish pattern' (walk pattern' 0 parts value)

unfoldable pub wildcard_match : (Bytes → Bytes) → Bytes → Bytes → Bool
unfolding wildcard_match_lowered
wildcard_match to_lowercase pattern' value =
    wildcard_match_lowered (to_lowercase pattern') (to_lowercase value)
