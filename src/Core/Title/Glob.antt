-- ===== src/Core/Title/Glob.antt =====
-- What a title pattern means, and how far `wildcard_match` of
-- crates/fairypam-agent-core/src/state.rs decides it.
use fairypam_rust_agent.Base.{
  ℕ, suc, List, [], ◌∷◌, ◌++◌, ◌≡◌, ◌≢◌, refl, sym, ap, subst, subst₂, Bool, true, false, some, ◌⊎◌,
  inl, inr, Bytes, beq_iff, is_empty, arith, length, ◌+◌, if◌then◌else◌, Option-cases, ◌==◌,
}
use fairypam_rust_agent.Core.Title.{
  wildcard_match, wildcard_match_lowered, star, split, strip_prefix, find_from, walk,
  ends_with_star, add_front, finish,
}

-- A star matches any bytes, none too, and each other byte itself.
pub data Matches : Bytes → Bytes → Type 0 where
  end : Matches [] []
  byte : (b : ℕ) {p v : Bytes} → Matches p v → Matches (b ∷ p) (b ∷ v)
  skip : {b : ℕ} {p v : Bytes} → b ≡ star → Matches p v → Matches (b ∷ p) v
  more : {b : ℕ} (c : ℕ) {p v : Bytes} → b ≡ star → Matches (b ∷ p) v → Matches (b ∷ p) (c ∷ v)

-- The pattern of the parts behind the first, each behind its star.
starred : List Bytes → Bytes
starred [] = []
starred (part ∷ parts) = star ∷ part ++ starred parts

abbrev last_is_empty : List Bytes → Bool
last_is_empty [] = false
last_is_empty (part ∷ []) = is_empty part
last_is_empty (part ∷ next ∷ parts) = last_is_empty (next ∷ parts)

Matches-self : (v : Bytes) → Matches v v
Matches-self [] = end
Matches-self (b ∷ v) = byte b (Matches-self v)

Matches-append : (w : Bytes) {p v : Bytes} → Matches p v → Matches (w ++ p) (w ++ v)
Matches-append [] m = m
Matches-append (b ∷ w) m = byte b (Matches-append w m)

star_any : (v : Bytes) → Matches (star ∷ []) v
star_any [] = skip refl end
star_any (c ∷ v) = more c refl (star_any v)

star_before : (u : Bytes) {p v : Bytes} → Matches p v → Matches (star ∷ p) (u ++ v)
star_before [] m = skip refl m
star_before (c ∷ u) m = more c refl (star_before u m)

-- The first part of a pattern, and the parts behind it.
first_part : List Bytes → Bytes
first_part [] = []
first_part (part ∷ parts) = part

rest_parts : List Bytes → List Bytes
rest_parts [] = []
rest_parts (part ∷ parts) = parts

split-join : (p : Bytes) → first_part (split p) ++ starred (rest_parts (split p)) ≡ p
unfolding split starred first_part rest_parts
split-join [] = refl
split-join (b ∷ p) = ground (arith, split-join p)

rest-add_front : (b : ℕ) (parts : List Bytes) → rest_parts (add_front b parts) ≡ rest_parts parts
unfolding rest_parts
rest-add_front b [] = refl
rest-add_front b (part ∷ parts) = refl

last-rest :
    (parts : List Bytes) → last_is_empty (rest_parts parts) ≡ true → last_is_empty parts ≡ true
unfolding rest_parts
last-rest [] h = h
last-rest (part ∷ []) h = cc
last-rest (part ∷ next ∷ parts) h = h

split-cons :
    (b : ℕ) (p : Bytes)
    → rest_parts (split (b ∷ p)) ≡ (if b == star then split p else rest_parts (split p))
unfolding split rest_parts
split-cons b p = ground (arith, rest-add_front b (split p))

split-nil : split [] ≡ [] ∷ []
unfolding split
split-nil = refl

split-ends : (p : Bytes) → ends_with_star p ≡ true → last_is_empty (rest_parts (split p)) ≡ true
unfolding ends_with_star
split-ends [] h = cc
split-ends (b ∷ []) h = ground (arith, split-cons b [], split-nil)
split-ends (b ∷ c ∷ p) h =
    ground (arith, split-cons b (c ∷ p), split-ends (c ∷ p), last-rest (split (c ∷ p)))

strip_prefix-some : (part v after : Bytes) → strip_prefix part v ≡ some after → v ≡ part ++ after
unfolding strip_prefix
strip_prefix-some [] v after h = ground arith
strip_prefix-some (b ∷ part) [] after h = cc
strip_prefix-some (b ∷ part) (c ∷ v) after h = ground (arith, strip_prefix-some part v after)

-- What `find` returns: the bytes before the part, as many as the position says.
abbrev Found : ℕ → Bytes → Bytes → ℕ → Bytes → Type 0
Found n part v position after =
    (before : Bytes) × (v ≡ before ++ (part ++ after)) × (position ≡ n + length before)

find_from-Found :
    (n : ℕ) (part v : Bytes) {position : ℕ} {after : Bytes}
    → find_from n part v ≡ some (position, after)
    → Found n part v position after
unfolding find_from
find_from-Found n part [] {position} {after} h = elim (Option-cases (strip_prefix part [])) [
  | inl e ↦ absurd (ground arith)
  | inr (rest, e) ↦ ([], ground (arith, strip_prefix-some part [] rest e), ground arith)
]
find_from-Found n part (c ∷ v) {position} {after} h =
    elim (Option-cases (strip_prefix part (c ∷ v))) [
      | inl e ↦
          let (before, split_at, place) =
            find_from-Found (suc n) part v {position = position} {after = after} (ground arith) in
          (c ∷ before, ap (◌∷◌ c) split_at, ground arith)
      | inr (rest, e) ↦ ([], ground (arith, strip_prefix-some part (c ∷ v) rest e), ground arith)
    ]

-- What is left when the walk ends: nothing, or the last part was empty.
abbrev Ends : List Bytes → Bytes → Type 0
Ends parts left = (left ≡ []) ⊎ (last_is_empty parts ≡ true)

Ends-tail :
    (part : Bytes) (parts : List Bytes) (left : Bytes)
    → is_empty part ≡ false
    → Ends (part ∷ parts) left
    → Ends parts left
Ends-tail part [] left h e = ground arith
Ends-tail part (next ∷ parts) left h e = e

walk-Matches :
    (p : Bytes) (index : ℕ) (parts : List Bytes) (v : Bytes) {left : Bytes}
    → walk p (suc index) parts v ≡ some left
    → Ends parts left
    → Matches (starred parts) v
unfolding walk starred
walk-Matches p index [] v {left} h e = ground (arith, end)
walk-Matches p index ([] ∷ []) v h e = star_any v
walk-Matches p index ([] ∷ next ∷ parts) v h e =
    skip refl (walk-Matches p (suc index) (next ∷ parts) v h e)
walk-Matches p index ((b ∷ part) ∷ parts) v {left} h e =
    elim (Option-cases (find_from 0 (b ∷ part) v)) [
      | inl missing ↦ absurd (ground arith)
      | inr ((position, after), found) ↦
          let (before, split_at, place) = find_from-Found 0 (b ∷ part) v found in
          subst (Matches (star ∷ (b ∷ part) ++ starred parts)) (sym split_at) (
            star_before before (
              Matches-append (b ∷ part) (
                walk-Matches p (suc index) parts after (ground arith)
                  (Ends-tail (b ∷ part) parts left refl e))))
    ]

-- Bytes before the place of a part stand only where the pattern has a star for them.
anchored :
    (b : ℕ) (before : Bytes) {p v : Bytes}
    → (before ≡ []) ⊎ (b ≡ star)
    → Matches (b ∷ p) v
    → Matches (b ∷ p) (before ++ v)
anchored b [] h m = m
anchored b (c ∷ before) (inl e) m = cc
anchored b (c ∷ before) (inr e) m = more c e (anchored b before (inr e) m)

-- The walk from the first part, which has to stand at the start unless the pattern starts with a
-- star.
start-Matches :
    (p first : Bytes) (parts : List Bytes) (v : Bytes) {left : Bytes}
    → p ≡ first ++ starred parts
    → walk p 0 (first ∷ parts) v ≡ some left
    → Ends parts left
    → Matches p v
unfolding walk
start-Matches p [] parts v shape h e =
    subst (λ q. Matches q v) (sym shape) (walk-Matches p 0 parts v h e)
start-Matches p (b ∷ first) parts v {left} shape h e =
    elim (Option-cases (find_from 0 (b ∷ first) v)) [
      | inl missing ↦ absurd (ground arith)
      | inr ((position, after), found) ↦
          let (before, split_at, place) = find_from-Found 0 (b ∷ first) v found in
          subst₂ Matches (sym shape) (sym split_at) (
            anchored b before (ground arith)
              (Matches-append (b ∷ first) (walk-Matches p 0 parts after (ground arith) e)))
    ]

split-ne-nil : (p : Bytes) → split p ≢ []
unfolding split
split-ne-nil [] h = cc
split-ne-nil (b ∷ p) h = ground arith

Ends-of :
    (p left : Bytes) (parts : List Bytes)
    → rest_parts (split p) ≡ parts
    → finish p (some left) ≡ true
    → Ends parts left
Ends-of p left parts e h = ground (arith, split-ends p)

parts-Matches :
    (p : Bytes) (parts : List Bytes) (v : Bytes)
    → split p ≡ parts
    → p ≡ first_part parts ++ starred (rest_parts parts)
    → wildcard_match_lowered p v ≡ true
    → Matches p v
unfolding wildcard_match_lowered first_part rest_parts starred
parts-Matches p [] v e shape h = absurd (split-ne-nil p e)
parts-Matches p (only ∷ []) v e shape h =
    subst (Matches p) (ground (arith, beq_iff p v)) (Matches-self p)
parts-Matches p (first ∷ next ∷ parts) v e shape h =
    elim (Option-cases (walk p 0 (first ∷ next ∷ parts) v)) [
      | inl stopped ↦ absurd (ground arith)
      | inr (left, walked) ↦
          start-Matches p first (next ∷ parts) v shape walked
            (Ends-of p left (next ∷ parts) (ap rest_parts e) (ground arith))
    ]

lowered-Matches : (p v : Bytes) → wildcard_match_lowered p v ≡ true → Matches p v
lowered-Matches p v h = parts-Matches p (split p) v refl (sym (split-join p)) h

-- A title that is matched fits the pattern, after both have been put into lower case.
pub wildcard_match-Matches :
    (to_lowercase : Bytes → Bytes) (p v : Bytes)
    → wildcard_match to_lowercase p v ≡ true
    → Matches (to_lowercase p) (to_lowercase v)
unfolding wildcard_match
wildcard_match-Matches to_lowercase p v h = lowered-Matches (to_lowercase p) (to_lowercase v) h

append-ne-nil : (u : Bytes) (b : ℕ) → is_empty (u ++ b ∷ []) ≡ false
append-ne-nil [] b = refl
append-ne-nil (c ∷ u) b = refl

-- A shortcoming: the part behind the last star is looked for at its first place only, and not at the
-- end. A title that starts and ends with the one byte behind the star fits the pattern, and
-- `wildcard_match` refuses it, unless that byte is the whole title.
pub wildcard_match_incomplete :
    (b : ℕ) (u : Bytes)
    → b ≢ star
    → (wildcard_match_lowered (star ∷ b ∷ []) (b ∷ u ++ b ∷ []) ≡ false)
      × Matches (star ∷ b ∷ []) (b ∷ u ++ b ∷ [])
unfolding wildcard_match_lowered find_from strip_prefix
wildcard_match_incomplete b u h =
    (ground (arith, append-ne-nil u b), star_before (b ∷ u) (Matches-self (b ∷ [])))
