-- ===== src/Base/Sets.antt =====
-- Rust's `BTreeSet<String>` and `BTreeMap<String, V>` as ascending lists.
use Prim.Native.Nat.{Ordering}
use mathlib.Core.Path.{◌≡◌, refl}
use mathlib.Core.Bool.{Bool, false, not, ◌&&◌, ◌||◌}
use mathlib.Core.List.{List, [], ◌∷◌}
use mathlib.Core.Option.{Option, none, some}
use native.Mathlib.Omega.{arith}
use fairypam_rust_agent.Base.Text.{Bytes, beq, cmp, beq_iff, cmp-eq, cmp_refl}
use fairypam_rust_agent.Base.Lists.{all}
use fairypam_rust_agent.Base.Tests.{if◌then◌else◌}

abbrev pub BTreeSet : Type 0
BTreeSet = List Bytes

abbrev pub contains : Bytes → BTreeSet → Bool
contains a [] = false
contains a (x ∷ xs) = beq a x || contains a xs

unfoldable pub insert : Bytes → BTreeSet → BTreeSet
insert a [] = a ∷ []
insert a (x ∷ xs) = elim (cmp a x) [
  | Ordering.lt ↦ a ∷ x ∷ xs
  | Ordering.eq ↦ x ∷ xs
  | Ordering.gt ↦ x ∷ insert a xs
]

-- `collect::<BTreeSet<_>>()`.
unfoldable pub from_list : List Bytes → BTreeSet
from_list [] = []
from_list (x ∷ xs) = insert x (from_list xs)

unfoldable pub extend : BTreeSet → List Bytes → BTreeSet
extend s [] = s
extend s (x ∷ xs) = extend (insert x s) xs

unfoldable pub difference : BTreeSet → BTreeSet → BTreeSet
difference [] t = []
difference (x ∷ xs) t = if contains x t then difference xs t else x ∷ difference xs t

abbrev pub is_subset : BTreeSet → BTreeSet → Bool
is_subset xs t = all (λ x. contains x t) xs

module _ {ℓ} {V : Type ℓ} where
  abbrev pub get : Bytes → List (Bytes × V) → Option V
  get k [] = none
  get k ((j, v) ∷ m) = if beq k j then some v else get k m

  unfoldable pub put : Bytes → V → List (Bytes × V) → List (Bytes × V)
  put k v [] = (k, v) ∷ []
  put k v ((j, w) ∷ m) = elim (cmp k j) [
    | Ordering.lt ↦ (k, v) ∷ (j, w) ∷ m
    | Ordering.eq ↦ (k, v) ∷ m
    | Ordering.gt ↦ (j, w) ∷ put k v m
  ]

  abbrev pub values : List (Bytes × V) → List V
  values [] = []
  values ((j, w) ∷ m) = w ∷ values m

-- Membership after an insertion.
pub contains-insert :
    (a b : Bytes) (s : BTreeSet) → contains b (insert a s) ≡ (beq b a || contains b s)
unfolding insert
contains-insert a b [] = refl
contains-insert a b (x ∷ xs) =
    ground (arith, contains-insert a b xs, cmp-eq a x, beq_iff b a, beq_iff b x)

pub contains-from_list : (b : Bytes) (xs : List Bytes) → contains b (from_list xs) ≡ contains b xs
unfolding from_list
contains-from_list b [] = refl
contains-from_list b (x ∷ xs) =
    ground (arith, contains-insert x b (from_list xs), contains-from_list b xs)

pub contains-extend :
    (b : Bytes) (xs s : BTreeSet) → contains b (extend s xs) ≡ (contains b xs || contains b s)
unfolding extend
contains-extend b [] s = refl
contains-extend b (x ∷ xs) s =
    ground (arith, contains-insert x b s, contains-extend b xs (insert x s))

pub contains-difference :
    (b : Bytes) (s t : BTreeSet)
    → contains b (difference s t) ≡ (contains b s && not (contains b t))
unfolding difference
contains-difference b [] t = refl
contains-difference b (x ∷ xs) t = ground (arith, contains-difference b xs t, beq_iff b x)

pub get-put {ℓ} :
    {V : Type ℓ} (k j : Bytes) (v : V) (m : List (Bytes × V))
    → get j (put k v m) ≡ (if beq j k then some v else get j m)
unfolding put
get-put {V} k j v [] = refl
get-put {V} k j v ((i, w) ∷ m) =
    ground (arith, get-put k j v m, cmp-eq k i, cmp_refl k, beq_iff j k, beq_iff j i)

-- `collect::<BTreeMap<_, _>>()` from entries in their order.
unfoldable pub collect_map {ℓ} :
    {V : Type ℓ} → List (Bytes × V) → List (Bytes × V) → List (Bytes × V)
collect_map m [] = m
collect_map m ((k, v) ∷ entries) = collect_map (put k v m) entries
