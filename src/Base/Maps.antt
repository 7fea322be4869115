-- ===== src/Base/Maps.antt =====
-- Ascending maps with `str` keys, as Rust's `BTreeMap` keeps them.
use Prim.Native.Nat.{Ordering}
use mathlib.Core.Path.{◌≡◌, refl}
use mathlib.Core.Bool.{Bool, true, false, ◌&&◌}
use mathlib.Core.List.{List, [], ◌∷◌}
use mathlib.Core.Option.{some}
use native.Mathlib.Omega.{arith}
use fairypam_rust_agent.Base.Text.{Bytes, beq, cmp, beq_iff, cmp-eq, cmp_refl}
use fairypam_rust_agent.Base.Lists.{all}
use fairypam_rust_agent.Base.Sets.{get, put}

cmp_trans :
    (xs ys zs : Bytes) → cmp xs ys ≡ Ordering.lt → cmp ys zs ≡ Ordering.lt → cmp xs zs ≡ Ordering.lt
unfolding cmp
cmp_trans [] [] zs h k = absurd (cc)
cmp_trans [] (y ∷ ys) [] h k = absurd (cc)
cmp_trans [] (y ∷ ys) (z ∷ zs) h k = refl
cmp_trans (x ∷ xs) [] zs h k = absurd (cc)
cmp_trans (x ∷ xs) (y ∷ ys) [] h k = absurd (cc)
cmp_trans (x ∷ xs) (y ∷ ys) (z ∷ zs) h k = ground (arith, cmp_trans xs ys zs)

cmp_swap : (xs ys : Bytes) → cmp xs ys ≡ Ordering.gt → cmp ys xs ≡ Ordering.lt
unfolding cmp
cmp_swap [] [] h = absurd (cc)
cmp_swap [] (y ∷ ys) h = absurd (cc)
cmp_swap (x ∷ xs) [] h = refl
cmp_swap (x ∷ xs) (y ∷ ys) h = ground (arith, cmp_swap xs ys)

abbrev is_lt : Ordering → Bool
is_lt Ordering.lt = true
is_lt _ = false

is_lt-lt : (o : Ordering) → is_lt o ≡ true → o ≡ Ordering.lt
is_lt-lt Ordering.lt h = refl
is_lt-lt Ordering.eq h = absurd (cc)
is_lt-lt Ordering.gt h = absurd (cc)

module _ {ℓ} {V : Type ℓ} where
  -- The key is below every key of the map.
  abbrev below : Bytes → List (Bytes × V) → Bool
  below k m = all (λ e. is_lt (cmp k e.0)) m

  abbrev pub is_ascending : List (Bytes × V) → Bool
  is_ascending [] = true
  is_ascending ((k, v) ∷ m) = below k m && is_ascending m

  below_trans :
      (i k : Bytes) (m : List (Bytes × V))
      → cmp i k ≡ Ordering.lt
      → below k m ≡ true
      → below i m ≡ true
  below_trans i k [] h b = refl
  below_trans i k ((j, w) ∷ m) h b =
      ground (arith, below_trans i k m, cmp_trans i k j, is_lt-lt (cmp k j))

  below-put :
      (i k : Bytes) (v : V) (m : List (Bytes × V))
      → cmp i k ≡ Ordering.lt
      → below i m ≡ true
      → below i (put k v m) ≡ true
  unfolding put
  below-put i k v [] h b = ground arith
  below-put i k v ((j, w) ∷ m) h b = ground (arith, below-put i k v m)

  pub put-is_ascending :
      (k : Bytes) (v : V) (m : List (Bytes × V))
      → is_ascending m ≡ true
      → is_ascending (put k v m) ≡ true
  unfolding put
  put-is_ascending k v [] h = refl
  put-is_ascending k v ((j, w) ∷ m) h = ground (
    arith,
    put-is_ascending k v m,
    below_trans k j m,
    below-put j k v m,
    cmp_swap k j,
    cmp-eq k j,
  )

  below-get :
      (j k : Bytes) (v : V) (m : List (Bytes × V))
      → below j m ≡ true
      → get k m ≡ some v
      → cmp j k ≡ Ordering.lt
  below-get j k v [] b h = absurd (cc)
  below-get j k v ((i, w) ∷ m) b h =
      ground (arith, below-get j k v m, beq_iff k i, is_lt-lt (cmp j i))

  -- An entry behind the first one has another key.
  pub ascending-other :
      (j k : Bytes) (v w : V) (m : List (Bytes × V))
      → is_ascending ((j, w) ∷ m) ≡ true
      → get k m ≡ some v
      → beq k j ≡ false
  ascending-other j k v w m b h = ground (arith, below-get j k v m, beq_iff k j, cmp_refl j)
