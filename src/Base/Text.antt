-- ===== src/Base/Text.antt =====
-- Rust's strings as their UTF-8 bytes: equality, the order of `str`, and slices.
use Prim.Native.Nat.{ℕ, compare, Ordering}
use Prim.Native.Char.{code}
use Prim.Native.String.{String}
use mathlib.Core.Path.{◌≡◌, refl}
use mathlib.Core.Logic.{◌↔◌}
use mathlib.Core.Bool.{Bool, true, false, ◌&&◌, ◌||◌}
use mathlib.Core.List.{List, [], ◌∷◌}
use native.Mathlib.Omega.{arith}
use fairypam_rust_agent.Base.Tests.{◌==◌, between}

abbrev pub Bytes : Type 0
Bytes = List ℕ

-- The bytes of an ASCII literal.
abbrev pub codes : String → Bytes
codes String.[] = []
codes (String.◌∷◌ c s) = code c ∷ codes s

unfoldable pub beq : Bytes → Bytes → Bool
beq [] [] = true
beq [] (y ∷ ys) = false
beq (x ∷ xs) [] = false
beq (x ∷ xs) (y ∷ ys) = x == y && beq xs ys

pub beq→eq : (xs ys : Bytes) → beq xs ys ≡ true → xs ≡ ys
unfolding beq
beq→eq [] [] h = refl
beq→eq [] (y ∷ ys) h = ground arith
beq→eq (x ∷ xs) [] h = ground arith
beq→eq (x ∷ xs) (y ∷ ys) h = ground (arith, beq→eq xs ys)

pub beq_refl : (xs : Bytes) → beq xs xs ≡ true
unfolding beq
beq_refl [] = refl
beq_refl (x ∷ xs) = ground (arith, beq_refl xs)

pub beq_iff : (xs ys : Bytes) → (beq xs ys ≡ true) ↔ (xs ≡ ys)
beq_iff xs ys = (beq→eq xs ys, λ e. rw e (beq_refl ys))

-- The order of `str`: bytes, lexicographically.
unfoldable pub cmp : Bytes → Bytes → Ordering
cmp [] [] = Ordering.eq
cmp [] (y ∷ ys) = Ordering.lt
cmp (x ∷ xs) [] = Ordering.gt
cmp (x ∷ xs) (y ∷ ys) = elim (compare x y) [
  | Ordering.lt ↦ Ordering.lt
  | Ordering.eq ↦ cmp xs ys
  | Ordering.gt ↦ Ordering.gt
]

pub cmp-eq : (xs ys : Bytes) → cmp xs ys ≡ Ordering.eq → xs ≡ ys
unfolding cmp
cmp-eq [] [] h = refl
cmp-eq [] (y ∷ ys) h = ground arith
cmp-eq (x ∷ xs) [] h = ground arith
cmp-eq (x ∷ xs) (y ∷ ys) h = ground (arith, cmp-eq xs ys)

pub cmp_refl : (xs : Bytes) → cmp xs xs ≡ Ordering.eq
unfolding cmp
cmp_refl [] = refl
cmp_refl (x ∷ xs) = ground (arith, cmp_refl xs)

-- `u8::is_ascii_lowercase`, `u8::is_ascii_digit` and `u8::is_ascii_hexdigit`.
abbrev pub is_ascii_lowercase : ℕ → Bool
is_ascii_lowercase b = between b'a' b'z' b

abbrev pub is_ascii_digit : ℕ → Bool
is_ascii_digit b = between b'0' b'9' b

abbrev pub is_ascii_hexdigit : ℕ → Bool
is_ascii_hexdigit b = is_ascii_digit b || (between b'a' b'f' b || between b'A' b'F' b)
