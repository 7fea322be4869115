-- ===== src/Base/Result.antt =====
-- Rust's `Result` with its `?`, and methods that keep their state when they fail.
use mathlib.Core.Path.{◌≡◌, refl}
use mathlib.Core.Bool.{Bool, true, false}
use mathlib.Core.List.{List, [], ◌∷◌}
use mathlib.Core.Option.{Option, none, some}

pub data Result {ℓ κ} (E : Type ℓ) (A : Type κ) : Type (ℓ ⊔ κ) where
  ok : A → Result E A
  err : E → Result E A

infixl 5 ◌>>=◌ ◌>>◌
abbrev pub ◌>>=◌ {ℓ κ μ} :
    {E : Type ℓ} {A : Type κ} {B : Type μ} → Result E A → (A → Result E B) → Result E B
ok value >>= next = next value
err error >>= next = err error

abbrev pub ◌>>◌ {ℓ κ} : {E : Type ℓ} {B : Type κ} → Result E (Unit {0}) → Result E B → Result E B
first >> next = first >>= λ done. next

-- `if !test { return Err(e) }`.
abbrev pub ensure {ℓ} : {E : Type ℓ} → Bool → E → Result E (Unit {0})
ensure true error = ok tt
ensure false error = err error

abbrev pub ok_or {ℓ κ} : {E : Type ℓ} {A : Type κ} → Option A → E → Result E A
ok_or none e = err e
ok_or (some a) e = ok a

-- `iter().map(f).collect::<Result<_, _>>()`: the first error ends the walk.
unfoldable pub try_map {ℓ κ μ} :
    {E : Type ℓ} {A : Type κ} {B : Type μ} → (A → Result E B) → List A → Result E (List B)
try_map f [] = ok []
try_map f (x ∷ xs) = do y ← f x; ys ← try_map f xs; ok (y ∷ ys)

-- The value on which a chain that succeeds went on.
pub passed_on {ℓ κ μ} :
    {E : Type ℓ} {A : Type κ} {B : Type μ} {end : B} (next : A → Result E B) (first : Result E A)
    → (first >>= next) ≡ ok end
    → (value : A) × (next value ≡ ok end) × (first ≡ ok value)
passed_on next (ok value) goes = (value, goes, refl)
passed_on next (err error) goes = cc

pub ok_or-eq-ok {ℓ κ} :
    {E : Type ℓ} {A : Type κ} (o : Option A) (e : E) {a : A} → ok_or o e ≡ ok a → o ≡ some a
ok_or-eq-ok none e h = cc
ok_or-eq-ok (some a) e h = cc

pub ensure-eq-ok {ℓ} : {E : Type ℓ} (b : Bool) (e : E) {u : Unit {0}} → ensure b e ≡ ok u → b ≡ true
ensure-eq-ok true e h = refl
ensure-eq-ok false e h = cc

pub then_ok {ℓ κ} :
    {E : Type ℓ} {A : Type κ} (check : Result E (Unit {0})) (a : A) {b : A}
    → (check >> ok a) ≡ ok b
    → (check ≡ ok tt) × (a ≡ b)
then_ok (ok done) a e = (refl, cc)
then_ok (err error) a e = (cc, cc)

pub ok_injective {ℓ κ} :
    {E : Type ℓ} {A : Type κ} (x y : A) → ◌≡◌ {A = Result E A} (ok x) (ok y) → x ≡ y
ok_injective x y e = cc
