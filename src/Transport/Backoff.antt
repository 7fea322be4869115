-- ===== src/Transport/Backoff.antt =====
-- crates/fairypam-agent-transport/src/backoff.rs: the capped exponential backoff with jitter.
-- Durations count nanoseconds. `fastrand`, the numbers of type `f64` and `Duration::mul_f64` are
-- parameters, a `Floats`.
use fairypam_rust_agent.Base.{
  ℕ, Bool, true, ◌+◌, ◌-◌, ◌<◌, zero, ◌*◌, ◌^◌, ◌≤◌, ◌||◌, ◌≡◌, min, ltb, if◌then◌else◌, ◌==◌,
  arith, refl, suc, subst,
}
use fairypam_rust_agent.Base.Result.{Result, ok, err}
use fairypam_rust_agent.Core.Error.{AgentError}

pub record CappedBackoff (R : Type 0) : Type 0 where
  pub base : ℕ
  pub maximum : ℕ
  pub attempt : ℕ
  pub rng : R

-- `f64` draws from a generator; `half` is the literal 0.5, and `mul` and `add` are `*` and `+`.
pub record Floats (R F : Type 0) : Type 0 where
  pub f64 : R → F × R
  pub half : F
  pub mul : F → F → F
  pub add : F → F → F
  pub mul_f64 : ℕ → F → ℕ

-- What the code relies on: a draw lies between 0 and 1; `x * 0.5` and `x + 0.5` are monotone, and
-- take 0 to 0.5 and 1 to 1; and the product with a duration is monotone, and of a duration up to
-- `limit` it gives the half and the whole but for a rounding of at most `slack` nanoseconds.
pub record IsRounding {R F : Type 0} (floats : Floats R F) (limit slack : ℕ) : Type 0 where
  pub le : F → F → Bool
  pub nought : F
  pub one : F
  pub f64_ge : (rng : R) → le nought (floats.f64 rng).0 ≡ true
  pub f64_le : (rng : R) → le (floats.f64 rng).0 one ≡ true
  pub mul_le :
      (x y : F) → le x y ≡ true → le (floats.mul x floats.half) (floats.mul y floats.half) ≡ true
  pub add_le :
      (x y : F) → le x y ≡ true → le (floats.add x floats.half) (floats.add y floats.half) ≡ true
  pub of_nought : floats.add (floats.mul nought floats.half) floats.half ≡ floats.half
  pub of_one : floats.add (floats.mul one floats.half) floats.half ≡ one
  pub mul_f64_le : (c : ℕ) (x y : F) → le x y ≡ true → floats.mul_f64 c x ≤ floats.mul_f64 c y
  pub mul_f64_half : (c : ℕ) → c ≤ limit → c ≤ 2 * floats.mul_f64 c floats.half + slack
  pub mul_f64_one : (c : ℕ) → c ≤ limit → floats.mul_f64 c one ≤ c + slack

-- `Duration::MAX`.
abbrev pub duration_max : ℕ
duration_max = 2 ^ 64 * 1_000_000_000 - 1

module _ {R F : Type 0} (floats : Floats R F) where
  -- `TransportError` has a code and a message too.
  unfoldable pub with_seed : (base maximum : ℕ) → R → Result AgentError (CappedBackoff R)
  with_seed base maximum rng =
      if base == 0 || ltb maximum base
      then err (record { code = "transport.backoff_invalid" })
      else ok (record { base = base; maximum = maximum; attempt = 0; rng = rng })

  -- The shift is of at most 30 bits, so `checked_shl` succeeds.
  abbrev pub multiplier : ℕ → ℕ
  multiplier attempt = 2 ^ min attempt 30

  abbrev pub ceiling_of : CappedBackoff R → ℕ
  ceiling_of b = min (min duration_max (b.base * multiplier b.attempt)) b.maximum

  unfoldable pub next_delay : CappedBackoff R → ℕ × CappedBackoff R
  next_delay b =
      let (drawn, rng) = floats.f64 b.rng in
      (
        floats.mul_f64 (ceiling_of b) (floats.add (floats.mul drawn floats.half) floats.half),
        record b { attempt = min (2 ^ 32 - 1) (b.attempt + 1); rng = rng },
      )

  unfoldable pub reset : CappedBackoff R → CappedBackoff R
  reset b = record b { attempt = 0 }

  -- The state after a number of delays.
  unfoldable pub delayed : ℕ → CappedBackoff R → CappedBackoff R
  unfolding next_delay
  delayed zero b = b
  delayed (suc n) b = (next_delay (delayed n b)).1

  delayed-state :
      (n : ℕ) (b : CappedBackoff R)
      → b.attempt ≡ 0
      → n < 2 ^ 32
      → ((delayed n b).base ≡ b.base)
        × ((delayed n b).maximum ≡ b.maximum)
        × ((delayed n b).attempt ≡ n)
  unfolding delayed next_delay
  delayed-state zero b h k = (refl, refl, h)
  delayed-state (suc n) b h k =
      let (base, maximum, attempt) = delayed-state n b h (omega arith) in
      (base, maximum, omega arith)

  ceiling_between :
      (d base maximum power limit slack : ℕ)
      → maximum ≤ limit
      → limit ≤ duration_max
      → (min (min duration_max (base * power)) maximum ≤ limit
          → (min (min duration_max (base * power)) maximum ≤ 2 * d + slack)
            × (d ≤ min (min duration_max (base * power)) maximum + slack))
      → (min (base * power) maximum ≤ 2 * d + slack) × (d ≤ min (base * power) maximum + slack)
  ceiling_between d base maximum power limit slack h k both =
      let (low, high) = both (omega arith) in (omega arith, omega arith)

  -- The jitter keeps half of a ceiling, and no more than all of it, but for the rounding.
  jittered :
      (limit slack : ℕ) (rng : R) (c : ℕ)
      → IsRounding floats limit slack
      → c ≤ limit
      → (c
          ≤ 2
              * floats.mul_f64 c
                  (floats.add (floats.mul (floats.f64 rng).0 floats.half) floats.half)
            + slack)
        × (floats.mul_f64 c (floats.add (floats.mul (floats.f64 rng).0 floats.half) floats.half)
            ≤ c + slack)
  jittered limit slack rng c r h =
      let drawn = (floats.f64 rng).0 in
      let factor = floats.add (floats.mul drawn floats.half) floats.half in
      let low =
        subst (λ x. r.le x factor ≡ true) r.of_nought
          (r.add_le _ _ (r.mul_le r.nought drawn (r.f64_ge rng))) in
      let high =
        subst (λ x. r.le factor x ≡ true) r.of_one
          (r.add_le _ _ (r.mul_le drawn r.one (r.f64_le rng))) in
      (
        omega (arith, r.mul_f64_half c h, r.mul_f64_le c floats.half factor low),
        omega (arith, r.mul_f64_one c h, r.mul_f64_le c factor r.one high),
      )

  -- After n delays since the start or a reset, fewer than 2 ^ 32, the next delay lies between the
  -- half and the whole of the base times 2 ^ n, or times 2 ^ 30 from there on, where that is capped
  -- at the maximum, but for the rounding of a duration's product; if a draw of the generator lies
  -- between 0 and 1, the operations on `f64` keep the order, and the maximum is a duration for
  -- which the product with 0.5 and 1 rounds by no more than that.
  pub next_delay-delayed :
      (limit slack n : ℕ) (b : CappedBackoff R)
      → IsRounding floats limit slack
      → b.attempt ≡ 0
      → n < 2 ^ 32
      → b.maximum ≤ limit
      → limit ≤ duration_max
      → (min (b.base * multiplier n) b.maximum ≤ 2 * (next_delay (delayed n b)).0 + slack)
        × ((next_delay (delayed n b)).0 ≤ min (b.base * multiplier n) b.maximum + slack)
  unfolding next_delay
  next_delay-delayed limit slack n b rounding h k within fits =
      let (base, maximum, attempt) = delayed-state n b h k in
      let c = ceiling_of (delayed n b) in
      let same : c ≡ min (min duration_max (b.base * multiplier n)) b.maximum = cc in
      let d = (next_delay (delayed n b)).0 in
      ceiling_between d b.base b.maximum (multiplier n) limit slack within fits (
        subst (λ x. x ≤ limit → (x ≤ 2 * d + slack) × (d ≤ x + slack)) same
          (jittered limit slack (delayed n b).rng c rounding))
