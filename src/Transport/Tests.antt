-- ===== src/Transport/Tests.antt =====
-- The backoff at a concrete input.
use native.Mathlib.Nat.{mul-le-mul_left}
use fairypam_rust_agent.Base.{ℕ, ◌+◌, true, leb, ◌*◌, ◌/◌, ◌≤◌, ◌≡◌, min, refl, arith}
use fairypam_rust_agent.Transport.Backoff.{
  CappedBackoff, multiplier, next_delay, delayed, next_delay-delayed, Floats, IsRounding,
}

-- Numbers in sixteenths, rounded down, and a generator that always draws a half.
abbrev sixteenths : Floats (Unit {0}) ℕ
sixteenths = record {
  f64 = λ rng. (8, rng);
  half = 8;
  mul = λ x y. x * y / 16;
  add = λ x y. x + y;
  mul_f64 = λ c x. c * x / 16;
}

sixteenths-IsRounding : IsRounding sixteenths 1_000_000_000 1
sixteenths-IsRounding = record {
  le = leb;
  nought = 0;
  one = 16;
  f64_ge = λ rng. refl;
  f64_le = λ rng. refl;
  mul_le = λ x y h. ground arith;
  add_le = λ x y h. ground arith;
  of_nought = refl;
  of_one = refl;
  mul_f64_le = λ c x y h. omega (arith, scaled c x y h);
  mul_f64_half = λ c h. omega arith;
  mul_f64_one = λ c h. omega arith;
}
  where
    scaled : (c x y : ℕ) → leb x y ≡ true → c * x ≤ c * y
    scaled c x y h = mul-le-mul_left c (ground arith)

abbrev slow : CappedBackoff (Unit {0})
slow = record { base = 10_000_000; maximum = 25_000_000; attempt = 0; rng = tt }

next_delay_test : (next_delay sixteenths (delayed sixteenths 2 slow)).0 ≡ 18_750_000
unfolding next_delay delayed
next_delay_test = refl

next_delay-delayed_example :
    (min (slow.base * multiplier sixteenths 1) slow.maximum
      ≤ 2 * (next_delay sixteenths (delayed sixteenths 1 slow)).0 + 1)
    × ((next_delay sixteenths (delayed sixteenths 1 slow)).0
        ≤ min (slow.base * multiplier sixteenths 1) slow.maximum + 1)
next_delay-delayed_example =
    next_delay-delayed sixteenths 1_000_000_000 1 1 slow sixteenths-IsRounding refl (omega arith)
      (omega arith) (omega arith)
