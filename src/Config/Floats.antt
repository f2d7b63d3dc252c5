-- ===== src/Config/Floats.antt =====
-- What the program computes with float64, as a parameter.
use flux_externalsource_cont.Prelude.{String, Bool, Option}
use flux_externalsource_cont.Prelude.Int.{ℤ}

pub record Floats : Type 1 where
  pub Float : Type 0
  -- the literal 0.25
  pub quarter : Float
  -- strconv.ParseFloat(s, 64), `none` on an error
  pub parse_float : String → Option Float
  -- f < 0 and f > 1
  pub below_zero : Float → Bool
  pub above_one : Float → Bool
  -- time.Duration(float64(base) * math.Pow(2, float64(count)))
  pub exponential : (base count : ℤ) → ℤ
  -- time.Duration(float64(delay) * factor * (2*rng.Float64() - 1)), with the generator's seed
  pub jitter : (delay : ℤ) (factor : Float) (seed : ℤ) → ℤ
