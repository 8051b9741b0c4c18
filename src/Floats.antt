-- ===== src/Floats.antt =====
-- Python's floats as the program uses them for ratios. They are not part of the program; the modelled
-- code takes these operations as a parameter and relies on no law of theirs.
use smart_dialerss.Prelude.{ℕ, Bool, Option}

pub record Floats : Type 1 where
  pub F : Type 0
  -- float(n)
  pub of_nat : ℕ → F
  -- m / n, for an n that is not 0
  pub div : ℕ → ℕ → F
  pub mul : F → F → F
  pub add : F → F → F
  pub sub : F → F → F
  -- x / y; none stands for ZeroDivisionError.
  pub quotient : F → F → Option F
  -- max, min and abs
  pub fmax : F → F → F
  pub fmin : F → F → F
  pub fabs : F → F
  -- math.floor(x), for an x that is not negative
  pub floor : F → ℕ
  -- 1.0 - x
  pub complement : F → F
  pub gt : F → F → Bool
  pub le : F → F → Bool
  -- int(x * n), for an x that is not negative
  pub int_mul : F → ℕ → ℕ
  -- int(round(x * n)), for an x that is not negative
  pub round_mul : F → ℕ → ℕ
