-- ===== src/Common/Float.antt =====
-- Go's float64 with the conversions and functions that the code uses, as a parameter.
use cln_circular.Common.{ℕ, Bool}

pub record Float64 : Type 1 where
  pub F : Type 0
  pub of_ℕ : ℕ → F  -- float64(n)
  pub to_ℕ : F → ℕ  -- uint64(f), rounding toward zero
  pub ratio : ℕ → ℕ → F  -- a decimal literal
  pub add : F → F → F
  pub sub : F → F → F
  pub mul : F → F → F
  pub div : F → F → F
  pub neg_log : F → F  -- -math.Log(x)
  pub pow : F → F → F  -- math.Pow
  pub ceil : F → F  -- math.Ceil
  pub lt : F → F → Bool
  pub le : F → F → Bool
