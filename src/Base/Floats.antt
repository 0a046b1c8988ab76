-- ===== src/Base/Floats.antt =====
-- The floating-point arithmetic that the program uses. Its values and operations are parameters.
use mathlib.Core.Bool.{Bool}
use Prim.Native.Nat.{ℕ}

pub record Floats : Type 1 where
  pub Float32 : Type 0
  pub Float64 : Type 0
  pub widen : Float32 → Float64
  pub zero : Float64
  pub add : Float64 → Float64 → Float64
  pub mul : Float64 → Float64 → Float64
  -- `a < b`, false when either is NaN.
  pub lt : Float64 → Float64 → Bool
  -- The literal `n / d`.
  pub decimal : ℕ → ℕ → Float64
