-- ===== src/Types/Float.antt =====
-- `float` is a type with the operations that the program uses, passed as a parameter: the language
-- of the proofs has no floating-point numbers. Nothing is assumed of the operations but what a
-- theorem names.
use turbine_governor.Base.{ℕ, Bool}
use turbine_governor.Base.Int.{ℤ}

pub record FloatOps (F : Type 0) : Type 0 where
  pub lt : F → F → Bool
  pub eq : F → F → Bool
  pub add : F → F → F
  pub sub : F → F → F
  pub mul : F → F → F
  pub div : F → F → F
  pub of_int : ℤ → F
  pub of_ratio : ℕ → ℕ → F  -- a literal with decimals, as numerator and denominator
  pub to_unsigned : ℕ → F → ℕ  -- the conversion to an unsigned type of so many bits
