-- ===== src/Model/Double.antt =====
-- A `double` is the pattern of its 64 bits. What the processor computes with it is a parameter.
use russian_ai_cup.Base.{ℕ, ℤ, Bool}

abbrev pub Double : Type 0
Double = ℕ

-- The operations on doubles that the program uses: the conversion from int, `*`, `sqrt` and `<=`.
pub record Fpu : Type 0 where
  pub of_int : ℤ → Double
  pub mul : Double → Double → Double
  pub sqrt : Double → Double
  pub le : Double → Double → Bool
