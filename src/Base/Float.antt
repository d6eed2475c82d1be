-- ===== src/Base/Float.antt =====
-- What the code does with a float64. The language's floats are a parameter of the model.
use mathlib.Core.Bool.{Bool}
use ptool.Base.Int.{ℤ, pos}

pub record Float (F : Type 0) : Type 0 where
  pub of_int : ℤ → F
  pub to_int : F → ℤ
  pub add : F → F → F
  pub sub : F → F → F
  pub mul : F → F → F
  pub div : F → F → F
  pub neg : F → F
  pub min : F → F → F
  pub lt : F → F → Bool
  pub le : F → F → Bool
  pub eq : F → F → Bool

module _ {F : Type 0} ⦃fl : Float F⦄ where
  -- The constant n, and the constant n / d of the source (0.5, 0.1, 0.8).
  abbrev pub float : ℤ → F
  float n = fl.of_int n

  abbrev pub ratio : ℤ → ℤ → F
  ratio n d = fl.div (fl.of_int n) (fl.of_int d)

  abbrev pub is_zero : F → Bool
  is_zero x = fl.eq x (fl.of_int (pos 0))
