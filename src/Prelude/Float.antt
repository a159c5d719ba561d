-- ===== src/Prelude/Float.antt =====
-- Python's `float` as an interface: what the agent does with floats, and the laws of IEEE 754
-- numbers that the proofs use.
use cloud_profiler_python.Prelude.{◌≡◌, Bool, true, false, String, inl, inr, arith, Bool-cases}
use mathlib.Core.Path.{subst}
use cloud_profiler_python.Prelude.Int.{ℤ, pos}
use cloud_profiler_python.Prelude.Result.{Result}

pub record Float : Type 1 where
  pub F : Type 0
  -- A literal of the source.
  pub literal : String → F
  -- `float(n)`
  pub of_ℤ : ℤ → F
  pub add : F → F → F
  pub sub : F → F → F
  pub mul : F → F → F
  -- `x / y`, and `n / m` on integers, which raise on a division by zero
  pub div : F → F → Result F
  pub true_div : ℤ → ℤ → Result F
  -- `x < y`
  pub lt : F → F → Bool
  -- `int(x)`, which raises on an infinity and on NaN
  pub int : F → Result ℤ

-- x ≤ y, as far as the comparison `y < x` tells.
abbrev pub NotAbove : (fl : Float) → fl.F → fl.F → Type 0
NotAbove fl x y = fl.lt y x ≡ false

-- A number is a float that is not NaN, a factor one that is finite and at least 1. The product of a
-- number of at least 0 and a factor is a number, and no smaller: rounding is monotone.
pub record IsIeee (fl : Float) : Type 1 where
  pub IsNumber : fl.F → Type 0
  pub IsFactor : fl.F → Type 0
  pub lt_irrefl : (x : fl.F) → NotAbove fl x x
  pub lt_asymm : (x y : fl.F) → fl.lt x y ≡ true → fl.lt y x ≡ false
  pub not_above_trans :
      (x y z : fl.F) → IsNumber y → NotAbove fl x y → NotAbove fl y z → NotAbove fl x z
  pub IsNumber-mul :
      (x m : fl.F)
      → IsNumber x
      → NotAbove fl (fl.of_ℤ (pos 0)) x
      → IsFactor m
      → IsNumber (fl.mul x m)
  pub mul_grows :
      (x m : fl.F)
      → IsNumber x
      → NotAbove fl (fl.of_ℤ (pos 0)) x
      → IsFactor m
      → NotAbove fl x (fl.mul x m)

-- `min(a, b)` keeps its first argument unless the second is below it.
abbrev pub min_py : (fl : Float) → fl.F → fl.F → fl.F
min_py fl a b = elim (fl.lt b a) [ true ↦ b | false ↦ a ]

module _ (fl : Float) where
  -- The minimum is one of the two, and not above the first.
  pub min_py-pick : (P : fl.F → Type 0) (a b : fl.F) → P a → P b → P (min_py fl a b)
  min_py-pick P a b pa pb = elim (Bool-cases (fl.lt b a)) [
    | inl below ↦ subst P (ground arith) pb
    | inr above ↦ subst P (ground arith) pa
  ]

  pub min_py-le : IsIeee fl → (a b : fl.F) → NotAbove fl (min_py fl a b) a
  min_py-le ieee a b = ground (arith, ieee.lt_asymm b a, ieee.lt_irrefl a)
