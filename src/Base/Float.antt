-- ===== src/Base/Float.antt =====
-- Python's floats: what the scripts ask of them, as an interface. The standard floats are not
-- computed with; the laws are the documented facts that a theorem names as its hypothesis.
use Prim.Native.Nat.{ℕ, ◌≤◌, ◌<◌, ◌^◌}
use Prim.Native.String.{String}
use mathlib.Core.Path.{◌≡◌}
use mathlib.Core.Bool.{Bool, true, false}
use mathlib.Core.Option.{Option}
use mathlib.Core.List.{List, [], ◌∷◌}
use dm_simulator.Base.Booleans.{if◌then◌else◌}
use dm_simulator.Base.Int.{ℤ}
use dm_simulator.Base.Raises.{Result, ok, ◌>>=◌}

pub record Floats (F : Type 0) : Type 0 where
  -- the literal `m * 10 ** -d`
  pub lit : ℕ → ℕ → F
  -- `float(text)`; `none` is a `ValueError`
  pub of_text : String → Option F
  -- `math.isfinite`
  pub is_finite : F → Bool
  -- `<`, `<=` and `==`; `a > b` is `b < a`
  pub lt : F → F → Bool
  pub le : F → F → Bool
  pub eq : F → F → Bool
  -- `n * x` for an integer `n`, which may raise an `OverflowError`
  pub scale : ℕ → F → Result F
  -- `math.ceil(x)` and `int(round(x))` of a value that is not negative
  pub ceil : F → Result ℕ
  pub round : F → Result ℕ
  -- `f"{x:g}"`
  pub show_g : F → String

module _ {F : Type 0} ⦃fl : Floats F⦄ where
  -- `0.0` and `1.0`
  abbrev pub nought : F
  nought = fl.lit 0 0

  abbrev pub one : F
  one = fl.lit 1 0

-- The operations on floats of the two scripts' statistics.
pub record Arithmetic (F : Type 0) : Type 0 where
  pub add : F → F → F
  pub minus : F → F → F
  pub times : F → F → F
  pub negate : F → F
  -- the quotient by a divisor that is not 0
  pub over : F → F → F
  pub sqrt : F → F
  -- `x ** 2`, which may raise an `OverflowError`
  pub square : F → Result F
  -- `float("inf")`
  pub infinity : F
  -- `float(n)`, which may raise an `OverflowError`, and of a length, which does not
  pub of_ℤ : ℤ → Result F
  pub of_ℕ : ℕ → F
  -- `sum(xs)` of a list that is not empty
  pub sum : List F → F
  -- `str(x)` and `f"{x:.6f}"`
  pub show : F → String
  pub show_6f : F → String

-- `min(xs)` and `max(xs)` of a list with a first item: the first of the least or greatest.
unfoldable pub least : {F : Type 0} ⦃fl : Floats F⦄ → F → List F → F
least m [] = m
least ⦃fl⦄ m (x ∷ xs) = least (if fl.lt x m then x else m) xs

unfoldable pub greatest : {F : Type 0} ⦃fl : Floats F⦄ → F → List F → F
greatest m [] = m
greatest ⦃fl⦄ m (x ∷ xs) = greatest (if fl.lt m x then x else m) xs

-- A share of `n` things, rounded up, is computed and is at most `n`: the product is exact enough
-- while `n` is below 2 ** 53, since it is then at most `n`, and `math.ceil` keeps that.
abbrev pub CeilWithin : {F : Type 0} → Floats F → Type 0
CeilWithin {F} fl =
    (n : ℕ) (x : F)
    → n < 2 ^ 53
    → fl.lt (fl.lit 0 0) x ≡ true
    → fl.lt x (fl.lit 1 0) ≡ true
    → (c : ℕ) × ((fl.scale n x >>= fl.ceil) ≡ ok c) × (c ≤ n)

-- `<` and `==` of floats, NaNs included: a comparison with a NaN is false.
pub record IsStrictOrder {F : Type 0} (fl : Floats F) : Type 0 where
  pub lt_trans : (x y z : F) → fl.lt x y ≡ true → fl.lt y z ≡ true → fl.lt x z ≡ true
  pub lt_irrefl : (x : F) → fl.lt x x ≡ false
  pub eq_sym : (x y : F) → fl.eq x y ≡ true → fl.eq y x ≡ true
  pub eq_trans : (x y z : F) → fl.eq x y ≡ true → fl.eq y z ≡ true → fl.eq x z ≡ true
  pub lt_of_eq_lt : (x y z : F) → fl.eq x y ≡ true → fl.lt y z ≡ true → fl.lt x z ≡ true
  pub lt_of_lt_eq : (x y z : F) → fl.lt x y ≡ true → fl.eq y z ≡ true → fl.lt x z ≡ true
