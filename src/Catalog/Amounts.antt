-- ===== src/Catalog/Amounts.antt =====
-- Amounts for display: `format_amount` and `round_friendly` of
-- core/saasmint_core/services/currency.py, and `_to_minor_units` of apps/billing/tasks.py.
use saasmint_core.Base.{ℕ, ◌*◌, Bool, String, Option, none, some, List, [], ◌∷◌, if◌then◌else◌}
use saasmint_core.Python.{Json}
use saasmint_core.State.{Env}
use saasmint_core.Payments.Prices.{is_in}

-- Python's floats and decimals.
pub record Floats : Type 1 where
  pub Float : Type 0
  -- `float(n)`, and `a / b` of integers; 0.49 is the float nearest to 49 / 100
  pub of_int : ℕ → Float
  pub ratio : ℕ → ℕ → Float
  pub plus : Float → Float → Float
  pub minus : Float → Float → Float
  pub times : Float → Float → Float
  pub over : Float → Float → Float
  pub abs : Float → Float
  pub at_most : Float → Float → Bool
  pub less : Float → Float → Bool
  -- `int(x)` and `round(x)` of a positive float; `none` is the exception that infinity, or what is
  -- not a number, raises
  pub truncate : Float → Option ℕ
  pub round : Float → Option ℕ
  -- `int((Decimal(str(x)) * scale).quantize(Decimal("1"), rounding=ROUND_HALF_UP))`, of a float
  -- that is not negative
  pub half_up : (scale : ℕ) → Float → ℕ
  -- `float(v)`; `none` is a `TypeError` or a `ValueError`
  pub of_json : Json → Option Float

-- `ZERO_DECIMAL_CURRENCIES`
abbrev pub zero_decimal_currencies : List String
zero_decimal_currencies = "jpy" ∷ "krw" ∷ "idr" ∷ "twd" ∷ []

module _ (env : Env) (floats : Floats) where
  abbrev Amount : Type 0
  Amount = Floats.Float floats

  abbrev pub is_zero_decimal : String → Bool
  is_zero_decimal currency = is_in zero_decimal_currencies (env.lower currency)

  unfoldable pub format_amount : ℕ → (currency : String) → Amount
  format_amount amount currency =
      if is_zero_decimal currency then floats.of_int amount else floats.ratio amount 100

  -- `min(options, key=lambda o: abs(o - amount))`: the first of the nearest.
  abbrev pub nearest : (amount best : Amount) → List Amount → Amount
  nearest amount best [] = best
  nearest amount best (o ∷ os) =
      let closer =
        floats.less (floats.abs (floats.minus o amount)) (floats.abs (floats.minus best amount)) in
      nearest amount (if closer then o else best) os

  abbrev pub step_of : Amount → ℕ
  step_of amount = if floats.at_most (floats.of_int 1000) amount then 100 else 10

  -- To the nearest multiple of the step.
  abbrev pub to_step : ℕ → Option ℕ → Option Amount
  to_step step none = none
  to_step step (some n) = some (floats.of_int (n * step))

  -- To the nearest of the four charm prices around the whole part.
  abbrev pub to_charm : Amount → Option ℕ → Option Amount
  to_charm amount none = none
  to_charm amount (some whole) =
      let w = floats.of_int whole in
      some (
        nearest amount (floats.minus w (floats.ratio 1 100)) (
          floats.plus w (floats.ratio 49 100)
          ∷ floats.plus w (floats.ratio 99 100)
          ∷ floats.plus w (floats.ratio 149 100)
          ∷ []))

  -- `none` is the exception of an infinite amount, or of one that is not a number.
  unfoldable pub round_friendly : Amount → (currency : String) → Option Amount
  round_friendly amount currency =
      if floats.at_most amount (floats.of_int 0)
      then some (floats.of_int 0)
      else if is_zero_decimal currency
      then to_step (step_of amount)
          (floats.round (floats.over amount (floats.of_int (step_of amount))))
      else to_charm amount (floats.truncate amount)

  -- `_to_minor_units`
  unfoldable pub to_minor_units : Amount → (currency : String) → ℕ
  to_minor_units display_amount currency =
      floats.half_up (if is_zero_decimal currency then 1 else 100) display_amount
