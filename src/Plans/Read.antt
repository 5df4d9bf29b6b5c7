-- ===== src/Plans/Read.antt =====
-- What a switch between prices reads of an answer by Stripe: `_safe_get` and the first half of
-- `change_plan` of core/saasmint_core/services/subscriptions.py.
use saasmint_core.Base.{ℕ, ltb, String, Bool, false, Option, none, some}
use saasmint_core.Python.{Exn, Result, ok, err, Json, index, at, as_int, ◌>>=◌}
use saasmint_core.Values.{to_text}
use saasmint_core.State.{Env}

-- `_safe_get`: a missing key, or a missing object, gives null.
abbrev pub missing_as_null : Result Json → Result Json
missing_as_null (ok v) = ok v
missing_as_null (err Exn.key_error) = ok Json.null
missing_as_null (err Exn.attribute_error) = ok Json.null
missing_as_null (err e) = err e

unfoldable pub safe_get : Json → String → Result Json
unfolding index
safe_get Json.null k = ok Json.null
safe_get v k = missing_as_null (index v k)

-- `sub["items"]["data"][0]`
unfoldable pub first_item : Json → Result Json
first_item sub = do items ← index sub "items"; data_ ← index items "data"; at data_ 0

-- `isinstance(current_amount, int) and new_price_amount < current_amount`
abbrev pub is_below : ℕ → Option ℕ → Bool
is_below new none = false
is_below new (some current) = ltb new current

-- `is_downgrade`
unfoldable pub detect_downgrade : Option ℕ → Json → Result Bool
unfolding safe_get
detect_downgrade none item = ok false
detect_downgrade (some new) item = elim (safe_get item "price") [
  | err e ↦ err e
  | ok price ↦ elim (safe_get price "unit_amount") [
    | err e ↦ err e
    | ok current ↦ ok (is_below new (as_int current))
  ]
]

pub record Change : Type 0 where
  pub item_id : String
  pub current_quantity : Option ℕ
  pub is_downgrade : Bool

unfoldable pub read_change : Env → Json → Option ℕ → Result Change
read_change env sub amount = do
  item ← first_item sub
  id ← index item "id"
  raw_quantity ← safe_get item "quantity"
  is_downgrade ← detect_downgrade amount item
  ok record {
    item_id = to_text env id;
    current_quantity = as_int raw_quantity;
    is_downgrade = is_downgrade;
  }

-- The item's value, else the subscription's.
abbrev pub own_or : Json → Json → String → Result Json
own_or Json.null sub field = safe_get sub field
own_or value sub field = ok value

abbrev pub int_or_raise : Option ℕ → Result ℕ
int_or_raise none = err Exn.value_error
int_or_raise (some n) = ok n

unfoldable pub read_period_field : Json → Json → String → Result ℕ
read_period_field sub item field = do
  own ← safe_get item field
  value ← own_or own sub field
  int_or_raise (as_int value)
